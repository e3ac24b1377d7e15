-- ===== src/State/System.antt =====
-- daemon/state.c: the state machine as a whole. Each step is what one thread does while it holds
-- the lock of the queue.
use autofs.Prelude.{ℕ, Bool, true, false, List, [], ◌∷◌, some, ◌≡◌, arith, if_both}
use autofs.State.{States, inval, ready, shutdown, same, rank, is_shutting, Task, World, Env}
use autofs.State.Run.{st_ready, st_shutdown}
use autofs.State.Add.{
  st_add_task, remove_from, st_remove_tasks, end_expire, enter_next, expire_cleanup,
  do_readmap_cleanup,
}
use autofs.State.Invariant.{
  is_queued, IsQueue, enqueue-IsQueue, remove_tasks-IsQueue, st_set_done-IsQueue,
}
use autofs.State.Handler.{Phase, empty, handler_turn}
use autofs.State.Handler.Keeps.{NamesThreads, handler_turn-IsQueue}

-- A turn of the handler that comes to an end; the other threads leave the handler where it waits.
pub data Step : Phase × World → Phase × World → Type 0 where
  add :
      (env : Env) (ap : ℕ) (s : States) (p : Phase) (w : World)
      → Step (p, w) (p, (st_add_task env ap s w).1)
  remove : (ap : ℕ) (p : Phase) (w : World) → Step (p, w) (p, st_remove_tasks ap w)
  expire_ends :
      (env : Env) (self ap success : ℕ) (p : Phase) (w : World)
      → Step (p, w) (p, expire_cleanup env self ap success w)
  readmap_ends : (ap : ℕ) (p : Phase) (w : World) → Step (p, w) (p, do_readmap_cleanup ap w)
  handle :
      (fuel : ℕ) (env : ℕ → Env) (p : Phase) (w : World) (r : Phase × World)
      → ((n : ℕ) → NamesThreads (env n))
      → handler_turn fuel env p w ≡ some r
      → Step (p, w) r

-- The handler starts with no task queued.
pub data Reach : Phase × World → Type 0 where
  start : (w : World) → w.queue ≡ [] → Reach (empty, w)
  next : {c d : Phase × World} → Reach c → Step c d → Reach d

queued_of_tests : (s : States) → same s ready ≡ false → same s shutdown ≡ false → is_queued s ≡ true
unfolding rank
queued_of_tests ready h k = cc
queued_of_tests s h k = ground arith

st_add_task-IsQueue :
    (env : Env) (ap : ℕ) (s : States) (w : World)
    → IsQueue w.queue
    → IsQueue (st_add_task env ap s w).1.queue
unfolding st_add_task
st_add_task-IsQueue env ap s w h =
    if_both (λ (r : Bool × World). IsQueue r.1.queue) (same s ready) (λ _. h)
      (λ not_ready.
        if_both (λ (r : Bool × World). IsQueue r.1.queue) (same (w.points ap).state shutdown)
          (λ _. h)
          (λ _.
            if_both (λ (r : Bool × World). IsQueue r.1.queue) (same s shutdown)
              (λ _. unfold st_shutdown in h)
              (λ not_shutdown.
                enqueue-IsQueue (is_shutting (w.points ap).state) env.alloc_task ap s w.queue
                  (queued_of_tests s not_ready not_shutdown) h)))

remove_from-IsQueue :
    (ap : ℕ) (q : List Task) (w : World)
    → IsQueue q
    → IsQueue w.queue
    → IsQueue (remove_from ap q w).queue
unfolding remove_from
remove_from-IsQueue ap [] w h k = k
remove_from-IsQueue ap (t ∷ q) w h k = remove_tasks-IsQueue ap (t ∷ q) h

enter_next-IsQueue :
    (env : Env) (ap : ℕ) (s : States) (w : World)
    → IsQueue w.queue
    → IsQueue (enter_next env ap s w).queue
unfolding enter_next
enter_next-IsQueue env ap s w h =
    if_both (λ (r : World). IsQueue r.queue) (same s inval) (λ _. h)
      (λ _. st_add_task-IsQueue env ap s w h)

expire_cleanup-IsQueue :
    (env : Env) (self ap success : ℕ) (w : World)
    → IsQueue w.queue
    → IsQueue (expire_cleanup env self ap success w).queue
unfolding expire_cleanup end_expire
expire_cleanup-IsQueue env self ap success w h =
    enter_next-IsQueue env ap _ _ (st_set_done-IsQueue ap w.queue h)

Step-IsQueue : {c d : Phase × World} → Step c d → IsQueue c.1.queue → IsQueue d.1.queue
Step-IsQueue (add env ap s p w) h = st_add_task-IsQueue env ap s w h
Step-IsQueue (remove ap p w) h = unfold st_remove_tasks in remove_from-IsQueue ap w.queue w h h
Step-IsQueue (expire_ends env self ap success p w) h =
    expire_cleanup-IsQueue env self ap success w h
Step-IsQueue (readmap_ends ap p w) h =
    unfold do_readmap_cleanup st_ready in st_set_done-IsQueue ap w.queue h
Step-IsQueue (handle fuel env p w r names e) h = handler_turn-IsQueue fuel env p w r names h e

-- Whatever the threads do and the system answers, if it names no thread 0: every point has at most
-- one task, no two of the tasks that wait behind it ask for the same state, none is for `ST_READY`
-- or `ST_SHUTDOWN`, only a task that was taken up is canceled, and a task that was taken up has a
-- thread.
pub Reach-IsQueue : {c : Phase × World} → Reach c → IsQueue c.1.queue
Reach-IsQueue (start w e) = rw e tt
Reach-IsQueue (next r st) = Step-IsQueue st (Reach-IsQueue r)
