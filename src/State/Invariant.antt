-- ===== src/State/Invariant.antt =====
-- daemon/state.c: what holds of the queue between two acquisitions of its lock, and the functions
-- that other threads call.
use autofs.Prelude.{
  ℕ, Bool, true, false, not, ◌&&◌, ◌||◌, List, [], ◌∷◌, ◌++◌, ◌==◌, ◌≡◌, ◌≢◌, refl, arith, inl, inr,
  Bool-cases, All, if_both,
}
use autofs.State.{States, ready, shutdown, same, rank, Task}
use autofs.State.First.{has_task, update_first, st_set_done-update, find_add-update}
use autofs.State.Queue.{
  st_alloc_task, is_pending, add_pending, enqueue, keep_shutdown, remove_task, remove_tasks,
  st_set_done,
}

-- No task of the point is in the queue.
abbrev pub Absent : ℕ → List Task → Type 0
Absent point = All (λ task. task.ap ≢ point)

-- The states that are ever queued: `ST_READY` and `ST_SHUTDOWN` are acted on at once.
abbrev pub is_queued : States → Bool
is_queued ready = false
is_queued shutdown = false
is_queued _ = true

-- No two of the waiting tasks ask for the same state.
abbrev pub AreDistinct : List States → Type 0
AreDistinct [] = Unit
AreDistinct (s ∷ rest) = (is_pending false s rest ≡ false) × AreDistinct rest

pub record IsTask (task : Task) : Type 0 where
  pub queued : is_queued task.state ≡ true
  pub pending_queued : All (λ s. is_queued s ≡ true) task.pending
  pub pending_distinct : AreDistinct task.pending
  -- A task is canceled only after it was taken up.
  pub cancel_busy : task.cancel ≡ true → task.busy ≡ true
  -- A task that was taken up and is still queued has a thread.
  pub busy_thread : task.busy ≡ true → task.thid ≢ 0

-- Every point has at most one task.
abbrev pub IsQueue : List Task → Type 0
IsQueue [] = Unit
IsQueue (task ∷ q) = IsTask task × Absent task.ap q × IsQueue q

update_first-Absent :
    (point p : ℕ) (f : Task → Task) (q : List Task)
    → ((t : Task) → (f t).ap ≡ t.ap)
    → Absent p q
    → Absent p (update_first point f q)
unfolding update_first
update_first-Absent point p f [] e a = tt
update_first-Absent point p f (t ∷ q) e a =
    if_both (Absent p) (t.ap == point) (λ _. (rw (e t) a.0, a.1))
      (λ _. (a.0, update_first-Absent point p f q e a.1))

-- A change of the first task of a point keeps the invariant of the queue if it keeps the point and
-- that task's invariant.
pub update_first-IsQueue :
    (point : ℕ) (f : Task → Task)
    → ((t : Task) → (f t).ap ≡ t.ap)
    → ((t : Task) → t.ap ≡ point → IsTask t → IsTask (f t))
    → (q : List Task) → IsQueue q
    → IsQueue (update_first point f q)
unfolding update_first
update_first-IsQueue point f e k [] h = tt
update_first-IsQueue point f e k (t ∷ q) h =
    if_both IsQueue (t.ap == point)
      (λ same_ap. (k t (eq_of t.ap point same_ap) h.0, rw (e t) h.1, h.2))
      (λ _. (h.0, update_first-Absent point t.ap f q e h.1, update_first-IsQueue point f e k q h.2))
  where
    eq_of : (a b : ℕ) → (a == b) ≡ true → a ≡ b
    eq_of a b h = ground arith

has_task-Absent : (point : ℕ) (q : List Task) → has_task point q ≡ false → Absent point q
unfolding has_task
has_task-Absent point [] h = tt
has_task-Absent point (t ∷ q) h = ground (arith, has_task-Absent point q)

pub st_alloc_task-IsTask :
    (point : ℕ) (s : States) → is_queued s ≡ true → IsTask (st_alloc_task point s)
unfolding st_alloc_task
st_alloc_task-IsTask point s h = record {
  queued = h;
  pending_queued = tt;
  pending_distinct = tt;
  cancel_busy = λ e. cc;
  busy_thread = λ e. cc;
}

is_pending-concat :
    (s t : States) (l : List States)
    → is_pending false t (l ++ s ∷ []) ≡ (is_pending false t l || same s t)
unfolding is_pending
is_pending-concat s t [] = ground arith
is_pending-concat s t (p ∷ l) = ground (arith, is_pending-concat s t l)

or_true : (b : Bool) → (b || true) ≡ true
or_true b = ground arith

same_symm : (a b : States) → same a b ≡ same b a
unfolding rank
same_symm a b = ground arith

AreDistinct-concat :
    (s : States) (l : List States)
    → is_pending false s l ≡ false
    → AreDistinct l
    → AreDistinct (l ++ s ∷ [])
unfolding is_pending
AreDistinct-concat s [] h d = (refl, tt)
AreDistinct-concat s (p ∷ l) h d =
    ground (arith, is_pending-concat s p l, same_symm s p, AreDistinct-concat s l)

All-concat :
    (s : States) (l : List States)
    → is_queued s ≡ true
    → All (λ s. is_queued s ≡ true) l
    → All (λ s. is_queued s ≡ true) (l ++ s ∷ [])
All-concat s [] h a = (h, tt)
All-concat s (p ∷ l) h a = (a.0, All-concat s l h a.1)

concat-IsTask :
    (s : States) (task : Task)
    → is_queued s ≡ true
    → is_pending false s task.pending ≡ false
    → IsTask task
    → IsTask (record task { pending = task.pending ++ s ∷ [] })
concat-IsTask s task q n h = record {
  queued = h.queued;
  pending_queued = All-concat s task.pending q h.pending_queued;
  pending_distinct = AreDistinct-concat s task.pending n h.pending_distinct;
  cancel_busy = h.cancel_busy;
  busy_thread = h.busy_thread;
}

add_pending-IsTask :
    (shutting alloc : Bool) (s : States) (task : Task)
    → is_queued s ≡ true
    → IsTask task
    → IsTask (add_pending shutting alloc s task)
unfolding add_pending
add_pending-IsTask true alloc s task q h =
    if_both IsTask ((same task.state s && not task.done) || true) (λ _. h)
      (λ e. cc (or_true (same task.state s && not task.done)))
add_pending-IsTask false alloc s task q h =
    if_both IsTask ((same task.state s && not task.done) || false) (λ _. h)
      (λ _.
        if_both IsTask (is_pending false s task.pending) (λ _. h)
          (λ n. if_both IsTask alloc (λ _. concat-IsTask s task q n h) (λ _. h)))

add_pending-ap :
    (shutting alloc : Bool) (s : States) (task : Task)
    → (add_pending shutting alloc s task).ap ≡ task.ap
unfolding add_pending
add_pending-ap shutting alloc s task = ground arith

pub enqueue-IsQueue :
    (shutting alloc : Bool) (point : ℕ) (s : States) (q : List Task)
    → is_queued s ≡ true
    → IsQueue q
    → IsQueue (enqueue shutting alloc point s q)
unfolding enqueue
enqueue-IsQueue shutting alloc point s q qd h = elim (Bool-cases (has_task point q)) [
  | inl e ↦
      rw (enqueue, find_add-update shutting alloc point s q, e)
        (update_first-IsQueue point (add_pending shutting alloc s) (add_pending-ap shutting alloc s)
          (λ t _. add_pending-IsTask shutting alloc s t qd) q h)
  | inr e ↦
      rw (enqueue, find_add-update shutting alloc point s q, e)
        (if_both IsQueue alloc
          (λ _. (st_alloc_task-IsTask point s qd, has_task-Absent point q e, h)) (λ _. h))
]

is_pending-keep_shutdown :
    (s : States) (l : List States)
    → is_pending false s l ≡ false
    → is_pending false s (keep_shutdown l) ≡ false
unfolding is_pending keep_shutdown
is_pending-keep_shutdown s [] h = refl
is_pending-keep_shutdown s (p ∷ l) h = ground (arith, is_pending-keep_shutdown s l)

keep_shutdown-AreDistinct : (l : List States) → AreDistinct l → AreDistinct (keep_shutdown l)
unfolding keep_shutdown
keep_shutdown-AreDistinct [] d = tt
keep_shutdown-AreDistinct (p ∷ l) d =
    ground (arith, keep_shutdown-AreDistinct l, is_pending-keep_shutdown p l)

keep_shutdown-All :
    (l : List States)
    → All (λ s. is_queued s ≡ true) l
    → All (λ s. is_queued s ≡ true) (keep_shutdown l)
unfolding keep_shutdown
keep_shutdown-All [] d = tt
keep_shutdown-All (p ∷ l) d = ground (arith, keep_shutdown-All l)

remove_task-IsTask : (point : ℕ) (task : Task) → IsTask task → IsTask (remove_task point task)
unfolding remove_task
remove_task-IsTask point task h =
    if_both IsTask (not (task.ap == point)) (λ _. h)
      (λ _. record {
        queued = h.queued;
        pending_queued = keep_shutdown-All task.pending h.pending_queued;
        pending_distinct = keep_shutdown-AreDistinct task.pending h.pending_distinct;
        cancel_busy = λ e. ground (arith, h.cancel_busy);
        busy_thread = h.busy_thread;
      })

remove_task-ap : (point : ℕ) (task : Task) → (remove_task point task).ap ≡ task.ap
unfolding remove_task
remove_task-ap point task = ground arith

remove_tasks-Absent : (point p : ℕ) (q : List Task) → Absent p q → Absent p (remove_tasks point q)
unfolding remove_tasks
remove_tasks-Absent point p [] a = tt
remove_tasks-Absent point p (t ∷ q) a =
    (rw (remove_task-ap point t) a.0, remove_tasks-Absent point p q a.1)

pub remove_tasks-IsQueue : (point : ℕ) (q : List Task) → IsQueue q → IsQueue (remove_tasks point q)
unfolding remove_tasks
remove_tasks-IsQueue point [] h = tt
remove_tasks-IsQueue point (t ∷ q) h = (
  remove_task-IsTask point t h.0,
  rw (remove_task-ap point t) (remove_tasks-Absent point t.ap q h.1),
  remove_tasks-IsQueue point q h.2,
)

set_done-IsTask : (t : Task) → IsTask t → IsTask (record t { done = true })
set_done-IsTask t h = record {
  queued = h.queued;
  pending_queued = h.pending_queued;
  pending_distinct = h.pending_distinct;
  cancel_busy = h.cancel_busy;
  busy_thread = h.busy_thread;
}

pub st_set_done-IsQueue : (point : ℕ) (q : List Task) → IsQueue q → IsQueue (st_set_done point q)
st_set_done-IsQueue point q h = rw (st_set_done-update point q) (
    update_first-IsQueue point (λ t. record t { done = true }) (λ t. refl)
      (λ t _. set_done-IsTask t) q h)
