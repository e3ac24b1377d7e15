-- ===== src/State/Handler/Keeps.antt =====
-- daemon/state.c: the handler and the invariant of the queue.
use mathlib.Core.Option
use mathlib.Core.Option.{some_inj}
use autofs.Prelude.{
  ℕ, zero, suc, Bool, true, false, not, List, [], ◌∷◌, Option, none, some, if◌then◌else◌, ◌≡◌, ◌≢◌,
  refl, subst, inl, inr, Option-cases, All, get_elem?, modify, erase_idx,
}
use autofs.State.{States, Task, World, Env}
use autofs.State.Queue.{st_alloc_task}
use autofs.State.First.{st_set_thid-update}
use autofs.State.Invariant.{is_queued, Absent, IsTask, IsQueue, st_alloc_task-IsTask}
use autofs.State.Handler.{
  set_busy, uncancel, start_task, first_visit, promote, wake_visit, first_loop, wake_loop, Phase,
  empty, waiting, go_wait, after_wake, wake, handler_turn,
}
use autofs.State.Handler.Effect.{
  is_some, thread_of, thread_of-created, enter, run_state_task_effect,
}
use autofs.State.Handler.Places.{
  erase_idx-IsQueue, concat-IsQueue, get_elem?-IsTask, modify-IsQueue, update_first-modify,
  erase_idx-modify, erase_idx-gone,
}
use autofs.State.Handler.Rules.{first_visit_rule, wake_visit_rule}

-- The threads that `pthread_create` names are not 0.
abbrev pub NamesThreads : Env → Type 0
NamesThreads env = (thid : ℕ) → env.created ≡ some thid → thid ≢ 0

abbrev busy_world : ℕ → World → World
busy_world seen w = record w { queue = modify set_busy seen w.queue }

abbrev starting : ℕ → Task → Task
starting thread t = record t { busy = true; thid = thread }

starting-IsTask : (thread : ℕ) (t : Task) → thread ≢ 0 → IsTask t → IsTask (starting thread t)
starting-IsTask thread t n h = record {
  queued = h.queued;
  pending_queued = h.pending_queued;
  pending_distinct = h.pending_distinct;
  cancel_busy = λ _. refl;
  busy_thread = λ _. n;
}

uncancel-IsTask : (t : Task) → IsTask t → IsTask (uncancel t)
uncancel-IsTask t h = record {
  queued = h.queued;
  pending_queued = h.pending_queued;
  pending_distinct = h.pending_distinct;
  cancel_busy = λ e. cc;
  busy_thread = h.busy_thread;
}

module _ (seen : ℕ) (env : Env) (task : Task) (w : World) (names : NamesThreads env)
    (at : get_elem? w.queue seen ≡ some task) (inv : IsQueue w.queue) where
  effect :
      ((start_task seen env task w).0 ≡ is_some (thread_of env task (busy_world seen w)))
      × ((start_task seen env task w).1.queue
          ≡ enter (thread_of env task (busy_world seen w)) task.ap (modify set_busy seen w.queue))
  unfolding start_task
  effect = run_state_task_effect env task (busy_world seen w)

  start_task-started :
      (start_task seen env task w).0 ≡ true → IsQueue (start_task seen env task w).1.queue
  start_task-started ret = elim (Option-cases (thread_of env task (busy_world seen w))) [
    | inl none_started ↦ cc (effect.0, none_started)
    | inr (thread, started) ↦
        rw
          (
            effect.1,
            started,
            st_set_thid-update task.ap thread (modify set_busy seen w.queue),
            update_first-modify seen (λ t. record t { thid = thread }) set_busy w.queue task
                (λ t. refl) at inv,
          )
          (modify-IsQueue seen (starting thread) w.queue task (λ t. refl) at
            (starting-IsTask thread task
              (names thread (thread_of-created env task (busy_world seen w) thread started))
              (get_elem?-IsTask seen w.queue task at inv))
            inv)
  ]

  start_task-failed :
      (start_task seen env task w).0 ≡ false
      → (start_task seen env task w).1.queue ≡ modify set_busy seen w.queue
  start_task-failed ret = elim (Option-cases (thread_of env task (busy_world seen w))) [
    | inl none_started ↦ rw (effect.1, none_started) refl
    | inr (thread, started) ↦ cc (effect.0, started)
  ]

promote-IsQueue :
    (seen point : ℕ) (p : List States) (w : World)
    → All (λ s. is_queued s ≡ true) p
    → Absent point (erase_idx seen w.queue)
    → IsQueue (erase_idx seen w.queue)
    → IsQueue (promote seen point p w).1.queue
unfolding promote
promote-IsQueue seen point [] w k a h = h
promote-IsQueue seen point (s ∷ p) w k a h =
    concat-IsQueue (st_alloc_task point s) (erase_idx seen w.queue)
      (st_alloc_task-IsTask point s k.0) (unfold st_alloc_task in a) h

module _ (seen : ℕ) (env : Env) (task : Task) (w : World) (names : NamesThreads env)
    (at : get_elem? w.queue seen ≡ some task) (inv : IsQueue w.queue) where
  gone : Absent task.ap (erase_idx seen w.queue)
  gone = erase_idx-gone seen w.queue task at inv

  left : IsQueue (erase_idx seen w.queue)
  left = erase_idx-IsQueue seen w.queue inv

  dropped : IsQueue (promote seen task.ap task.pending w).1.queue
  dropped =
      promote-IsQueue seen task.ap task.pending w
        (get_elem?-IsTask seen w.queue task at inv).pending_queued gone left

  failed_left :
      (start_task seen env task w).0 ≡ false
      → erase_idx seen (start_task seen env task w).1.queue ≡ erase_idx seen w.queue
  failed_left ret =
      rw (start_task-failed seen env task w names at inv ret)
        (erase_idx-modify seen set_busy w.queue)

  pub wake_visit-IsQueue : IsQueue (wake_visit seen env task w).1.queue
  wake_visit-IsQueue =
      wake_visit_rule (λ r. IsQueue r.1.queue) seen env task w (λ _. dropped)
        (λ _. start_task-started seen env task w names at inv)
        (λ _ ret.
          promote-IsQueue seen task.ap task.pending _
            (get_elem?-IsTask seen w.queue task at inv).pending_queued (rw (failed_left ret) gone)
            (rw (failed_left ret) left))
        (λ _ _. inv)
        (λ _.
          modify-IsQueue seen uncancel w.queue task (λ t. refl) at
            (uncancel-IsTask task (get_elem?-IsTask seen w.queue task at inv)) inv)
        (λ _. inv) (λ _. dropped)

  pub first_visit-IsQueue : IsQueue (first_visit seen env task w).1.queue
  first_visit-IsQueue =
      first_visit_rule (λ r. IsQueue r.1.queue) seen env task w (λ _. left)
        (λ _. start_task-started seen env task w names at inv) (λ _ ret. rw (failed_left ret) left)

wake_loop-IsQueue :
    (fuel : ℕ) (env : ℕ → Env) (seen : ℕ) (w w' : World)
    → ((n : ℕ) → NamesThreads (env n))
    → IsQueue w.queue
    → wake_loop fuel env seen w ≡ some w'
    → IsQueue w'.queue
unfolding wake_loop
wake_loop-IsQueue zero env seen w w' names inv e = cc
wake_loop-IsQueue (suc fuel) env seen w w' names inv e =
    elim (Option-cases (get_elem? w.queue seen)) [
      | inl n ↦
          let ended : some w ≡ some w' = rw (n, wake_loop) at e in
          subst (λ (x : World). IsQueue x.queue) (some_inj.0 ended) inv
      | inr (task, at) ↦
          wake_loop-IsQueue fuel env _ _ w' names
            (wake_visit-IsQueue seen (env fuel) task w (names fuel) at inv)
            (rw (at, wake_loop) at e)
    ]

first_loop-IsQueue :
    (fuel : ℕ) (env : ℕ → Env) (seen : ℕ) (w w' : World)
    → ((n : ℕ) → NamesThreads (env n))
    → IsQueue w.queue
    → first_loop fuel env seen w ≡ some w'
    → IsQueue w'.queue
unfolding first_loop
first_loop-IsQueue zero env seen w w' names inv e = cc
first_loop-IsQueue (suc fuel) env seen w w' names inv e =
    elim (Option-cases (get_elem? w.queue seen)) [
      | inl n ↦
          let ended : some w ≡ some w' = rw (n, first_loop) at e in
          subst (λ (x : World). IsQueue x.queue) (some_inj.0 ended) inv
      | inr (task, at) ↦
          first_loop-IsQueue fuel env _ _ w' names
            (first_visit-IsQueue seen (env fuel) task w (names fuel) at inv)
            (rw (at, first_loop) at e)
    ]

map-eq-some :
    {A B : Type 0} (f : A → B) (o : Option A) {b : B}
    → Option.map f o ≡ some b
    → (a : A) × (o ≡ some a) × (f a ≡ b)
map-eq-some f none e = cc
map-eq-some f (some a) e = (a, refl, some_inj.0 e)

after_wake-queue : (q : List Task) (w : World) → (after_wake q w).1.queue ≡ w.queue
unfolding after_wake
after_wake-queue [] w = refl
after_wake-queue (_ ∷ _) w = refl

woken-IsQueue :
    (idle : Bool) (fuel : ℕ) (env : ℕ → Env) (w : World) (r : Phase × World)
    → ((n : ℕ) → NamesThreads (env n))
    → IsQueue w.queue
    → (if idle
        then some (waiting, w)
        else Option.map (λ w'. after_wake w'.queue w') (wake_loop fuel env 0 w))
      ≡ some r
    → IsQueue r.1.queue
woken-IsQueue true fuel env w r names inv e =
    subst (λ (x : Phase × World). IsQueue x.1.queue) (some_inj.0 e) inv
woken-IsQueue false fuel env w r names inv e =
    let (w', l, f) = map-eq-some (λ w'. after_wake w'.queue w') (wake_loop fuel env 0 w) e in
    subst (λ (x : Phase × World). IsQueue x.1.queue) f
      (rw (after_wake-queue w'.queue w') (wake_loop-IsQueue fuel env 0 w w' names inv l))

wake-IsQueue :
    (fuel : ℕ) (env : ℕ → Env) (phase : Phase) (q : List Task) (w : World) (r : Phase × World)
    → ((n : ℕ) → NamesThreads (env n))
    → IsQueue w.queue
    → wake fuel env phase q w ≡ some r
    → IsQueue r.1.queue
unfolding wake
wake-IsQueue fuel env empty [] w r names inv e =
    subst (λ (x : Phase × World). IsQueue x.1.queue) (some_inj.0 e) inv
wake-IsQueue fuel env empty (_ ∷ _) w r names inv e =
    let (w', l, f) = map-eq-some go_wait (first_loop fuel env 0 w) e in
    subst (λ (x : Phase × World). IsQueue x.1.queue) f
      (first_loop-IsQueue fuel env 0 w w' names inv l)
wake-IsQueue fuel env waiting [] w r names inv e =
    woken-IsQueue (not w.signaled) fuel env w r names inv e
wake-IsQueue fuel env waiting (_ ∷ _) w r names inv e =
    woken-IsQueue (not w.signaled) fuel env w r names inv e

-- A turn of the handler keeps the invariant of the queue.
pub handler_turn-IsQueue :
    (fuel : ℕ) (env : ℕ → Env) (phase : Phase) (w : World) (r : Phase × World)
    → ((n : ℕ) → NamesThreads (env n))
    → IsQueue w.queue
    → handler_turn fuel env phase w ≡ some r
    → IsQueue r.1.queue
unfolding handler_turn
handler_turn-IsQueue fuel env phase w r names inv e =
    wake-IsQueue fuel env phase w.queue w r names inv e
