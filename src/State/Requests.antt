-- ===== src/State/Requests.antt =====
-- daemon/state.c: what a request to add or to remove tasks does to the tasks that `st_task_active`
-- finds, and how long `st_wait_task` waits for one.
use autofs.Prelude.{
  ℕ, zero, suc, ◌+◌, ◌*◌, ◌-◌, ◌≤◌, ◌<◌, Bool, true, false, not, ◌&&◌, ◌||◌, List, [], ◌∷◌, ◌++◌,
  some, ◌≡◌, ◌≢◌, refl, arith, ◌==◌, if◌then◌else◌, if_both, inl, inr, Bool-cases, leb,
}
use autofs.State.{States, any, ready, shutdown, same, same-eq, rank, is_shutting, Task, World, Env}
use autofs.State.Queue.{
  st_alloc_task, is_pending, add_pending, enqueue, keep_shutdown, remove_task, remove_tasks, waits,
  st_task_active,
}
use autofs.State.First.{has_task, update_first, find_add-update}
use autofs.State.Add.{st_add_task, wait_loop, st_wait_task}

-- Is the first task of the point, which is the one that may run, for this state?
abbrev pub runs : ℕ → States → List Task → Bool
runs point s [] = false
runs point s (t ∷ q) = (t.ap == point && same t.state s) || runs point s q

-- Is a task for the state, which is not done, the first of the point, or does one wait behind it?
abbrev pub stands : States → List States → Bool
stands s [] = false
stands s (p ∷ l) = same p s || stands s l

abbrev pub requested : ℕ → States → List Task → Bool
requested point s [] = false
requested point s (t ∷ q) =
    if t.ap == point
    then (same t.state s && not t.done) || stands s t.pending
    else requested point s q

stands-concat : (s t : States) (l : List States) → stands t (l ++ s ∷ []) ≡ (stands t l || same s t)
stands-concat s t [] = ground arith
stands-concat s t (p ∷ l) = ground (arith, stands-concat s t l)

is_pending-stands : (s : States) (l : List States) → is_pending false s l ≡ true → stands s l ≡ true
unfolding is_pending
is_pending-stands s [] h = cc
is_pending-stands s (p ∷ l) h = ground (arith, is_pending-stands s l)

waits-concat :
    (s t : States) (l : List States) → waits t (l ++ s ∷ []) ≡ (waits t l || same s t || same t any)
unfolding waits
waits-concat s t [] = ground arith
waits-concat s t (p ∷ l) = ground (arith, waits-concat s t l)

is_pending-waits : (s : States) (l : List States) → is_pending false s l ≡ true → waits s l ≡ true
unfolding is_pending waits
is_pending-waits s [] h = cc
is_pending-waits s (p ∷ l) h = ground (arith, is_pending-waits s l)

same_refl : (s : States) → same s s ≡ true
unfolding rank
same_refl s = ground arith

add_pending_active :
    (s : States) (t : Task)
    → let t' = add_pending false true s t in
      (same t'.state s || same s any || waits s t'.pending) ≡ true
unfolding add_pending
add_pending_active s t =
    ground (arith, is_pending-waits s t.pending, waits-concat s s t.pending, same_refl s)

add_pending-ap : (s : States) (t : Task) → (add_pending false true s t).ap ≡ t.ap
unfolding add_pending
add_pending-ap s t = ground arith

add_pending-requested :
    (s : States) (t : Task)
    → let t' = add_pending false true s t in
      ((same t'.state s && not t'.done) || stands s t'.pending) ≡ true
unfolding add_pending
add_pending-requested s t =
    ground (arith, is_pending-stands s t.pending, stands-concat s s t.pending, same_refl s)

update_first-requested :
    (point : ℕ) (s : States) (q : List Task)
    → has_task point q ≡ true
    → requested point s (update_first point (add_pending false true s) q) ≡ true
unfolding update_first has_task
update_first-requested point s [] h = cc
update_first-requested point s (t ∷ q) h =
    ground (arith, update_first-requested point s q, add_pending-requested s t, add_pending-ap s t)

enqueue-requested :
    (point : ℕ) (s : States) (q : List Task)
    → requested point s (enqueue false true point s q) ≡ true
unfolding enqueue
enqueue-requested point s q = elim (Bool-cases (has_task point q)) [
  | inl e ↦
      rw (enqueue, find_add-update false true point s q, e) (update_first-requested point s q e)
  | inr e ↦
      rw (enqueue, find_add-update false true point s q, e)
        (unfold st_alloc_task in ground (arith, same_refl s))
]

update_first_active :
    (point : ℕ) (s : States) (q : List Task)
    → has_task point q ≡ true
    → st_task_active point s (update_first point (add_pending false true s) q) ≡ true
unfolding update_first has_task st_task_active
update_first_active point s [] h = cc
update_first_active point s (t ∷ q) h =
    ground (arith, update_first_active point s q, add_pending_active s t, add_pending-ap s t)

enqueue_active :
    (point : ℕ) (s : States) (q : List Task)
    → st_task_active point s (enqueue false true point s q) ≡ true
unfolding enqueue
enqueue_active point s q = elim (Bool-cases (has_task point q)) [
  | inl e ↦ rw (enqueue, find_add-update false true point s q, e) (update_first_active point s q e)
  | inr e ↦
      rw (enqueue, find_add-update false true point s q, e)
        (unfold st_task_active st_alloc_task in ground (arith, same_refl s))
]

-- What a request for a state leaves.
abbrev IsRequested : ℕ → States → Bool × World → Type 0
IsRequested ap s x =
    (requested ap s x.1.queue ≡ true)
    × (st_task_active ap s x.1.queue ≡ true)
    × (x.1.signaled ≡ true)

-- Where there is memory, a request for a state other than `ST_READY` and `ST_SHUTDOWN`, of a point
-- that neither is shut down nor on its way there, leaves a task of the point for that state that is
-- not done: the point's first task, or one that waits behind it, whatever the queue held. So a
-- request for the state of a task that is done is queued behind it. `st_task_active` finds the
-- state, and the handler is woken.
pub st_add_task_active :
    (env : Env) (ap : ℕ) (s : States) (w : World)
    → s ≢ ready
    → s ≢ shutdown
    → (w.points ap).state ≢ shutdown
    → is_shutting (w.points ap).state ≡ false
    → env.alloc_task ≡ true
    → let w' = (st_add_task env ap s w).1 in
      (requested ap s w'.queue ≡ true)
      × (st_task_active ap s w'.queue ≡ true)
      × (w'.signaled ≡ true)
unfolding st_add_task
st_add_task_active env ap s w r d p i a =
    if_both (IsRequested ap s) (same s ready) (λ e. absurd (r (same-eq _ _ e)))
      (λ _.
        if_both (IsRequested ap s) (same (w.points ap).state shutdown)
          (λ e. absurd (p (same-eq _ _ e)))
          (λ _.
            if_both (IsRequested ap s) (same s shutdown) (λ e. absurd (d (same-eq _ _ e)))
              (λ _. rw (i, a) (enqueue-requested ap s w.queue, enqueue_active ap s w.queue, refl))))

waits-keep_shutdown :
    (s : States) (l : List States)
    → s ≢ any
    → waits s (keep_shutdown l) ≡ (is_shutting s && waits s l)
unfolding waits keep_shutdown
waits-keep_shutdown s [] n = ground arith
waits-keep_shutdown s (p ∷ l) n =
    ground (arith, waits-keep_shutdown s l, same-eq p s, same-eq s any)

-- After the removal of a point's tasks, of the states other than `ST_ANY` only that of a first
-- task, which may be running, and the shutdown states that wait are found for it; what is found for
-- another point is as before.
pub remove_tasks_active :
    (point q : ℕ) (s : States) (l : List Task)
    → s ≢ any
    → st_task_active q s (remove_tasks point l)
      ≡ (if point == q && not (is_shutting s) then runs q s l else st_task_active q s l)
unfolding remove_tasks remove_task st_task_active
remove_tasks_active point q s [] n = ground arith
remove_tasks_active point q s (t ∷ l) n =
    ground (arith, remove_tasks_active point q s l, waits-keep_shutdown s t.pending, same-eq s any)

-- Does one of the `k` rounds from round `n` on find the task gone?
abbrev pub gone_within : ℕ → ℕ → (ℕ → Bool) → Bool
gone_within n zero active = false
gone_within n (suc k) active = not (active n) || gone_within (n + 1) k active

wait_loop_lem :
    (fuel n wait duration seconds : ℕ) (active : ℕ → Bool)
    → wait_loop (suc fuel) active n wait duration seconds ≡ (
        if not (active n)
        then some true
        else if not (seconds == 0) && leb seconds (if wait == 4 then duration + 1 else duration)
        then some false
        else wait_loop fuel active
            (n + 1)
            (if wait == 4 then 0 else wait + 1)
            (if wait == 4 then duration + 1 else duration)
            seconds)
unfolding wait_loop
wait_loop_lem fuel n wait duration seconds active = refl

wait_loop-gone :
    (fuel k n wait duration seconds : ℕ) (active : ℕ → Bool)
    → k ≤ fuel
    → n + suc k ≡ 5 * seconds
    → n ≡ 5 * duration + wait
    → wait ≤ 4
    → wait_loop (suc fuel) active n wait duration seconds ≡ some (gone_within n (suc k) active)
wait_loop-gone fuel zero n wait duration seconds active f a b c =
    rw (wait_loop_lem fuel n wait duration seconds active) (ground arith)
wait_loop-gone zero (suc k) n wait duration seconds active f a b c = absurd (omega arith)
wait_loop-gone (suc fuel) (suc k) n wait duration seconds active f a b c =
    rw (wait_loop_lem (suc fuel) n wait duration seconds active) (
      ground (
        arith,
        wait_loop-gone fuel k (n + 1) 0 (duration + 1) seconds active,
        wait_loop-gone fuel k (n + 1) (wait + 1) duration seconds active,
      ))

-- With a limit of `seconds` the wait ends after 5 rounds a second at most, with the answer whether
-- one of those rounds found the task gone.
pub st_wait_task-gone :
    (fuel seconds : ℕ) (active : ℕ → Bool)
    → 0 < seconds
    → 5 * seconds ≤ fuel
    → st_wait_task fuel active seconds ≡ some (gone_within 0 (5 * seconds) active)
unfolding st_wait_task
st_wait_task-gone zero seconds active p h = absurd (omega arith)
st_wait_task-gone (suc fuel) seconds active p h =
    let rounds : 5 * seconds ≡ suc (5 * seconds - 1) = omega arith in
    rw rounds (
      wait_loop-gone fuel (5 * seconds - 1) 0 0 0 seconds active (omega arith) (omega arith)
        (omega arith) (omega arith))
