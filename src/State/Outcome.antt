-- ===== src/State/Outcome.antt =====
-- daemon/state.c: the state in which running a task, or the end of its thread, leaves the point.
use autofs.Prelude.{
  ℕ, Bool, true, false, not, ◌&&◌, ◌||◌, Option, none, some, ◌≡◌, ◌≢◌, ◌↔◌, refl, arith, ◌==◌,
  if◌then◌else◌, if_both, not_flip, inl, inr, Bool-cases, Option-cases,
}
use autofs.State.{
  States, ready, expire, prune, readmap, shutdown_pending, shutdown_force, shutdown, same, same-eq,
  rank, Point, Task, How, World, Env, assert,
}
use autofs.State.Run.{
  st_ready, set_state, expire_proc, after_expire, start_expire, st_prune, st_expire, st_readmap,
  st_prepare_shutdown, st_force_shutdown, st_shutdown, run_state, run_state_task,
}
use autofs.State.Add.{
  st_add_task, next_state, end_expire, enter_next, expire_cleanup, is_idle, is_wanted,
}
use autofs.State.Handler.Effect.{is_some, launched}

-- The tasks that `run_state_task` knows how to run.
abbrev pub is_run : States → Bool
is_run prune = true
is_run expire = true
is_run readmap = true
is_run shutdown_pending = true
is_run shutdown_force = true
is_run _ = false

-- The point as the assertions of the functions that start a task want it.
abbrev pub is_expected : States → Point → Bool
is_expected prune p = same p.state ready && p.exp_thread == 0
is_expected expire p = same p.state ready && p.exp_thread == 0
is_expected readmap p = same p.state ready && p.readmap_thread == 0
is_expected shutdown_pending p = (same p.state ready || same p.state expire) && p.exp_thread == 0
is_expected shutdown_force p = (same p.state ready || same p.state expire) && p.exp_thread == 0
is_expected _ p = true

-- The point after a task: with the started thread in the state asked for, or ready again.
abbrev pub point_after : States → Option ℕ → Point → Point
point_after s none p = record p { state = ready; shutdown = false }
point_after readmap (some thid) p = record p { state = readmap; readmap_thread = thid }
point_after s (some thid) p = record p { state = s; exp_thread = thid }

abbrev pub Runs : Env → ℕ → States → World → Bool × World → Type 0
Runs env ap s w r =
    (r.0 ≡ is_some (launched env))
    × ((q : ℕ)
        → r.1.points q
          ≡ (if q == ap then point_after s (launched env) (w.points ap) else w.points q))
    × ((r.1.asserts ≡ w.asserts) ↔ (is_expected s (w.points ap) ≡ true))

abbrev expire_after : States → Option ℕ → Point → Point
expire_after s none p = record p { state = ready; shutdown = false }
expire_after s (some thid) p = record p { state = s; exp_thread = thid }

-- The common part of the four functions that start an expire thread.
start_expire_runs :
    (env : Env) (ap : ℕ) (s : States) (how : How) (expected : Bool) (w : World)
    → let r = start_expire env ap how (set_state ap s (assert expected w)) in
      (r.0 ≡ is_some (launched env))
      × ((q : ℕ)
          → r.1.points q
            ≡ (if q == ap then expire_after s (launched env) (w.points ap) else w.points q))
      × ((r.1.asserts ≡ w.asserts) ↔ ((expected && (w.points ap).exp_thread == 0) ≡ true))
unfolding start_expire expire_proc after_expire st_ready
start_expire_runs env ap s how expected w = elim (Bool-cases env.alloc_args) [
  | inl a ↦ elim (Option-cases env.created) [
    | inl c ↦ rw (a, c) (refl, (λ q. ground arith), ground arith)
    | inr (thid, c) ↦ rw (a, c) (refl, (λ q. ground arith), ground arith)
  ]
  | inr a ↦ rw a (refl, (λ q. ground arith), ground arith)
]

st_readmap-Runs : (env : Env) (ap : ℕ) (w : World) → Runs env ap readmap w (st_readmap env ap w)
unfolding st_readmap st_ready
st_readmap-Runs env ap w = elim (Bool-cases env.alloc_args) [
  | inl a ↦ elim (Option-cases env.created) [
    | inl c ↦ rw (a, c) (refl, (λ q. ground arith), ground arith)
    | inr (thid, c) ↦ rw (a, c) (refl, (λ q. ground arith), ground arith)
  ]
  | inr a ↦ rw a (refl, (λ q. ground arith), ground arith)
]

run_state-Runs :
    (env : Env) (ap : ℕ) (s : States) (w : World)
    → is_run s ≡ true
    → Runs env ap s w (run_state s env ap w)
unfolding run_state st_prune st_expire st_prepare_shutdown st_force_shutdown
run_state-Runs env ap prune w h = start_expire_runs env ap prune _ _ w
run_state-Runs env ap expire w h = start_expire_runs env ap expire _ _ w
run_state-Runs env ap readmap w h = st_readmap-Runs env ap w
run_state-Runs env ap shutdown_pending w h = start_expire_runs env ap shutdown_pending _ _ w
run_state-Runs env ap shutdown_force w h = start_expire_runs env ap shutdown_force _ _ w
run_state-Runs env ap _ w h = cc

-- Running a task to expire, prune, read maps or shut down whose state is not that of the point: if
-- a thread can be started, the call reports success and the point takes on the state and names the
-- thread; if not, it reports failure and the point is ready again, with its request to shut down
-- withdrawn. No other point changes, and an assertion fails exactly if the point was not as the
-- task expects it.
pub run_state_task-Runs :
    (env : Env) (task : Task) (w : World)
    → is_run task.state ≡ true
    → task.state ≢ (w.points task.ap).state
    → Runs env task.ap task.state w (run_state_task env task w)
unfolding run_state_task
run_state_task-Runs env task w h n =
    if_both (Runs env task.ap task.state w) (not (same task.state (w.points task.ap).state))
      (λ _. run_state-Runs env task.ap task.state w h)
      (λ e. absurd (n (same-eq _ _ (not_flip _ _ e))))

-- What the end of its expire thread makes of a point, told by state.
abbrev pub shuts_down : Env → ℕ → Point → Bool
shuts_down env success p =
    same p.state shutdown_force
    || (same p.state shutdown_pending
        && not (is_wanted env.askumount && not p.shutdown)
        && (env.ignore_busy || success == 0))

abbrev pub asks_shutdown : Env → ℕ → Point → Bool
asks_shutdown env success p =
    (same p.state expire || same p.state prune)
    && p.submount
    && success == 0
    && is_idle env.askumount

abbrev pub is_expiring : States → Bool
is_expiring ready = true
is_expiring expire = true
is_expiring prune = true
is_expiring shutdown_pending = true
is_expiring shutdown_force = true
is_expiring _ = false

-- When its expire thread ends, a point that the thread belongs to, and that is ready, expiring,
-- pruning or on its way to shutdown, forgets the thread; it is shut down if shutdown was forced, or
-- if it is pending, no mount request turned up without a request to shut down, and all was expired
-- or busy mounts are ignored; it keeps its state if it was expiring or pruning and is a submount
-- that was emptied and is idle, and else is ready again.
pub expire_cleanup_outcome :
    (env : Env) (self ap success : ℕ) (w : World)
    → self ≡ (w.points ap).exp_thread
    → is_expiring (w.points ap).state ≡ true
    → let p = w.points ap in
      let p' = (expire_cleanup env self ap success w).points ap in
      (p'.exp_thread ≡ 0)
      × (p'.state ≡ (
          if shuts_down env success p
          then shutdown
          else if asks_shutdown env success p
          then p.state
          else ready))
unfolding expire_cleanup next_state end_expire enter_next st_add_task st_ready st_shutdown rank
expire_cleanup_outcome env self ap success w own h = outcome (w.points ap).state refl
  where
    outcome :
        (s : States)
        → (w.points ap).state ≡ s
        → let p = w.points ap in
          let p' = (expire_cleanup env self ap success w).points ap in
          (p'.exp_thread ≡ 0)
          × (p'.state ≡ (
              if shuts_down env success p
              then shutdown
              else if asks_shutdown env success p
              then p.state
              else ready))
    outcome ready e = ground arith
    outcome _ e = ground arith
