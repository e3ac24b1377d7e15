-- ===== src/State/Run.antt =====
-- daemon/state.c: the functions that run one task.
use autofs.Prelude.{ℕ, ◌+◌, Bool, true, false, not, ◌||◌, ◌∷◌, none, some, ◌==◌, if◌then◌else◌}
use autofs.State.{
  States, ready, expire, prune, readmap, shutdown_pending, shutdown_force, shutdown, same, Task,
  How, normal, immediate, forced, expire_proc_indirect, expire_proc_direct, do_readmap, World, Env,
  set_point, assert, conditional_alarm,
}
use autofs.State.Queue.{st_set_thid}

unfoldable pub st_ready : ℕ → World → World
st_ready ap w = set_point w ap (record (w.points ap) { shutdown = false; state = ready })

abbrev pub set_state : ℕ → States → World → World
set_state ap s w = set_point w ap (record (w.points ap) { state = s })

-- `EXP_PARTIAL` is never returned.
pub data Expire : Type 0 where
  exp_error exp_started exp_partial : Expire

-- The wait for the new thread's first signal holds the lock of the queue, so nothing else is seen
-- to happen during it.
unfoldable pub expire_proc : Env → ℕ → How → World → Expire × World
expire_proc env ap how w =
    let p = w.points ap in
    let w₁ = assert (p.exp_thread == 0) w in
    if not env.alloc_args then (exp_error, w₁) else elim env.created [
      | none ↦ (exp_error, w₁)
      | some thid ↦
          let routine = if p.indirect then expire_proc_indirect how else expire_proc_direct how in
          let w₂ = set_point w₁ ap (record p { exp_thread = thid }) in
          (
            exp_started,
            record w₂ {
              queue = st_set_thid ap thid w.queue;
              threads = (thid, ap, routine) ∷ w.threads;
            },
          )
    ]

-- The `switch` on the outcome of `expire_proc` in `st_prepare_shutdown`, `st_force_shutdown`,
-- `st_prune` and `st_expire`.
unfoldable pub after_expire : Env → ℕ → Expire → World → Bool × World
after_expire env ap exp_started w = (true, w)
after_expire env ap _ w = (false, st_ready ap (conditional_alarm env ap w))

unfoldable pub start_expire : Env → ℕ → How → World → Bool × World
unfolding expire_proc after_expire
start_expire env ap how w = let (exp, w') = expire_proc env ap how w in after_expire env ap exp w'

abbrev state_is : ℕ → States → World → Bool
state_is ap s w = same (w.points ap).state s

unfoldable pub st_prepare_shutdown : Env → ℕ → World → Bool × World
st_prepare_shutdown env ap w =
    start_expire env ap immediate
      (set_state ap shutdown_pending (assert (state_is ap ready w || state_is ap expire w) w))

unfoldable pub st_force_shutdown : Env → ℕ → World → Bool × World
st_force_shutdown env ap w =
    start_expire env ap forced
      (set_state ap shutdown_force (assert (state_is ap ready w || state_is ap expire w) w))

unfoldable pub st_prune : Env → ℕ → World → Bool × World
st_prune env ap w =
    start_expire env ap immediate (set_state ap prune (assert (state_is ap ready w) w))

unfoldable pub st_expire : Env → ℕ → World → Bool × World
st_expire env ap w =
    start_expire env ap normal (set_state ap expire (assert (state_is ap ready w) w))

unfoldable pub st_readmap : Env → ℕ → World → Bool × World
st_readmap env ap w =
    let w₁ = assert ((w.points ap).readmap_thread == 0) (assert (state_is ap ready w) w) in
    let w₂ = set_state ap readmap w₁ in
    if not env.alloc_args
    then (false, conditional_alarm env ap (st_ready ap w₂))
    else elim env.created [
      | none ↦ (false, conditional_alarm env ap (st_ready ap w₂))
      | some thid ↦
          let w₃ = set_point w₂ ap (record (w₂.points ap) { readmap_thread = thid }) in
          (
            true,
            record w₃ {
              queue = st_set_thid ap thid w.queue;
              threads = (thid, ap, do_readmap env.now) ∷ w.threads;
            },
          )
    ]

unfoldable pub st_shutdown : ℕ → World → Bool × World
st_shutdown ap w =
    let w₁ = assert (state_is ap shutdown_pending w || state_is ap shutdown_force w) w in
    let p = w₁.points ap in
    (false, set_point w₁ ap (record p { state = shutdown; continued = p.continued + 1 }))

-- The `switch` of `run_state_task`.
unfoldable pub run_state : States → Env → ℕ → World → Bool × World
run_state prune env ap w = st_prune env ap w
run_state expire env ap w = st_expire env ap w
run_state readmap env ap w = st_readmap env ap w
run_state shutdown_pending env ap w = st_prepare_shutdown env ap w
run_state shutdown_force env ap w = st_force_shutdown env ap w
run_state _ env ap w = (false, w)

unfoldable pub run_state_task : Env → Task → World → Bool × World
run_state_task env task w =
    if not (same task.state (w.points task.ap).state)
    then run_state task.state env task.ap w
    else (false, w)
