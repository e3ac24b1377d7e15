-- ===== src/State/Add.antt =====
-- daemon/state.c: the functions that other threads call, each under the lock of the queue.
use autofs.Prelude.{
  ℕ, ◌+◌, Bool, true, false, not, ◌&&◌, List, [], ◌∷◌, Option, none, some, ◌==◌, if◌then◌else◌, suc,
  zero, leb,
}
use autofs.State.{
  States, inval, ready, expire, prune, shutdown_pending, shutdown_force, shutdown, same,
  is_shutting, Point, Task, World, Env, set_point, conditional_alarm,
}
use autofs.State.Queue.{enqueue, remove_tasks, st_set_done}
use autofs.State.Run.{st_ready, st_shutdown}

-- `__st_add_task`, and `st_add_task`, which wraps it in the lock.
unfoldable pub st_add_task : Env → ℕ → States → World → Bool × World
unfolding st_ready st_shutdown
st_add_task env ap s w =
    if same s ready
    then (true, record (st_ready ap w) { signaled = true })
    else if same (w.points ap).state shutdown
    then (true, w)
    else if same s shutdown
    then st_shutdown ap w
    else (
      true,
      record w {
        queue = enqueue (is_shutting (w.points ap).state) env.alloc_task ap s w.queue;
        signaled = true;
      },
    )

unfoldable pub remove_from : ℕ → List Task → World → World
remove_from ap [] w = w
remove_from ap (task ∷ rest) w = record w { queue = remove_tasks ap (task ∷ rest); signaled = true }

unfoldable pub st_remove_tasks : ℕ → World → World
unfolding remove_from
st_remove_tasks ap w = remove_from ap w.queue w

-- `!rv && idle`
abbrev pub is_idle : Option Bool → Bool
is_idle none = false
is_idle (some idle) = idle

-- `!rv && !idle`
abbrev pub is_wanted : Option Bool → Bool
is_wanted none = false
is_wanted (some idle) = not idle

-- `case ST_EXPIRE` and `case ST_PRUNE`; `again` is the test for `ST_EXPIRE` before the alarm.
next_expired : (again : Bool) → Env → (success : ℕ) → Point → States × Bool
next_expired again env success p =
    if p.submount && success == 0 && is_idle env.askumount
    then (shutdown_pending, false)
    else (ready, again)

next_from : States → Env → (success : ℕ) → Point → States × Bool
unfolding next_expired
next_from expire env success p = next_expired true env success p
next_from prune env success p = next_expired false env success p
next_from ready env success p = (ready, false)
next_from shutdown_pending env success p =
    if is_wanted env.askumount && not p.shutdown
    then (ready, true)
    else if env.ignore_busy
    then (shutdown, false)
    else if success == 0
    then (shutdown, false)
    else (ready, true)
next_from shutdown_force env success p = (shutdown, false)
next_from _ env success p = (inval, false)

-- The `switch` of `expire_cleanup`: the next state, and whether `conditional_alarm_add` is called.
-- `success` is `ec->status`, which is 0 where all was expired.
unfoldable pub next_state : Env → (success : ℕ) → Point → States × Bool
unfolding next_from
next_state env success p = next_from p.state env success p

-- `expire_cleanup` up to and including `st_set_done`; `own` is its test of `ap->exp_thread`.
unfoldable pub end_expire : Env → (own alarm : Bool) → ℕ → World → World
end_expire env own alarm ap w =
    let w₁ = if own then set_point w ap (record (w.points ap) { exp_thread = 0 }) else w in
    let w₂ = if own && alarm then conditional_alarm env ap w₁ else w₁ in
    record w₂ { queue = st_set_done ap w.queue }

-- `if (next != ST_INVAL) __st_add_task(ap, next)`
unfoldable pub enter_next : Env → ℕ → States → World → World
unfolding st_add_task
enter_next env ap next w = if same next inval then w else (st_add_task env ap next w).1

-- `expire_cleanup`, called by the thread `self` as it ends.
unfoldable pub expire_cleanup : Env → (self : ℕ) → ℕ → (success : ℕ) → World → World
unfolding next_state end_expire enter_next
expire_cleanup env self ap success w =
    let own = self == (w.points ap).exp_thread in
    let next = next_state env success (w.points ap) in
    enter_next env ap (if own then next.0 else inval) (end_expire env own next.1 ap w)

unfoldable pub do_readmap_cleanup : ℕ → World → World
unfolding st_ready
do_readmap_cleanup ap w =
    let w₁ = set_point w ap (record (w.points ap) { readmap_thread = 0 }) in
    st_ready ap (record w₁ { queue = st_set_done ap w.queue })

-- `st_wait_task`: the loop, where `active n` is what `st_task_active` answers in round n. The answer
-- is `none` where the fuel runs out.
unfoldable pub wait_loop : ℕ → (ℕ → Bool) → (n wait duration seconds : ℕ) → Option Bool
wait_loop zero active n wait duration seconds = none
wait_loop (suc fuel) active n wait duration seconds =
    let wait' = if wait == 4 then 0 else wait + 1 in
    let duration' = if wait == 4 then duration + 1 else duration in
    let rest = wait_loop fuel active (n + 1) wait' duration' seconds in
    if not (active n)
    then some true
    else if not (seconds == 0) && leb seconds duration'
    then some false
    else rest

unfoldable pub st_wait_task : ℕ → (ℕ → Bool) → ℕ → Option Bool
unfolding wait_loop
st_wait_task fuel active seconds = wait_loop fuel active 0 0 0 seconds
