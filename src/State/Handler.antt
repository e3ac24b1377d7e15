-- ===== src/State/Handler.antt =====
-- daemon/state.c: `st_queue_handler`. The pointer `p` of its loops is the number of tasks that stand
-- in front of the one visited; a visit returns that of the next. What the system answers is given
-- per visit, by the fuel left.
pub mod Rules
pub mod Effect
pub mod Ends
pub mod Places
pub mod Keeps
pub mod Promote
use autofs.Prelude.{
  ℕ, zero, suc, ◌+◌, Bool, true, false, not, ◌&&◌, List, [], ◌∷◌, ◌++◌, Option, none, some, ◌==◌,
  if◌then◌else◌, length, get_elem?, modify, erase_idx,
}
use mathlib.Core.Option
use autofs.State.{States, Task, World, Env}
use autofs.State.Queue.{st_alloc_task}
use autofs.State.Run.{run_state_task}

abbrev pub set_busy : Task → Task
set_busy task = record task { busy = true }

abbrev pub uncancel : Task → Task
uncancel task = record task { cancel = false }

-- `task->busy = 1` and the call of `run_state_task`.
unfoldable pub start_task : ℕ → Env → Task → World → Bool × World
start_task seen env task w =
    run_state_task env task (record w { queue = modify set_busy seen w.queue })

-- `list_del(&task->list)`
abbrev pub list_del : ℕ → World → World
list_del seen w = record w { queue = erase_idx seen w.queue }

-- A round of the first loop.
unfoldable pub first_visit : ℕ → Env → Task → World → ℕ × World
first_visit seen env task w =
    if task.cancel
    then (seen, list_del seen w)
    else let (ret, w') = start_task seen env task w in
      if ret then (seen + 1, w') else (seen, list_del seen w')

-- From the label `remove` to the end of the round.
unfoldable pub promote : ℕ → ℕ → List States → World → ℕ × World
unfolding st_alloc_task
promote seen point [] w = (seen, list_del seen w)
promote seen point (next ∷ _) w = (
  (if seen + 1 == length w.queue then 0 else seen),
  record w { queue = erase_idx seen w.queue ++ st_alloc_task point next ∷ [] },
)

-- A round of the second loop.
unfoldable pub wake_visit : ℕ → Env → Task → World → ℕ × World
wake_visit seen env task w =
    if task.thid == 0 && task.cancel
    then promote seen task.ap task.pending w
    else if not task.busy
    then (let (ret, w') = start_task seen env task w in
        if ret then (seen + 1, w') else promote seen task.ap task.pending w')
    else if task.thid == 0
    then (seen + 1, w)
    else if task.cancel
    then (
      seen + 1,
      record w { queue = modify uncancel seen w.queue; killed = task.thid ∷ w.killed },
    )
    else if not task.done
    then (seen + 1, w)
    else promote seen task.ap task.pending w

-- The two loops over the queue; `none` if the fuel runs out.
unfoldable pub first_loop : ℕ → (ℕ → Env) → ℕ → World → Option World
unfolding first_visit
first_loop zero env seen w = none
first_loop (suc fuel) env seen w = elim (get_elem? w.queue seen) [
  | none ↦ some w
  | some task ↦ let next = first_visit seen (env fuel) task w in first_loop fuel env next.0 next.1
]

unfoldable pub wake_loop : ℕ → (ℕ → Env) → ℕ → World → Option World
unfolding wake_visit
wake_loop zero env seen w = none
wake_loop (suc fuel) env seen w = elim (get_elem? w.queue seen) [
  | none ↦ some w
  | some task ↦ let next = wake_visit seen (env fuel) task w in wake_loop fuel env next.0 next.1
]

-- Where the handler waits for the condition: with no task at all, or between two visits.
pub data Phase : Type 0 where
  empty waiting : Phase

-- `signaled = 0` before each wait of the second kind.
abbrev pub go_wait : World → Phase × World
go_wait w = (waiting, record w { signaled = false })

-- The test at the end of the second loop.
unfoldable pub after_wake : List Task → World → Phase × World
after_wake [] w = (empty, w)
after_wake (_ ∷ _) w = go_wait w

-- What `st_queue_handler` does when it is woken, given the queue that it finds.
unfoldable pub wake : ℕ → (ℕ → Env) → Phase → List Task → World → Option (Phase × World)
unfolding after_wake
wake fuel env empty [] w = some (empty, w)
wake fuel env empty (_ ∷ _) w = Option.map go_wait (first_loop fuel env 0 w)
wake fuel env waiting _ w =
    if not w.signaled
    then some (waiting, w)
    else Option.map (λ w'. after_wake w'.queue w') (wake_loop fuel env 0 w)

unfoldable pub handler_turn : ℕ → (ℕ → Env) → Phase → World → Option (Phase × World)
unfolding wake
handler_turn fuel env phase w = wake fuel env phase w.queue w
