-- ===== src/State.antt =====
-- include/state.h and daemon/state.c: the data of the state machine of the automount points.
-- An `autofs_point` and a thread are named by numbers; 0 is no thread.
pub mod Queue
pub mod Run
pub mod Add
pub mod Handler
pub mod Invariant
pub mod Submount
pub mod Requests
pub mod Outcome
pub mod System
pub mod First
mod Examples
use autofs.Prelude.{ℕ, ◌+◌, Bool, true, false, List, Option, ◌≡◌, arith, ◌==◌, if◌then◌else◌}
use autofs.Alarm.{Alarms, conditional_alarm_add}

-- `enum states`
pub data States : Type 0 where
  any inval init ready expire prune readmap shutdown_pending shutdown_force shutdown : States

-- The value of the enumerator, plus 2.
unfoldable pub rank : States → ℕ
rank any = 0
rank inval = 1
rank init = 2
rank ready = 3
rank expire = 4
rank prune = 5
rank readmap = 6
rank shutdown_pending = 7
rank shutdown_force = 8
rank shutdown = 9

abbrev pub same : States → States → Bool
unfolding rank
same a b = rank a == rank b

pub same-eq : (a b : States) → same a b ≡ true → a ≡ b
unfolding rank
same-eq a b h = ground arith

abbrev pub is_shutting : States → Bool
is_shutting shutdown_pending = true
is_shutting shutdown_force = true
is_shutting _ = false

-- The fields of `struct autofs_point` that the state machine reads or writes. `indirect` is
-- `type == LKP_INDIRECT`, `mounted` is the answer of `mnts_has_mounted_mounts`, and `continued`
-- counts the SIGCONT that were sent to the thread of the point.
pub record Point : Type 0 where
  pub state : States
  pub shutdown : Bool
  pub submount : Bool
  pub indirect : Bool
  pub mounted : Bool
  pub exp_thread : ℕ
  pub readmap_thread : ℕ
  pub exp_runfreq : ℕ
  pub continued : ℕ

-- `struct state_queue` on the list `state_queue`. A task that waits on `pending` is the zeroed
-- struct of `st_alloc_task` for the same point, so its state is all that it holds.
pub record Task : Type 0 where
  pub thid : ℕ
  pub pending : List States
  pub ap : ℕ
  pub state : States
  pub busy : Bool
  pub done : Bool
  pub cancel : Bool

-- `AUTOFS_EXP_NORMAL`, `AUTOFS_EXP_IMMEDIATE`, and forced and immediate.
pub data How : Type 0 where
  normal immediate forced : How

-- The start routine of a thread, with the arguments that it is given.
pub data Routine : Type 0 where
  expire_proc_indirect : How → Routine
  expire_proc_direct : How → Routine
  do_readmap : ℕ → Routine

-- What the two locks of state.c and alarm.c guard. `threads` lists the threads started, newest first,
-- with their points, `killed` the threads that `pthread_cancel` was called for, and `asserts`
-- counts the failed assertions, which the code logs and passes over.
pub record World : Type 0 where
  pub points : ℕ → Point
  pub queue : List Task
  pub signaled : Bool
  pub alarms : Alarms
  pub threads : List (ℕ × ℕ × Routine)
  pub killed : List ℕ
  pub asserts : ℕ

-- What the system answers during one call: the clock, whether each `malloc` succeeds, the thread
-- of `pthread_create`, and the idle flag of `askumount`. `ignore_busy` is the build option
-- ENABLE_IGNORE_BUSY_MOUNTS.
pub record Env : Type 0 where
  pub now : ℕ
  pub alloc_args : Bool
  pub alloc_task : Bool
  pub alloc_alarm : Bool
  pub created : Option ℕ
  pub askumount : Option Bool
  pub ignore_busy : Bool

abbrev pub set_point : World → ℕ → Point → World
set_point w ap p = record w { points = λ q. if q == ap then p else w.points q }

abbrev pub assert : Bool → World → World
assert b w = record w { asserts = if b then w.asserts else w.asserts + 1 }

abbrev pub conditional_alarm : Env → ℕ → World → World
conditional_alarm env ap w =
    let p = w.points ap in
    record w {
      alarms =
          (conditional_alarm_add p.submount p.mounted ap p.exp_runfreq env.now env.alloc_alarm
            w.alarms).1;
    }
