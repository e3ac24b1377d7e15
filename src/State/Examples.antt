-- ===== src/State/Examples.antt =====
-- daemon/state.c: the theorems at a concrete state of the machine.
use autofs.Prelude.{ℕ, Bool, true, false, List, [], ◌∷◌, some, ◌≡◌, ◌≢◌, ◌==◌, not, refl, arith}
use autofs.State.{
  States, ready, expire, prune, readmap, shutdown_pending, rank, Point, Task, World, Env,
}
use autofs.State.Queue.{is_pending, st_task_active}
use autofs.State.Run.{run_state_task}
use autofs.State.Add.{st_add_task, st_wait_task, expire_cleanup}
use autofs.State.Requests.{requested, st_add_task_active, st_wait_task-gone}
use autofs.State.Invariant.{IsTask, IsQueue}
use autofs.State.Outcome.{Runs, run_state_task-Runs, expire_cleanup_outcome}
use autofs.State.Submount.{pruned_submount_asserts}
use autofs.State.Handler.{Phase, empty, waiting, handler_turn}
use autofs.State.Handler.Ends.{handler_turn_ends}
use autofs.State.System.{add, expire_ends, start, next, Reach-IsQueue}

abbrev point : States → Point
point s = record {
  state = s;
  shutdown = false;
  submount = true;
  indirect = true;
  mounted = true;
  exp_thread = if_expiring s;
  readmap_thread = 0;
  exp_runfreq = 75;
  continued = 0;
}
  where
    if_expiring : States → ℕ
    if_expiring ready = 0
    if_expiring _ = 7

abbrev world : States → List Task → World
world s q = record {
  points = λ _. point s;
  queue = q;
  signaled = true;
  alarms = record { alarms = []; signals = 0 };
  threads = [];
  killed = [];
  asserts = 0;
}

abbrev env : Env
env = record {
  now = 1000;
  alloc_args = true;
  alloc_task = true;
  alloc_alarm = true;
  created = some 9;
  askumount = some true;
  ignore_busy = false;
}

abbrev task : States → Task
task s = record {
  thid = 0;
  pending = [];
  ap = 1;
  state = s;
  busy = false;
  done = false;
  cancel = false;
}

abbrev running : Task
running = record {
  thid = 7;
  pending = readmap ∷ shutdown_pending ∷ [];
  ap = 1;
  state = expire;
  busy = true;
  done = true;
  cancel = false;
}

running-IsTask : IsTask running
running-IsTask = record {
  queued = refl;
  pending_queued = (refl, (refl, tt));
  pending_distinct = (unfold rank is_pending in refl, (unfold is_pending in refl, tt));
  cancel_busy = λ e. cc;
  busy_thread = λ e k. absurd (omega arith);
}

handler_turn_ends_example :
    (r : Phase × World) × (handler_turn 9
        (λ _. env)
        waiting
        (world ready (task expire ∷ running ∷ []))
      ≡ some r)
handler_turn_ends_example =
    handler_turn_ends 9 (λ _. env) waiting (world ready (task expire ∷ running ∷ [])) (omega arith)

Reach-IsQueue_example :
    IsQueue
      (expire_cleanup env 7 1 0
        (st_add_task env 1 prune (st_add_task env 2 expire (world ready [])).1).1).queue
Reach-IsQueue_example = Reach-IsQueue (
    next
      (next (next (start (world ready []) refl) (add env 2 expire empty (world ready [])))
        (add env 1 prune empty (st_add_task env 2 expire (world ready [])).1))
      (expire_ends env 7 1 0 empty
        (st_add_task env 1 prune (st_add_task env 2 expire (world ready [])).1).1))

run_state_task-Runs_example :
    Runs env 1 expire (world ready []) (run_state_task env (task expire) (world ready []))
run_state_task-Runs_example = run_state_task-Runs env (task expire) (world ready []) refl (λ e. cc)

expire_cleanup_outcome_example :
    (((expire_cleanup env 7 1 0 (world expire (running ∷ []))).points 1).exp_thread ≡ 0)
    × (((expire_cleanup env 7 1 0 (world expire (running ∷ []))).points 1).state ≡ expire)
unfolding rank
expire_cleanup_outcome_example =
    expire_cleanup_outcome env 7 1 0 (world expire (running ∷ [])) refl refl

st_add_task_active_example :
    let w' = (st_add_task env 1 prune (world ready (running ∷ []))).1 in
    (requested 1 prune w'.queue ≡ true)
    × (st_task_active 1 prune w'.queue ≡ true)
    × (w'.signaled ≡ true)
st_add_task_active_example =
    st_add_task_active env 1 prune (world ready (running ∷ [])) (λ e. cc) (λ e. cc) (λ e. cc) refl
      refl

-- Gone in round 7.
abbrev gone_at_7 : ℕ → Bool
gone_at_7 n = not (n == 7)

st_wait_task-gone_example : st_wait_task 10 gone_at_7 2 ≡ some true
st_wait_task-gone_example = st_wait_task-gone 10 2 gone_at_7 (omega arith) (omega arith)

pruned_submount_asserts_example :
    let w' = expire_cleanup env 7 1 0 (world prune []) in
    ((w'.points 1).state ≡ prune)
    × ((run_state_task env (task shutdown_pending) w').1.asserts ≢ w'.asserts)
pruned_submount_asserts_example =
    pruned_submount_asserts env env 7 1 (task shutdown_pending) (world prune []) refl refl refl refl
      refl refl
