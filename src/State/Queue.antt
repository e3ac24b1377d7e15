-- ===== src/State/Queue.antt =====
-- daemon/state.c: the functions that work on the queue of tasks alone.
use autofs.Prelude.{
  ℕ, Bool, true, false, not, ◌&&◌, ◌||◌, List, [], ◌∷◌, ◌++◌, Option, none, some, ◌==◌,
  if◌then◌else◌,
}
use autofs.State.{States, any, expire, prune, readmap, same, is_shutting, Task}

-- `st_alloc_task`, where `malloc` succeeds.
unfoldable pub st_alloc_task : ℕ → States → Task
st_alloc_task point s = record {
  thid = 0;
  pending = [];
  ap = point;
  state = s;
  busy = false;
  done = false;
  cancel = false;
}

-- The second `list_for_each` of `__st_add_task`: does it end at `goto done`?
unfoldable pub is_pending : Bool → States → List States → Bool
is_pending shutting s [] = false
is_pending shutting s (p_task ∷ rest) = same p_task s || shutting || is_pending shutting s rest

-- What `__st_add_task` does at the task of the point; `shutting` is its test of the point's state.
unfoldable pub add_pending : (shutting alloc : Bool) → States → Task → Task
unfolding is_pending
add_pending shutting alloc s task =
    if (same task.state s && not task.done) || shutting
    then task
    else if is_pending shutting s task.pending
    then task
    else if alloc
    then record task { pending = task.pending ++ s ∷ [] }
    else task

-- The first `list_for_each`, up to `break`; `none` if the point has no task.
unfoldable pub find_add : (shutting alloc : Bool) → ℕ → States → List Task → Option (List Task)
unfolding add_pending
find_add shutting alloc point s [] = none
find_add shutting alloc point s (task ∷ rest) =
    if not (task.ap == point)
    then elim (find_add shutting alloc point s rest) [
      | none ↦ none
      | some rest' ↦ some (task ∷ rest')
    ]
    else some (add_pending shutting alloc s task ∷ rest)

-- The queue that `__st_add_task` leaves; a task for a point that has none goes to the front.
unfoldable pub enqueue : (shutting alloc : Bool) → ℕ → States → List Task → List Task
unfolding find_add st_alloc_task
enqueue shutting alloc point s queue = elim (find_add shutting alloc point s queue) [
  | none ↦ if alloc then st_alloc_task point s ∷ queue else queue
  | some queue' ↦ queue'
]

-- `task->cancel = 1` of `st_remove_tasks`.
abbrev pub can_cancel : States → Bool
can_cancel expire = true
can_cancel prune = true
can_cancel readmap = true
can_cancel _ = false

-- The inner loop of `st_remove_tasks`.
unfoldable pub keep_shutdown : List States → List States
keep_shutdown [] = []
keep_shutdown (waiting ∷ rest) =
    if is_shutting waiting then waiting ∷ keep_shutdown rest else keep_shutdown rest

unfoldable pub remove_task : ℕ → Task → Task
unfolding keep_shutdown
remove_task point task = if not (task.ap == point) then task else record task {
  cancel = (task.busy && can_cancel task.state) || task.cancel;
  pending = keep_shutdown task.pending;
}

unfoldable pub remove_tasks : ℕ → List Task → List Task
unfolding remove_task
remove_tasks point [] = []
remove_tasks point (task ∷ rest) = remove_task point task ∷ remove_tasks point rest

-- Does the inner loop of `st_task_active` find the state?
unfoldable pub waits : States → List States → Bool
waits s [] = false
waits s (waiting ∷ rest) = same waiting s || same s any || waits s rest

-- `st_task_active`
unfoldable pub st_task_active : ℕ → States → List Task → Bool
unfolding waits
st_task_active point s [] = false
st_task_active point s (task ∷ rest) =
    if not (task.ap == point)
    then st_task_active point s rest
    else same task.state s || same s any || waits s task.pending || st_task_active point s rest

-- `st_set_thid`
unfoldable pub st_set_thid : ℕ → ℕ → List Task → List Task
st_set_thid point thread [] = []
st_set_thid point thread (task ∷ rest) =
    if task.ap == point
    then record task { thid = thread } ∷ rest
    else task ∷ st_set_thid point thread rest

-- `st_set_done`
unfoldable pub st_set_done : ℕ → List Task → List Task
st_set_done point [] = []
st_set_done point (task ∷ rest) =
    if task.ap == point then record task { done = true } ∷ rest else task ∷ st_set_done point rest
