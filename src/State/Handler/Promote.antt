-- ===== src/State/Handler/Promote.antt =====
-- daemon/state.c: what becomes of the tasks that wait behind a task that is done.
use autofs.Prelude.{ℕ, List, [], ◌∷◌, ◌++◌, some, ◌≡◌, ◌≢◌, arith, get_elem?, erase_idx}
use autofs.State.{States, any, same, same-eq, Task, World}
use autofs.State.Queue.{st_alloc_task, waits, st_task_active}
use autofs.State.Invariant.{Absent, IsQueue}
use autofs.State.Handler.{promote}
use autofs.State.Handler.Places.{erase_idx-gone}

Absent-concat_active :
    (point : ℕ) (s next : States) (q : List Task)
    → s ≢ any
    → Absent point q
    → st_task_active point s (q ++ st_alloc_task point next ∷ []) ≡ same next s
unfolding st_task_active st_alloc_task waits
Absent-concat_active point s next [] n a = ground (arith, same-eq s any)
Absent-concat_active point s next (t ∷ q) n a = ground (arith, Absent-concat_active point s next q)

-- In a queue that keeps its invariant, of the tasks that wait behind a removed task the first alone
-- takes its place: no other state, `ST_ANY` aside, is then found for the point, whatever waited
-- behind the first.
pub promote_active :
    (seen : ℕ) (t : Task) (next s : States) (rest : List States) (w : World)
    → IsQueue w.queue
    → get_elem? w.queue seen ≡ some t
    → t.pending ≡ next ∷ rest
    → s ≢ any
    → st_task_active t.ap s (promote seen t.ap t.pending w).1.queue ≡ same next s
unfolding promote
promote_active seen t next s rest w inv at p n =
    rw (p, promote)
      (Absent-concat_active t.ap s next (erase_idx seen w.queue) n
        (erase_idx-gone seen w.queue t at inv))
