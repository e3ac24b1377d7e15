-- ===== src/State/Submount.antt =====
-- daemon/state.c: the end of a prune that emptied a submount.
use autofs.Prelude.{ℕ, true, some, ◌≡◌, ◌≢◌, refl, ◌∙◌}
use autofs.State.{States, prune, shutdown_pending, rank, Point, Task, World, Env}
use autofs.State.Run.{run_state_task}
use autofs.State.Add.{expire_cleanup}
use autofs.State.Outcome.{is_expected, run_state_task-Runs, expire_cleanup_outcome}

kept_prune :
    (env : Env) (self ap : ℕ) (w : World)
    → (w.points ap).state ≡ prune
    → (w.points ap).submount ≡ true
    → self ≡ (w.points ap).exp_thread
    → env.askumount ≡ some true
    → ((expire_cleanup env self ap 0 w).points ap).state ≡ prune
unfolding rank
kept_prune env self ap w p s own idle =
    (expire_cleanup_outcome env self ap 0 w own (rw p refl)).1 ∙ simp (p, s, idle)

not_expected :
    (s : States) (p : Point) → s ≡ shutdown_pending → p.state ≡ prune → ¬ (is_expected s p ≡ true)
unfolding rank
not_expected s p e h = rw (e, h) (λ k. cc)

-- When the thread of a prune has emptied a submount that is idle, its end leaves the point in the
-- state `ST_PRUNE`, and running a task `ST_SHUTDOWN_PENDING` for it then fails an assertion.
pub pruned_submount_asserts :
    (env env' : Env) (self ap : ℕ) (task : Task) (w : World)
    → (w.points ap).state ≡ prune
    → (w.points ap).submount ≡ true
    → self ≡ (w.points ap).exp_thread
    → env.askumount ≡ some true
    → task.ap ≡ ap
    → task.state ≡ shutdown_pending
    → let w' = expire_cleanup env self ap 0 w in
      ((w'.points ap).state ≡ prune) × ((run_state_task env' task w').1.asserts ≢ w'.asserts)
pruned_submount_asserts env env' self ap task w p s own idle here pending =
    let w' = expire_cleanup env self ap 0 w in
    let kept : (w'.points ap).state ≡ prune = kept_prune env self ap w p s own idle in
    let runs =
      run_state_task-Runs env' task w' (rw pending refl) (rw (pending, here, kept) (λ e. cc)) in
    (
      kept,
      λ e. not_expected task.state (w'.points task.ap) pending (rw (here, kept) refl) (runs.2.0 e),
    )
