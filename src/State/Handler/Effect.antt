-- ===== src/State/Handler/Effect.antt =====
-- daemon/state.c: what running a task does to the queue.
use autofs.Prelude.{
  ℕ, zero, suc, ◌+◌, Bool, true, false, List, [], ◌∷◌, Option, none, some, ◌≡◌, refl, arith, ap,
  ◌∙◌, ◌==◌, length, modify, inl, inr, Bool-cases, Option-cases, if◌then◌else◌,
}
use autofs.State.{
  States, expire, prune, readmap, shutdown_pending, shutdown_force, same, Task, World, Env, How,
}
use autofs.State.Queue.{st_set_thid}
use autofs.State.Handler.{start_task, set_busy}
use autofs.State.Run.{
  st_ready, Expire, exp_error, exp_started, expire_proc, after_expire, start_expire, st_prune,
  st_expire, st_readmap, st_prepare_shutdown, st_force_shutdown, run_state, run_state_task,
}

abbrev pub is_some : Option ℕ → Bool
is_some none = false
is_some (some _) = true

-- The thread that a call starts, if it starts one.
abbrev pub launched : Env → Option ℕ
launched env = if env.alloc_args then env.created else none

abbrev launched_for : States → Env → Option ℕ
launched_for prune env = launched env
launched_for expire env = launched env
launched_for readmap env = launched env
launched_for shutdown_pending env = launched env
launched_for shutdown_force env = launched env
launched_for _ env = none

abbrev pub thread_of : Env → Task → World → Option ℕ
thread_of env task w =
    if same task.state (w.points task.ap).state then none else launched_for task.state env

pub thread_of-created :
    (env : Env) (task : Task) (w : World) (thread : ℕ)
    → thread_of env task w ≡ some thread
    → env.created ≡ some thread
thread_of-created env task w thread h = created task.state (ground (arith, h))
  where
    created : (s : States) → launched_for s env ≡ some thread → env.created ≡ some thread
    created prune e = ground arith
    created _ e = ground arith

-- A thread that was started is entered at its point's task.
abbrev pub enter : Option ℕ → ℕ → List Task → List Task
enter none ap q = q
enter (some thid) ap q = st_set_thid ap thid q

expire_proc_effect :
    (env : Env) (ap : ℕ) (how : How) (w : World)
    → ((expire_proc env ap how w).0 ≡ (if is_some (launched env) then exp_started else exp_error))
      × ((expire_proc env ap how w).1.queue ≡ enter (launched env) ap w.queue)
unfolding expire_proc
expire_proc_effect env ap how w = elim (Bool-cases env.alloc_args) [
  | inl a ↦ elim (Option-cases env.created) [
    | inl c ↦ rw (a, c) (refl, refl)
    | inr (thid, c) ↦ rw (a, c) (refl, refl)
  ]
  | inr a ↦ rw a (refl, refl)
]

after_expire_effect :
    (env : Env) (ap : ℕ) (e : Expire) (w : World)
    → ((after_expire env ap e w).0 ≡ (elim e [ exp_started ↦ true | _ ↦ false ]))
      × ((after_expire env ap e w).1.queue ≡ w.queue)
unfolding after_expire st_ready
after_expire_effect env ap exp_started w = (refl, refl)
after_expire_effect env ap _ w = (refl, refl)

-- A world with the same queue, and the outcome of a started thread.
abbrev Starts : Env → ℕ → World → Bool × World → Type 0
Starts env ap w r = (r.0 ≡ is_some (launched env)) × (r.1.queue ≡ enter (launched env) ap w.queue)

start_expire_effect :
    (env : Env) (ap : ℕ) (how : How) (w : World) → Starts env ap w (start_expire env ap how w)
unfolding start_expire
start_expire_effect env ap how w = ground (
  arith,
  expire_proc_effect env ap how w,
  after_expire_effect env ap (expire_proc env ap how w).0 (expire_proc env ap how w).1,
)

st_readmap_effect : (env : Env) (ap : ℕ) (w : World) → Starts env ap w (st_readmap env ap w)
unfolding st_readmap st_ready
st_readmap_effect env ap w = elim (Bool-cases env.alloc_args) [
  | inl a ↦ elim (Option-cases env.created) [
    | inl c ↦ rw (a, c) (refl, refl)
    | inr (thid, c) ↦ rw (a, c) (refl, refl)
  ]
  | inr a ↦ rw a (refl, refl)
]

run_state_effect :
    (s : States) (env : Env) (ap : ℕ) (w : World)
    → ((run_state s env ap w).0 ≡ is_some (launched_for s env))
      × ((run_state s env ap w).1.queue ≡ enter (launched_for s env) ap w.queue)
unfolding run_state st_prune st_expire st_prepare_shutdown st_force_shutdown
run_state_effect prune env ap w = start_expire_effect env ap _ _
run_state_effect expire env ap w = start_expire_effect env ap _ _
run_state_effect readmap env ap w = st_readmap_effect env ap w
run_state_effect shutdown_pending env ap w = start_expire_effect env ap _ _
run_state_effect shutdown_force env ap w = start_expire_effect env ap _ _
run_state_effect _ env ap w = (refl, refl)

-- Running a task reports whether it started a thread, and changes the queue only by entering it.
pub run_state_task_effect :
    (env : Env) (task : Task) (w : World)
    → ((run_state_task env task w).0 ≡ is_some (thread_of env task w))
      × ((run_state_task env task w).1.queue ≡ enter (thread_of env task w) task.ap w.queue)
unfolding run_state_task
run_state_task_effect env task w = elim (Bool-cases (same task.state (w.points task.ap).state)) [
  | inl e ↦ rw e (refl, refl)
  | inr e ↦ rw e (run_state_effect task.state env task.ap w)
]

-- The number of tasks behind which others wait.
abbrev pub waiting_tasks : List Task → ℕ
waiting_tasks [] = 0
waiting_tasks (task ∷ q) = (elim task.pending [ [] ↦ 0 | _ ∷ _ ↦ 1 ]) + waiting_tasks q

abbrev pub pending_at : List Task → ℕ → Option (List States)
pending_at [] i = none
pending_at (task ∷ q) zero = some task.pending
pending_at (task ∷ q) (suc i) = pending_at q i

-- What a change of the flags of one task, or the entry of a thread, leaves as it was.
pub record SameShape (q r : List Task) : Type 0 where
  pub lengths : length r ≡ length q
  pub waiting : waiting_tasks r ≡ waiting_tasks q
  pub pending_at : (i : ℕ) → pending_at r i ≡ pending_at q i

pub SameShape-refl : (q : List Task) → SameShape q q
SameShape-refl q = record { lengths = refl; waiting = refl; pending_at = λ i. refl }

SameShape-trans : {q r s : List Task} → SameShape q r → SameShape r s → SameShape q s
SameShape-trans a b = record {
  lengths = b.lengths ∙ a.lengths;
  waiting = b.waiting ∙ a.waiting;
  pending_at = λ i. b.pending_at i ∙ a.pending_at i;
}

SameShape-cons :
    (task task' : Task) (q r : List Task)
    → task'.pending ≡ task.pending
    → SameShape q r
    → SameShape (task ∷ q) (task' ∷ r)
SameShape-cons task task' q r e h = record {
  lengths = omega (arith, h.lengths);
  waiting = rw (e, h.waiting) refl;
  pending_at = λ i. at i;
}
  where
    at : (i : ℕ) → pending_at (task' ∷ r) i ≡ pending_at (task ∷ q) i
    at zero = ap some e
    at (suc i) = h.pending_at i

pub modify-SameShape :
    (f : Task → Task) (i : ℕ) (q : List Task)
    → ((task : Task) → (f task).pending ≡ task.pending)
    → SameShape q (modify f i q)
modify-SameShape f i [] e = SameShape-refl []
modify-SameShape f zero (task ∷ q) e = SameShape-cons task (f task) q q (e task) (SameShape-refl q)
modify-SameShape f (suc i) (task ∷ q) e =
    SameShape-cons task task q (modify f i q) refl (modify-SameShape f i q e)

st_set_thid-SameShape : (ap thid : ℕ) (q : List Task) → SameShape q (st_set_thid ap thid q)
unfolding st_set_thid
st_set_thid-SameShape ap thid [] = SameShape-refl []
st_set_thid-SameShape ap thid (task ∷ q) = elim (Bool-cases (task.ap == ap)) [
  | inl e ↦ rw e (SameShape-cons task (record task { thid = thid }) q q refl (SameShape-refl q))
  | inr e ↦
      rw e
        (SameShape-cons task task q (st_set_thid ap thid q) refl (st_set_thid-SameShape ap thid q))
]

enter-SameShape : (o : Option ℕ) (ap : ℕ) (q : List Task) → SameShape q (enter o ap q)
enter-SameShape none ap q = SameShape-refl q
enter-SameShape (some thid) ap q = st_set_thid-SameShape ap thid q

-- Starting a task changes flags and thread names only.
pub start_task-SameShape :
    (seen : ℕ) (env : Env) (task : Task) (w : World)
    → SameShape w.queue (start_task seen env task w).1.queue
unfolding start_task
start_task-SameShape seen env task w =
    rw ((run_state_task_effect env task (record w { queue = modify set_busy seen w.queue })).1) (
      SameShape-trans (modify-SameShape set_busy seen w.queue (λ t. refl))
        (enter-SameShape _ task.ap _))
