-- ===== src/State/Handler/Ends.antt =====
-- daemon/state.c: the rounds that the loops of `st_queue_handler` take.
use autofs.Prelude.{
  ℕ, zero, suc, ◌+◌, ◌-◌, ◌*◌, ◌<◌, ◌≤◌, not, List, [], ◌∷◌, ◌++◌, some, length, get_elem?,
  erase_idx, ◌≡◌, refl, ap, ◌∙◌, arith, inl, inr, Option-cases, if_both,
}
use autofs.State.{States, Task, World, Env}
use autofs.State.Queue.{st_alloc_task}
use autofs.State.Handler.Rules.{wake_visit_rule, first_visit_rule}
use autofs.State.Handler.{
  uncancel, start_task, first_visit, promote, wake_visit, first_loop, wake_loop, Phase, empty,
  waiting, go_wait, after_wake, wake, handler_turn,
}
use autofs.State.Handler.Effect.{
  waiting_tasks, pending_at, SameShape, SameShape-refl, modify-SameShape, start_task-SameShape,
}

-- A removed last task that has another waiting sends the loop back to the front, so the tasks
-- behind which others wait count for a whole pass each.
abbrev measure : ℕ → List Task → ℕ
measure seen q = waiting_tasks q * (length q + 1) + (length q - seen)

abbrev has : List States → ℕ
has [] = 0
has (_ ∷ _) = 1

erase_idx-length :
    (i : ℕ) (q : List Task) (p : List States)
    → pending_at q i ≡ some p
    → length q ≡ suc (length (erase_idx i q))
erase_idx-length i [] p h = cc
erase_idx-length zero (task ∷ q) p h = refl
erase_idx-length (suc i) (task ∷ q) p h = omega (arith, erase_idx-length i q p h)

erase_idx-waiting :
    (i : ℕ) (q : List Task) (p : List States)
    → pending_at q i ≡ some p
    → waiting_tasks q ≡ has p + waiting_tasks (erase_idx i q)
erase_idx-waiting i [] p h = cc
erase_idx-waiting zero (task ∷ q) p h = ground arith
erase_idx-waiting (suc i) (task ∷ q) p h = omega (arith, erase_idx-waiting i q p h)

pending_at-lt : (i : ℕ) (q : List Task) (p : List States) → pending_at q i ≡ some p → i < length q
pending_at-lt i [] p h = cc
pending_at-lt zero (task ∷ q) p h = omega arith
pending_at-lt (suc i) (task ∷ q) p h = omega (arith, pending_at-lt i q p h)

concat-waiting :
    (ap : ℕ) (s : States) (q : List Task)
    → waiting_tasks (q ++ st_alloc_task ap s ∷ []) ≡ waiting_tasks q
unfolding st_alloc_task
concat-waiting ap s [] = refl
concat-waiting ap s (task ∷ q) = omega (arith, concat-waiting ap s q)

concat-length : (task : Task) (q : List Task) → length (q ++ task ∷ []) ≡ suc (length q)
concat-length task [] = refl
concat-length task (t ∷ q) = omega (arith, concat-length task q)

measure_erase :
    (seen : ℕ) (q : List Task) (p : List States)
    → pending_at q seen ≡ some p
    → measure seen (erase_idx seen q) < measure seen q
measure_erase seen q p h =
    rw (erase_idx-waiting seen q p h, erase_idx-length seen q p h)
      (omega (arith, pending_at-lt seen q p h, erase_idx-length seen q p h))

measure_rotate :
    (seen seen' ap : ℕ) (s next : States) (rest : List States) (q : List Task)
    → pending_at q seen ≡ some (next ∷ rest)
    → measure seen' (erase_idx seen q ++ st_alloc_task ap s ∷ []) < measure seen q
measure_rotate seen seen' ap s next rest q h =
    rw
      (
        concat-waiting ap s (erase_idx seen q),
        concat-length (st_alloc_task ap s) (erase_idx seen q),
        erase_idx-waiting seen q (next ∷ rest) h,
        erase_idx-length seen q (next ∷ rest) h,
      )
      (omega (arith, pending_at-lt seen q (next ∷ rest) h, erase_idx-length seen q (next ∷ rest) h))

promote-measure :
    (seen ap : ℕ) (p : List States) (w : World)
    → pending_at w.queue seen ≡ some p
    → measure (promote seen ap p w).0 (promote seen ap p w).1.queue < measure seen w.queue
unfolding promote
promote-measure seen ap [] w h = measure_erase seen w.queue [] h
promote-measure seen ap (next ∷ rest) w h = measure_rotate seen _ ap next next rest w.queue h

SameShape-measure : {q r : List Task} (seen : ℕ) → SameShape q r → measure seen r ≡ measure seen q
SameShape-measure seen s = rw (s.lengths, s.waiting) refl

SameShape-advance :
    {q r : List Task} (seen : ℕ) (p : List States)
    → SameShape q r
    → pending_at q seen ≡ some p
    → measure (seen + 1) r < measure seen q
SameShape-advance {q} seen p s h =
    rw (s.lengths, s.waiting) (omega (arith, pending_at-lt seen q p h))

get_elem?-pending_at :
    (i : ℕ) (q : List Task) (task : Task)
    → get_elem? q i ≡ some task
    → pending_at q i ≡ some task.pending
get_elem?-pending_at i [] task h = cc
get_elem?-pending_at zero (t ∷ q) task h = ground arith
get_elem?-pending_at (suc i) (t ∷ q) task h = get_elem?-pending_at i q task h

abbrev Nearer : ℕ → List Task → ℕ × World → Type 0
Nearer seen q r = measure r.0 r.1.queue < measure seen q

-- Every visit of the second loop brings its end nearer.
wake_visit-Nearer :
    (seen : ℕ) (env : Env) (task : Task) (w : World)
    → get_elem? w.queue seen ≡ some task
    → Nearer seen w.queue (wake_visit seen env task w)
wake_visit-Nearer seen env task w h =
    let at = get_elem?-pending_at seen w.queue task h in
    let started = start_task-SameShape seen env task w in
    let next = (start_task seen env task w).1 in
    let stay = SameShape-advance seen task.pending (SameShape-refl w.queue) at in
    let gone = promote-measure seen task.ap task.pending w at in
    wake_visit_rule (Nearer seen w.queue) seen env task w (λ _. gone)
      (λ _ _. SameShape-advance seen task.pending started at)
      (λ _ _.
        rw (SameShape-measure seen started) at
          (promote-measure seen task.ap task.pending next (started.pending_at seen ∙ at)))
      (λ _ _. stay)
      (λ _.
        SameShape-advance seen task.pending (modify-SameShape uncancel seen w.queue (λ t. refl)) at)
      (λ _. stay) (λ _. gone)

first_visit-Nearer :
    (seen : ℕ) (env : Env) (task : Task) (w : World)
    → get_elem? w.queue seen ≡ some task
    → Nearer seen w.queue (first_visit seen env task w)
first_visit-Nearer seen env task w h =
    let at = get_elem?-pending_at seen w.queue task h in
    let started = start_task-SameShape seen env task w in
    let next = (start_task seen env task w).1 in
    first_visit_rule (Nearer seen w.queue) seen env task w
      (λ _. measure_erase seen w.queue task.pending at)
      (λ _ _. SameShape-advance seen task.pending started at)
      (λ _ _.
        rw (SameShape-measure seen started) at
          (measure_erase seen next.queue task.pending (started.pending_at seen ∙ at)))

wake_loop_ends :
    (fuel : ℕ) (env : ℕ → Env) (seen : ℕ) (w : World)
    → measure seen w.queue < fuel
    → (w' : World) × (wake_loop fuel env seen w ≡ some w')
unfolding wake_loop
wake_loop_ends zero env seen w h = absurd (omega arith)
wake_loop_ends (suc fuel) env seen w h = elim (Option-cases (get_elem? w.queue seen)) [
  | inl e ↦ (w, rw (e, wake_loop) refl)
  | inr (task, e) ↦
      let r = wake_visit seen (env fuel) task w in
      let nearer = wake_visit-Nearer seen (env fuel) task w e in
      rw (e, wake_loop) (wake_loop_ends fuel env r.0 r.1 (omega arith))
]

first_loop_ends :
    (fuel : ℕ) (env : ℕ → Env) (seen : ℕ) (w : World)
    → measure seen w.queue < fuel
    → (w' : World) × (first_loop fuel env seen w ≡ some w')
unfolding first_loop
first_loop_ends zero env seen w h = absurd (omega arith)
first_loop_ends (suc fuel) env seen w h = elim (Option-cases (get_elem? w.queue seen)) [
  | inl e ↦ (w, rw (e, first_loop) refl)
  | inr (task, e) ↦
      let r = first_visit seen (env fuel) task w in
      let nearer = first_visit-Nearer seen (env fuel) task w e in
      rw (e, first_loop) (first_loop_ends fuel env r.0 r.1 (omega arith))
]

waiting_tasks-le : (q : List Task) → waiting_tasks q ≤ length q
waiting_tasks-le [] = omega arith
waiting_tasks-le (task ∷ q) = ground (arith, waiting_tasks-le q)

measure-lt : (q : List Task) → measure 0 q < (length q + 1) * (length q + 1)
measure-lt q = grind (arith, waiting_tasks-le q)

woken :
    (fuel : ℕ) (env : ℕ → Env) (q : List Task) (w : World)
    → measure 0 w.queue < fuel
    → (r : Phase × World) × (wake fuel env waiting q w ≡ some r)
unfolding wake
woken fuel env q w h =
    let (w', e) = wake_loop_ends fuel env 0 w h in
    if_both (λ o. (r : Phase × World) × (o ≡ some r)) (not w.signaled) (λ _. ((waiting, w), refl))
      (λ _. (after_wake w'.queue w', rw e refl))

wake_ends :
    (fuel : ℕ) (env : ℕ → Env) (phase : Phase) (q : List Task) (w : World)
    → measure 0 w.queue < fuel
    → (r : Phase × World) × (wake fuel env phase q w ≡ some r)
unfolding wake
wake_ends fuel env empty [] w h = ((empty, w), refl)
wake_ends fuel env empty (_ ∷ _) w h =
    let (w', e) = first_loop_ends fuel env 0 w h in (go_wait w', rw e refl)
wake_ends fuel env waiting [] w h = woken fuel env [] w h
wake_ends fuel env waiting (t ∷ q) w h = woken fuel env (t ∷ q) w h

-- Whatever the system answers, a turn of the handler comes to its next wait: the rounds of its loops
-- are fewer than the square of one more than the number of tasks.
pub handler_turn_ends :
    (fuel : ℕ) (env : ℕ → Env) (phase : Phase) (w : World)
    → (length w.queue + 1) * (length w.queue + 1) ≤ fuel
    → (r : Phase × World) × (handler_turn fuel env phase w ≡ some r)
unfolding handler_turn
handler_turn_ends fuel env phase w h =
    wake_ends fuel env phase w.queue w (omega (arith, measure-lt w.queue))
