-- ===== src/Alarm/Order.antt =====
-- lib/alarm.c: the order of the alarms, and the rounds of the handler.
use autofs.Prelude.{
  ℕ, ◌+◌, ◌≤◌, ◌<◌, Bool, true, false, List, [], ◌∷◌, ◌≡◌, refl, inl, inr, arith, All, ltb, leb,
  Bool-cases,
}
use autofs.Alarm.{
  Alarm, Alarms, insert, alarm_add, unlink, delete_from, handle as handle_list, alarm_delete,
  conditional_alarm_add, Action, wait, wait_until, post_expire, drop_canceled, alarm_handler,
}

-- No alarm of the list comes before `t`.
abbrev pub NotBefore : ℕ → List Alarm → Type 0
NotBefore t = All (λ a. t ≤ a.time)

abbrev pub IsSorted : List Alarm → Type 0
IsSorted [] = Unit
IsSorted (a ∷ as') = NotBefore a.time as' × IsSorted as'

NotBefore-trans : (t u : ℕ) (l : List Alarm) → t ≤ u → NotBefore u l → NotBefore t l
NotBefore-trans t u [] h n = tt
NotBefore-trans t u (a ∷ l) h n = (omega arith, NotBefore-trans t u l h n.1)

insert-NotBefore :
    (t : ℕ) (new : Alarm) (l : List Alarm)
    → t ≤ new.time
    → NotBefore t l
    → NotBefore t (insert new l)
unfolding insert
insert-NotBefore t new [] h n = (h, tt)
insert-NotBefore t new (a ∷ l) h n = ground (arith, insert-NotBefore t new l)

pub insert-IsSorted : (new : Alarm) (l : List Alarm) → IsSorted l → IsSorted (insert new l)
unfolding insert
insert-IsSorted new [] h = (tt, tt)
insert-IsSorted new (a ∷ l) h = elim (Bool-cases (leb new.time a.time)) [
  | inl le ↦ ground (arith, NotBefore-trans new.time a.time l)
  | inr gt ↦ ground (arith, insert-NotBefore a.time new l, insert-IsSorted new l)
]

unlink-NotBefore : (point t : ℕ) (l : List Alarm) → NotBefore t l → NotBefore t (unlink point l)
unfolding unlink
unlink-NotBefore point t [] n = tt
unlink-NotBefore point t (a ∷ l) n = ground (arith, unlink-NotBefore point t l)

pub unlink-IsSorted : (point : ℕ) (l : List Alarm) → IsSorted l → IsSorted (unlink point l)
unfolding unlink
unlink-IsSorted point [] h = tt
unlink-IsSorted point (a ∷ l) h =
    ground (arith, unlink-IsSorted point l, unlink-NotBefore point a.time l)

alarm_add-IsSorted :
    (point seconds now : ℕ) (alloc : Bool) (s : Alarms)
    → IsSorted s.alarms
    → IsSorted (alarm_add point seconds now alloc s).1.alarms
unfolding alarm_add
alarm_add-IsSorted point seconds now alloc s h =
    ground (
      arith,
      insert-IsSorted (record { time = now + seconds; cancel = false; ap = point }) s.alarms,
    )

NotBefore-zero : (l : List Alarm) → NotBefore 0 l
NotBefore-zero [] = tt
NotBefore-zero (a ∷ l) = (omega arith, NotBefore-zero l)

delete_from-IsSorted :
    (point : ℕ) (l : List Alarm) (s : Alarms)
    → IsSorted s.alarms
    → IsSorted l
    → IsSorted (delete_from point l s).alarms
unfolding delete_from
delete_from-IsSorted point [] s h k = h
delete_from-IsSorted point (a ∷ l) s h k = ground (
  arith,
  unlink-IsSorted point l,
  unlink-NotBefore point a.time l,
  NotBefore-zero (unlink point l),
)

-- What the other threads do to the list.
pub data Change : Alarms → Alarms → Type 0 where
  add :
      (point seconds now : ℕ) (alloc : Bool) (s : Alarms)
      → Change s (alarm_add point seconds now alloc s).1
  add_if :
      (submount mounted : Bool) (point seconds now : ℕ) (alloc : Bool) (s : Alarms)
      → Change s (conditional_alarm_add submount mounted point seconds now alloc s).1
  delete : (point : ℕ) (s : Alarms) → Change s (alarm_delete point s)

pub data Step : Alarms → Alarms → Type 0 where
  change : {s t : Alarms} → Change s t → Step s t
  handle : (now : ℕ) (s : Alarms) → Step s (alarm_handler now s).1

pub data Reach : Alarms → Type 0 where
  start : (s : Alarms) → s.alarms ≡ [] → Reach s
  next : {s t : Alarms} → Reach s → Step s t → Reach t

conditional_alarm_add-IsSorted :
    (submount mounted : Bool) (point seconds now : ℕ) (alloc : Bool) (s : Alarms)
    → IsSorted s.alarms
    → IsSorted (conditional_alarm_add submount mounted point seconds now alloc s).1.alarms
unfolding conditional_alarm_add
conditional_alarm_add-IsSorted submount mounted point seconds now alloc s h =
    ground (
      arith,
      insert-IsSorted (record { time = now + seconds; cancel = false; ap = point }) s.alarms,
    )

alarm_handler-IsSorted :
    (now : ℕ) (s : Alarms) → IsSorted s.alarms → IsSorted (alarm_handler now s).1.alarms
unfolding alarm_handler
alarm_handler-IsSorted now s h = ground arith

Step-IsSorted : {s t : Alarms} → Step s t → IsSorted s.alarms → IsSorted t.alarms
Step-IsSorted (change (add p d n a s)) h = alarm_add-IsSorted p d n a s h
Step-IsSorted (change (add_if b m p d n a s)) h = conditional_alarm_add-IsSorted b m p d n a s h
Step-IsSorted (change (delete p s)) h = unfold alarm_delete in delete_from-IsSorted p s.alarms s h h
Step-IsSorted (handle n s) h = alarm_handler-IsSorted n s h

-- From an empty list, whatever is added, deleted or run, the alarms stay in the order of time.
pub Reach-IsSorted : {s : Alarms} → Reach s → IsSorted s.alarms
Reach-IsSorted (start s e) = rw e tt
Reach-IsSorted (next r st) = Step-IsSorted st (Reach-IsSorted r)

-- What a round of the handler may have done, given the time and the list before it.
abbrev pub Handled : ℕ → Alarms → Action → Alarms → Type 0
Handled now s wait t = (s.alarms ≡ []) × (t ≡ s)
Handled now s (wait_until u) t = (t ≡ s) × (now < u) × NotBefore u s.alarms
Handled now s (post_expire p) t =
    (a : Alarm) × (s.alarms ≡ a ∷ t.alarms)
    × (a.ap ≡ p)
    × (a.cancel ≡ false)
    × (a.time ≤ now)
    × NotBefore a.time t.alarms
Handled now s drop_canceled t =
    (a : Alarm) × (s.alarms ≡ a ∷ t.alarms) × (a.cancel ≡ true) × (a.time ≤ now)

handle_list-Handled :
    (now : ℕ) (l : List Alarm) (s : Alarms)
    → s.alarms ≡ l
    → IsSorted l
    → Handled now s (handle_list now l s).0 (handle_list now l s).1
unfolding handle_list
handle_list-Handled now [] s e h = (e, refl)
handle_list-Handled now (a ∷ l) s e h = elim (Bool-cases (ltb now a.time)) [
  | inl later ↦ rw later (refl, ground arith, rw e (omega arith, h.0))
  | inr due ↦ elim (Bool-cases a.cancel) [
    | inl c ↦ rw (due, c) (a, e, c, ground arith)
    | inr c ↦ rw (due, c) (a, e, refl, c, ground arith, h.0)
  ]
]

-- A round waits without limit only if there is no alarm, waits until a time only if no alarm is due
-- and none comes before that time, and else takes off an alarm that is due and that none precedes.
pub alarm_handler-Handled :
    (now : ℕ) (s : Alarms) → Reach s → Handled now s (alarm_handler now s).0 (alarm_handler now s).1
unfolding alarm_handler
alarm_handler-Handled now s r = handle_list-Handled now s.alarms s refl (Reach-IsSorted r)
