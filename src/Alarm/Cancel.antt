-- ===== src/Alarm/Cancel.antt =====
-- lib/alarm.c: what a deletion and a conditional addition do to the alarms of each point.
use autofs.Prelude.{
  ℕ, ◌+◌, ◌≤◌, Bool, false, not, ◌&&◌, List, [], ◌∷◌, Option, none, some, ◌≡◌, refl, arith, ltb,
  ◌==◌, if◌then◌else◌,
}
use autofs.Alarm.Order.{Change, add, add_if, delete}
use autofs.Alarm.{
  Alarm, Alarms, insert, alarm_add, unlink, delete_from, alarm_delete, conditional_alarm_add,
  alarm_exists,
}

-- The time for which the handler must wait.
abbrev pub deadline : List Alarm → Option ℕ
deadline [] = none
deadline (a ∷ l) = some a.time

insert-deadline :
    (new : Alarm) (a : Alarm) (l : List Alarm)
    → ltb new.time a.time ≡ false
    → deadline (insert new (a ∷ l)) ≡ some a.time
unfolding insert
insert-deadline new a l h = ground arith

add_wakes :
    (point seconds now : ℕ) (alloc : Bool) (s : Alarms)
    → (alarm_add point seconds now alloc s).1.signals ≡ s.signals
    → deadline (alarm_add point seconds now alloc s).1.alarms ≡ deadline s.alarms
unfolding alarm_add
add_wakes point seconds now alloc s h = ground arith

delete_wakes :
    (point : ℕ) (l : List Alarm) (s : Alarms)
    → s.alarms ≡ l
    → (delete_from point l s).signals ≡ s.signals
    → deadline (delete_from point l s).alarms ≡ deadline s.alarms
unfolding delete_from
delete_wakes point [] s e h = refl
delete_wakes point (a ∷ l) s e h = rw e (ground arith)

-- An alarm that will still run.
abbrev pub is_live : ℕ → Alarm → Bool
is_live point a = point == a.ap && not a.cancel

abbrev pub live : ℕ → List Alarm → List Alarm
live point [] = []
live point (a ∷ l) = if is_live point a then a ∷ live point l else live point l

abbrev pub all_of : ℕ → List Alarm → ℕ
all_of point [] = 0
all_of point (a ∷ l) = (if point == a.ap then 1 else 0) + all_of point l

unlink-live :
    (point q : ℕ) (l : List Alarm) → live q (unlink point l) ≡ (if point == q then [] else live q l)
unfolding unlink
unlink-live point q [] = ground arith
unlink-live point q (a ∷ l) = ground (arith, unlink-live point q l)

add_if_wakes :
    (submount mounted : Bool) (point seconds now : ℕ) (alloc : Bool) (s : Alarms)
    → (conditional_alarm_add submount mounted point seconds now alloc s).1.signals ≡ s.signals
    → deadline (conditional_alarm_add submount mounted point seconds now alloc s).1.alarms
      ≡ deadline s.alarms
unfolding conditional_alarm_add
add_if_wakes submount mounted point seconds now alloc s h = ground arith

-- No wake-up is lost: an addition or deletion that does not signal the handler leaves the time for
-- which the handler waits as it was.
pub Change-deadline :
    {s t : Alarms} → Change s t → t.signals ≡ s.signals → deadline t.alarms ≡ deadline s.alarms
Change-deadline (add p d n a s) h = add_wakes p d n a s h
Change-deadline (add_if b m p d n a s) h = add_if_wakes b m p d n a s h
Change-deadline (delete p s) h =
    unfold alarm_delete in delete_wakes p s.alarms s refl (unfold alarm_delete in h)

delete_from-live :
    (point q : ℕ) (l : List Alarm) (s : Alarms)
    → s.alarms ≡ l
    → live q (delete_from point l s).alarms ≡ (if point == q then [] else live q l)
unfolding delete_from
delete_from-live point q [] s e = ground arith
delete_from-live point q (a ∷ l) s e = ground (arith, unlink-live point q l)

unlink-all_of : (point : ℕ) (l : List Alarm) → all_of point (unlink point l) ≡ 0
unfolding unlink
unlink-all_of point [] = refl
unlink-all_of point (a ∷ l) = ground (arith, unlink-all_of point l)

delete_from-all_of :
    (point : ℕ) (l : List Alarm) (s : Alarms)
    → s.alarms ≡ l
    → all_of point (delete_from point l s).alarms ≤ 1
unfolding delete_from
delete_from-all_of point [] s e = ground arith
delete_from-all_of point (a ∷ l) s e = ground (arith, unlink-all_of point l)

-- After a deletion the point has no alarm that will run, and at most one that is still listed, and
-- the alarms that will run for any other point are those of before, in their order.
pub alarm_delete-live :
    (point q : ℕ) (s : Alarms)
    → (live q (alarm_delete point s).alarms ≡ (if point == q then [] else live q s.alarms))
      × (all_of point (alarm_delete point s).alarms ≤ 1)
unfolding alarm_delete
alarm_delete-live point q s =
    (delete_from-live point q s.alarms s refl, delete_from-all_of point s.alarms s refl)

insert-all_of :
    (new : Alarm) (q : ℕ) (l : List Alarm)
    → all_of q (insert new l) ≡ (if q == new.ap then 1 else 0) + all_of q l
unfolding insert
insert-all_of new q [] = refl
insert-all_of new q (a ∷ l) = ground (arith, insert-all_of new q l)

alarm_exists-all_of :
    (point : ℕ) (l : List Alarm) → alarm_exists point l ≡ false → all_of point l ≡ 0
unfolding alarm_exists
alarm_exists-all_of point [] h = refl
alarm_exists-all_of point (a ∷ l) h = ground (arith, alarm_exists-all_of point l)

-- A conditional addition takes no alarm from a point that has at most one, gives none to any other
-- point, and leaves its own point with at most one.
pub conditional_alarm_add-all_of :
    (submount mounted : Bool) (point q seconds now : ℕ) (alloc : Bool) (s : Alarms)
    → all_of q s.alarms ≤ 1
    → let t = (conditional_alarm_add submount mounted point seconds now alloc s).1 in
      (all_of q s.alarms ≤ all_of q t.alarms)
      × (all_of q t.alarms ≤ (if q == point then 1 else all_of q s.alarms))
unfolding conditional_alarm_add
conditional_alarm_add-all_of submount mounted point q seconds now alloc s h =
    let new : Alarm = record { time = now + seconds; cancel = false; ap = point } in
    ground (arith, insert-all_of new q s.alarms, alarm_exists-all_of point s.alarms)

-- A first alarm that was deleted still counts as the point's alarm until the handler drops it: a
-- conditional addition before that adds nothing, and nothing will run for the point.
pub conditional_alarm_add_after_delete :
    (submount mounted : Bool) (point seconds now : ℕ) (alloc : Bool) (s : Alarms) (a : Alarm)
    (l : List Alarm)
    → s.alarms ≡ a ∷ l
    → a.ap ≡ point
    → let t =
        (conditional_alarm_add submount mounted point seconds now alloc (alarm_delete point s)).1 in
      (t ≡ alarm_delete point s) × (live point t.alarms ≡ [])
unfolding conditional_alarm_add alarm_delete
conditional_alarm_add_after_delete submount mounted point seconds now alloc s a l e p =
    rw e (ground (arith, unlink-live point point l))
