-- ===== src/Alarm.antt =====
-- lib/alarm.c: the ordered list of pending alarms. An `autofs_point` is named by its address.
-- `alarms` is the list between `head->next` and `head`; `signals` counts `pthread_cond_signal`.
pub mod Order
pub mod Cancel
mod Examples
use autofs.Prelude.{
  ℕ, ◌+◌, Bool, true, false, not, ◌||◌, List, [], ◌∷◌, ltb, leb, ◌==◌, if◌then◌else◌,
}

pub record Alarm : Type 0 where
  pub time : ℕ
  pub cancel : Bool
  pub ap : ℕ

pub record Alarms : Type 0 where
  pub alarms : List Alarm
  pub signals : ℕ

-- The `list_for_each` of `__alarm_add`, with the two `list_add_tail` calls.
unfoldable pub insert : Alarm → List Alarm → List Alarm
insert new [] = new ∷ []
insert new (this ∷ rest) =
    if leb new.time this.time then new ∷ this ∷ rest else this ∷ insert new rest

-- `empty || new->time < next_alarm`
pub must_signal : ℕ → List Alarm → Bool
must_signal time [] = true
must_signal time (current ∷ rest) = ltb time current.time

abbrev signal_if : Bool → Alarms → Alarms
signal_if b s = record s { signals = if b then s.signals + 1 else s.signals }

-- `__alarm_add`, and `alarm_add`, which wraps it in the lock. `alloc` is the outcome of `malloc`.
unfoldable pub alarm_add : (point seconds now : ℕ) (alloc : Bool) → Alarms → Bool × Alarms
unfolding insert must_signal
alarm_add point seconds now alloc s =
    if seconds == 0
    then (true, s)
    else if not alloc
    then (false, s)
    else let new : Alarm = record { time = now + seconds; cancel = false; ap = point } in
      (
        true,
        signal_if (must_signal (now + seconds) s.alarms)
            (record s { alarms = insert new s.alarms }),
      )

-- `__alarm_exists`
unfoldable pub alarm_exists : ℕ → List Alarm → Bool
alarm_exists point [] = false
alarm_exists point (this ∷ rest) = point == this.ap || alarm_exists point rest

-- `alarm_delete` past the first alarm: those of the point are unlinked and freed.
unfoldable pub unlink : ℕ → List Alarm → List Alarm
unlink point [] = []
unlink point (this ∷ rest) =
    if point == this.ap then unlink point rest else this ∷ unlink point rest

-- The first alarm is what the handler waits on: it is only marked.
delete_from : ℕ → List Alarm → Alarms → Alarms
unfolding unlink
delete_from point [] s = s
delete_from point (current ∷ rest) s =
    if point == current.ap
    then signal_if true
        (record s { alarms = record current { cancel = true; time = 0 } ∷ unlink point rest })
    else record s { alarms = current ∷ unlink point rest }

unfoldable pub alarm_delete : ℕ → Alarms → Alarms
unfolding delete_from
alarm_delete point s = delete_from point s.alarms s

-- `conditional_alarm_add`. `submount` is the field of the point, and `mounted` is the answer of
-- `mnts_has_mounted_mounts`.
unfoldable pub conditional_alarm_add :
    (submount mounted : Bool) (point seconds now : ℕ) (alloc : Bool) → Alarms → Bool × Alarms
unfolding alarm_exists alarm_add
conditional_alarm_add submount mounted point seconds now alloc s =
    if submount
    then (true, s)
    else if not mounted
    then (true, s)
    else if alarm_exists point s.alarms
    then (true, s)
    else alarm_add point seconds now alloc s

-- What one round of the loop of `alarm_handler` does: wait for a first alarm, wait until a time,
-- add the task `ST_EXPIRE` for a point, or drop a canceled alarm.
pub data Action : Type 0 where
  wait : Action
  wait_until : ℕ → Action
  post_expire : ℕ → Action
  drop_canceled : Action

handle : ℕ → List Alarm → Alarms → Action × Alarms
handle now [] s = (wait, s)
handle now (first ∷ rest) s =
    if ltb now first.time
    then (wait_until first.time, s)
    else if not first.cancel
    then (post_expire first.ap, record s { alarms = rest })
    else (drop_canceled, record s { alarms = rest })

unfoldable pub alarm_handler : ℕ → Alarms → Action × Alarms
unfolding handle
alarm_handler now s = handle now s.alarms s
