-- ===== src/Alarm/Examples.antt =====
-- lib/alarm.c: the theorems at concrete alarms.
use autofs.Prelude.{subst, true, false, [], ◌∷◌, ◌≡◌, ◌≤◌, refl}
use autofs.Alarm.{Alarm, Alarms, alarm_add, alarm_delete, alarm_handler}
use autofs.Alarm.Order.{
  add, change, start, next, Reach, IsSorted, Reach-IsSorted, Handled, alarm_handler-Handled,
}
use autofs.Alarm.Cancel.{deadline, live, all_of, Change-deadline, alarm_delete-live}

abbrev no_alarms : Alarms
no_alarms = record { alarms = []; signals = 0 }

abbrev late : Alarm
late = record { time = 105; cancel = false; ap = 1 }

abbrev early : Alarm
early = record { time = 103; cancel = false; ap = 2 }

abbrev two : Alarms
two = record { alarms = early ∷ late ∷ []; signals = 2 }

two_Reach : Reach (alarm_add 2 3 100 true (alarm_add 1 5 100 true no_alarms).1).1
two_Reach =
    next (next (start no_alarms refl) (change (add 1 5 100 true no_alarms)))
      (change (add 2 3 100 true (alarm_add 1 5 100 true no_alarms).1))

two_lem : (alarm_add 2 3 100 true (alarm_add 1 5 100 true no_alarms).1).1 ≡ two
unfolding alarm_add
two_lem = refl

two-Reach : Reach two
two-Reach = subst Reach two_lem two_Reach

Reach-IsSorted_example : IsSorted two.alarms
Reach-IsSorted_example = Reach-IsSorted two-Reach

alarm_handler-Handled_example : Handled 104 two (alarm_handler 104 two).0 (alarm_handler 104 two).1
alarm_handler-Handled_example = alarm_handler-Handled 104 two two-Reach

Change-deadline_example : deadline (alarm_add 3 9 100 true two).1.alarms ≡ deadline two.alarms
unfolding alarm_add
Change-deadline_example = Change-deadline (add 3 9 100 true two) refl

alarm_delete-live_example :
    (live 1 (alarm_delete 2 two).alarms ≡ live 1 two.alarms)
    × (all_of 2 (alarm_delete 2 two).alarms ≤ 1)
alarm_delete-live_example = alarm_delete-live 2 1 two
