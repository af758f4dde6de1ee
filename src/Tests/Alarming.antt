-- ===== src/Tests/Alarming.antt =====
-- Two alarms of which one is due.
use odenctl.Prelude.{
  All, ◌⊎◌, ℕ, ◌+◌, ◌≡◌, ◌↔◌, refl, String, Bool, true, Option, none, some, List, [], ◌∷◌, arith,
  length, string_eq, ◌==◌, if◌then◌else◌,
}
use odenctl.Prelude.Counting.{Counts}
use odenctl.ControlPlane.Alarms.{
  Database, DurableObjectDueAlarm, DurableObjectAlarmDispatchReport, Handled, durable_object,
  alarm_of, dispatch_durable_object_alarms, DurableObjectStorage, set_alarm, run_exclusive,
  clear_handled_alarm, list_due_alarms,
}
use odenctl.ControlPlane.Alarms.Kept.{clear_handled_alarm-loses}
use odenctl.ControlPlane.Alarms.Due.{IsOverdue}
use odenctl.ControlPlane.Alarms.Dispatched.{
  dispatch_durable_object_alarms-Counts, dispatch_durable_object_alarms-kept, IsFailedAlarm,
  IsHandled, begun,
}

abbrev object_database : String → String → Option ℕ → Database
object_database id object alarm = record {
  id = id;
  kind = durable_object;
  namespace = some "rooms";
  object_id = some object;
  alarm_at_ms = alarm;
}

abbrev databases : List Database
databases = object_database "d1" "o1" (some 5) ∷ object_database "d2" "o2" (some 9) ∷ []

abbrev named : String → String → String
named namespace object = if object == "o1" then "d1" else "d2"

abbrev quiet : DurableObjectDueAlarm → List Database → Handled
quiet alarm ds = record { failure = none; databases = ds }

abbrev untouched : DurableObjectDueAlarm → List Database → List Database
untouched alarm ds = ds

abbrev by_time : String → String → Bool
by_time a b = true

abbrev dispatched : DurableObjectAlarmDispatchReport × List Database
dispatched =
    dispatch_durable_object_alarms named quiet untouched by_time "rooms" 7 none databases databases

-- the alarm at 5 is handled and cleared
dispatched-cleared : alarm_of "d1" dispatched.1 ≡ none
unfolding dispatch_durable_object_alarms alarm_of
dispatched-cleared = refl

dispatch_durable_object_alarms-Counts_example :
    (n : ℕ) × Counts (IsOverdue "rooms" 7) databases n
    × (dispatched.0.due ≡ n)
    × (dispatched.0.dispatched + dispatched.0.failed ≡ dispatched.0.due)
    × ((dispatched.0.ok ≡ true) ↔ (dispatched.0.dispatched ≡ dispatched.0.due))
    × (dispatched.0.failed ≡ length dispatched.0.errors)
    × All (IsFailedAlarm "rooms" 7 databases) dispatched.0.errors
dispatch_durable_object_alarms-Counts_example =
    dispatch_durable_object_alarms-Counts named quiet untouched by_time "rooms" 7 none databases
      databases

second-alarm : alarm_of "d2" databases ≡ some 9
unfolding alarm_of
second-alarm = refl

dispatch_durable_object_alarms-kept_example :
    (alarm_of "d2" dispatched.1 ≡ some 9)
    ⊎ IsHandled named quiet untouched "rooms" "d2" 9
        (list_due_alarms named quiet untouched by_time "rooms" 7 none databases)
        (begun databases)
dispatch_durable_object_alarms-kept_example =
    dispatch_durable_object_alarms-kept named quiet untouched by_time "rooms" 7 none databases
      databases "d2" 9 (λ alarm ds h. h) (λ alarm ds h. h) second-alarm

abbrev first_object : DurableObjectStorage
first_object = record { database_id = "d1"; namespace = "rooms"; object_id = "o1" }

-- a request sets the alarm of the object anew
abbrev set_anew : List Database → List Database
set_anew ds = set_alarm first_object 20 ds

first-alarm : alarm_of "d1" databases ≡ some 5
unfolding alarm_of
first-alarm = refl

anew-alarm : alarm_of "d1" (set_anew (run_exclusive first_object databases)) ≡ some 20
unfolding alarm_of set_alarm run_exclusive
anew-alarm = refl

clear_handled_alarm-loses_example :
    alarm_of "d1" (clear_handled_alarm set_anew first_object 5 databases) ≡ none
clear_handled_alarm-loses_example =
    clear_handled_alarm-loses set_anew first_object 5 20 databases first-alarm (omega arith)
      anew-alarm
