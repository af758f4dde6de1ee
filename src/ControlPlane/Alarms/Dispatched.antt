-- ===== src/ControlPlane/Alarms/Dispatched.antt =====
-- A dispatch of alarms accounts for each due alarm and loses none that is not handled.
use odenctl.Prelude.{
  ℕ, ◌+◌, ◌≡◌, ◌≢◌, ◌⊎◌, refl, sym, ◌∙◌, ◌↔◌, inl, inr, String, Bool, true, Option, none, some,
  List, [], ◌∷◌, arith, length, nat_eq, string_eq, ◌==◌, Bool-cases, Member, eq_of_beq, ne_of_beq,
  length-append, All, All-of_Member,
}
use odenctl.Prelude.Counting.{Counts}
use odenctl.Prelude.Keyed.{All-append}
use odenctl.ControlPlane.Alarms.{
  Database, DurableObjectDueAlarm, DurableObjectAlarmDispatchError,
  DurableObjectAlarmDispatchReport, Handled, Progress, alarm_of, error_of, storage_for, settle,
  dispatch_all, list_due_alarms, dispatch_durable_object_alarms,
}
use odenctl.ControlPlane.Alarms.Kept.{clear_handled_alarm-alarm_of}
use odenctl.ControlPlane.Alarms.Due.{
  IsOverdueAlarm, IsOverdue, capped, list_due_alarms-IsOverdueAlarm, list_due_alarms-Counts,
}

-- The error names a due alarm of a database that was read.
pub record IsFailedAlarm (namespace : String) (now : ℕ) (read : List Database)
    (e : DurableObjectAlarmDispatchError) : Type 0 where
  pub database : Database
  pub alarm : DurableObjectDueAlarm
  pub listed : Member database read
  pub due : IsOverdueAlarm namespace now database alarm
  pub same : e ≡ error_of alarm e.message

module _ (database_id_of : String → String → String)
    (handler : DurableObjectDueAlarm → List Database → Handled)
    (meanwhile : DurableObjectDueAlarm → List Database → List Database) (namespace : String) where
  abbrev settled : DurableObjectDueAlarm → Option String → List Database → Progress → Progress
  settled = settle database_id_of handler meanwhile namespace

  abbrev dispatched_all : List DurableObjectDueAlarm → Progress → Progress
  dispatched_all = dispatch_all database_id_of handler meanwhile namespace

  settle-counts :
      (alarm : DurableObjectDueAlarm) (failure : Option String) (ds : List Database) (p : Progress)
      → (settled alarm failure ds p).dispatched + length (settled alarm failure ds p).errors
        ≡ p.dispatched + length p.errors + 1
  unfolding settle
  settle-counts alarm none ds p = omega arith
  settle-counts alarm (some message) ds p =
      omega (arith, length-append p.errors (error_of alarm message ∷ []))

  dispatch_all-counts :
      (alarms : List DurableObjectDueAlarm) (p : Progress)
      → (dispatched_all alarms p).dispatched + length (dispatched_all alarms p).errors
        ≡ p.dispatched + length p.errors + length alarms
  unfolding dispatch_all
  dispatch_all-counts [] p = omega arith
  dispatch_all-counts (alarm ∷ alarms) p =
      let handled = handler alarm p.databases in
      dispatch_all-counts alarms (settled alarm handled.failure handled.databases p)
      ∙ omega (arith, settle-counts alarm handled.failure handled.databases p)

  module _ (P : DurableObjectAlarmDispatchError → Type 0) where
    settle-errors :
        (alarm : DurableObjectDueAlarm) (failure : Option String) (ds : List Database)
        (p : Progress)
        → ((message : String) → P (error_of alarm message))
        → All P p.errors
        → All P (settled alarm failure ds p).errors
    unfolding settle
    settle-errors alarm none ds p holds all = all
    settle-errors alarm (some message) ds p holds all =
        All-append P p.errors (error_of alarm message) all (holds message)

    dispatch_all-errors :
        (alarms : List DurableObjectDueAlarm) (p : Progress)
        → All (λ alarm. (message : String) → P (error_of alarm message)) alarms
        → All P p.errors
        → All P (dispatched_all alarms p).errors
    unfolding dispatch_all
    dispatch_all-errors [] p holds all = all
    dispatch_all-errors (alarm ∷ alarms) p (holds, others) all =
        let handled = handler alarm p.databases in
        dispatch_all-errors alarms (settled alarm handled.failure handled.databases p) others
          (settle-errors alarm handled.failure handled.databases p holds all)

  module _ (key : String) (time : ℕ) where
    -- One of the alarms is that of the object at this time, and its handler returned in the course of
    -- the dispatch.
    abbrev pub IsHandled : List DurableObjectDueAlarm → Progress → Type 0
    IsHandled [] p = ⊥
    IsHandled (alarm ∷ alarms) p =
        ((database_id_of namespace alarm.object_id ≡ key)
          × (alarm.scheduled_time ≡ time)
          × ((handler alarm p.databases).failure ≡ none))
        ⊎ IsHandled alarms (
            settled alarm (handler alarm p.databases).failure (handler alarm p.databases).databases
              p)

    -- The two cases for one alarm.
    settle-kept :
        (alarm : DurableObjectDueAlarm) (failure : Option String) (ds : List Database)
        (p : Progress)
        → ((rs : List Database)
            → alarm_of key rs ≡ some time
            → alarm_of key (meanwhile alarm rs) ≡ some time)
        → alarm_of key ds ≡ some time
        → ((database_id_of namespace alarm.object_id ≡ key)
            × (alarm.scheduled_time ≡ time)
            × (failure ≡ none))
          ⊎ (alarm_of key (settled alarm failure ds p).databases ≡ some time)
    unfolding settle
    settle-kept alarm (some message) ds p keeps h = inr h
    settle-kept alarm none ds p keeps h =
        elim (Bool-cases (database_id_of namespace alarm.object_id == key)) [
          | inr other ↦ inr (
              kept
                (inl (λ e. ne_of_beq (database_id_of namespace alarm.object_id) key other (sym e))))
          | inl here ↦ elim (Bool-cases (alarm.scheduled_time == time)) [
            | inl at ↦ inl (
              eq_of_beq (database_id_of namespace alarm.object_id) key here,
              eq_of_beq alarm.scheduled_time time at,
              refl,
            )
            | inr apart ↦ inr (kept (inr (λ e. ne_of_beq alarm.scheduled_time time apart (sym e))))
          ]
        ]
      where
        kept :
            (key ≢ database_id_of namespace alarm.object_id) ⊎ (time ≢ alarm.scheduled_time)
            → alarm_of key (settled alarm none ds p).databases ≡ some time
        kept apart =
            clear_handled_alarm-alarm_of (meanwhile alarm)
              (storage_for database_id_of handler meanwhile namespace alarm.object_id)
              alarm.scheduled_time key ds keeps h apart

    dispatch_all-kept :
        ((alarm : DurableObjectDueAlarm) (rs : List Database)
          → alarm_of key rs ≡ some time
          → alarm_of key (handler alarm rs).databases ≡ some time)
        → ((alarm : DurableObjectDueAlarm) (rs : List Database)
            → alarm_of key rs ≡ some time
            → alarm_of key (meanwhile alarm rs) ≡ some time)
        → (alarms : List DurableObjectDueAlarm) (p : Progress)
        → alarm_of key p.databases ≡ some time
        → (alarm_of key (dispatched_all alarms p).databases ≡ some time) ⊎ IsHandled alarms p
    unfolding dispatch_all
    dispatch_all-kept handles keeps [] p h = inl h
    dispatch_all-kept handles keeps (alarm ∷ alarms) p h =
        let handled = handler alarm p.databases in
        elim (settle-kept alarm handled.failure handled.databases p (keeps alarm)
          (handles alarm p.databases h)) [
            | inl gone ↦ inr (inl gone)
            | inr still ↦
                elim (dispatch_all-kept handles keeps alarms
                  (settled alarm handled.failure handled.databases p) still) [
                    | inl held ↦ inl held
                    | inr later ↦ inr (inr later)
                  ]
          ]

abbrev pub begun : List Database → Progress
begun databases = record { dispatched = 0; errors = []; databases = databases }

module _ (database_id_of : String → String → String)
    (handler : DurableObjectDueAlarm → List Database → Handled)
    (meanwhile : DurableObjectDueAlarm → List Database → List Database)
    (collates : String → String → Bool) (namespace : String) (now : ℕ) (limit : Option ℕ)
    (read databases : List Database) where
  abbrev pub outcome : DurableObjectAlarmDispatchReport × List Database
  outcome =
      dispatch_durable_object_alarms database_id_of handler meanwhile collates namespace now limit
        read databases

  -- The report of a dispatch counts as due as many alarms as the databases that were read have whose
  -- object is one of the namespace with an alarm set for a time that has come, or the limit if that
  -- is less. Each of them is dispatched or failed, and the report is `ok` exactly when all were
  -- dispatched. There is one error for each that failed, and each error names such an alarm.
  pub dispatch_durable_object_alarms-Counts :
      (n : ℕ) × Counts (IsOverdue namespace now) read n
      × (outcome.0.due ≡ capped limit n)
      × (outcome.0.dispatched + outcome.0.failed ≡ outcome.0.due)
      × ((outcome.0.ok ≡ true) ↔ (outcome.0.dispatched ≡ outcome.0.due))
      × (outcome.0.failed ≡ length outcome.0.errors)
      × All (IsFailedAlarm namespace now read) outcome.0.errors
  unfolding dispatch_durable_object_alarms
  dispatch_durable_object_alarms-Counts =
      let alarms =
        list_due_alarms database_id_of handler meanwhile collates namespace now limit read in
      let (n, counted, due) =
        list_due_alarms-Counts database_id_of handler meanwhile collates namespace now limit read in
      let counts =
        dispatch_all-counts database_id_of handler meanwhile namespace alarms (begun databases) in
      let p = dispatch_all database_id_of handler meanwhile namespace alarms (begun databases) in
      (
        n,
        counted,
        due,
        omega (arith, counts),
        (
          λ fine. omega (arith, counts, eq_of_beq (length p.errors) 0 fine),
          λ all.
              let none_failed : length p.errors ≡ 0 = omega (arith, counts, all) in
              rw none_failed refl,
        ),
        refl,
        dispatch_all-errors database_id_of handler meanwhile namespace
            (IsFailedAlarm namespace now read) alarms (begun databases)
            (All-of_Member
              (λ alarm.
                (message : String) → IsFailedAlarm namespace now read (error_of alarm message))
              alarms (λ alarm m message. failed alarm message m))
            tt,
      )
    where
      failed :
          (alarm : DurableObjectDueAlarm) (message : String)
          → Member alarm
              (list_due_alarms database_id_of handler meanwhile collates namespace now limit read)
          → IsFailedAlarm namespace now read (error_of alarm message)
      failed alarm message m =
          let (d, listed, due) =
            list_due_alarms-IsOverdueAlarm database_id_of handler meanwhile collates namespace now
              limit read alarm m in
          record { database = d; alarm = alarm; listed = listed; due = due; same = refl }

  -- If an alarm is set when the dispatch begins, and neither the handlers nor the other calls that
  -- run meanwhile take it away, then it is still set after the dispatch, unless one of the listed
  -- alarms is of the same object and for the same time, and its handler returned in this dispatch.
  pub dispatch_durable_object_alarms-kept :
      (key : String) (time : ℕ)
      → ((alarm : DurableObjectDueAlarm) (rs : List Database)
          → alarm_of key rs ≡ some time
          → alarm_of key (handler alarm rs).databases ≡ some time)
      → ((alarm : DurableObjectDueAlarm) (rs : List Database)
          → alarm_of key rs ≡ some time
          → alarm_of key (meanwhile alarm rs) ≡ some time)
      → alarm_of key databases ≡ some time
      → (alarm_of key outcome.1 ≡ some time)
        ⊎ IsHandled database_id_of handler meanwhile namespace key time
            (list_due_alarms database_id_of handler meanwhile collates namespace now limit read)
            (begun databases)
  unfolding dispatch_durable_object_alarms
  dispatch_durable_object_alarms-kept key time handles keeps h =
      dispatch_all-kept database_id_of handler meanwhile namespace key time handles keeps
        (list_due_alarms database_id_of handler meanwhile collates namespace now limit read)
        (begun databases) h
