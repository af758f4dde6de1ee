-- ===== src/ControlPlane/Alarms.antt =====
-- Alarms of durable objects: dispatchDurableObjectAlarms of
-- control-plane/durable-object-alarm-dispatcher.ts with the alarm methods of
-- control-plane/durable-object-storage.ts. The parameters are a handler, with what other calls write
-- while it runs, what they write between the two calls that clear an alarm, the digest that names
-- the database of an object, and the order of the ids. The text of an alarm in the table is that of a
-- number, and the ids that the table holds are valid.
use odenctl.Prelude.{
  ℕ, suc, String, Bool, Option, none, some, List, [], ◌∷◌, ◌++◌, ◌&&◌, ◌||◌, map, length, take,
  find, any, ltb, leb, not, true, false, nat_eq, string_eq, ◌==◌, or_else, if◌then◌else◌,
}
use odenctl.Prelude.Keyed.{has, get}
use odenctl.Prelude.Sort.{sort}
pub mod Kept
pub mod Due
pub mod Dispatched

pub data DatabaseKind : Type 0 where
  durable_object other_kind : DatabaseKind

-- a database of the registry, with what the alarm methods read of its meta table
pub record Database : Type 0 where
  pub id : String
  pub kind : DatabaseKind
  pub namespace : Option String
  pub object_id : Option String
  pub alarm_at_ms : Option ℕ

pub record DurableObjectDueAlarm : Type 0 where
  pub namespace : String
  pub object_id : String
  pub database_id : String
  pub scheduled_time : ℕ

-- the fields of a `DurableObjectStorage` of an object
pub record DurableObjectStorage : Type 0 where
  pub database_id : String
  pub namespace : String
  pub object_id : String

pub record DurableObjectAlarmDispatchError : Type 0 where
  pub namespace : String
  pub object_id : String
  pub database_id : String
  pub scheduled_time : ℕ
  pub message : String

pub record DurableObjectAlarmDispatchReport : Type 0 where
  pub ok : Bool
  pub checked_at : ℕ
  pub due : ℕ
  pub dispatched : ℕ
  pub failed : ℕ
  pub errors : List DurableObjectAlarmDispatchError

-- what the handler of an alarm does: it may write to the databases, and fail with a message
pub record Handled : Type 0 where
  pub failure : Option String
  pub databases : List Database

-- the variables of the loop, with the databases
pub record Progress : Type 0 where
  pub dispatched : ℕ
  pub errors : List DurableObjectAlarmDispatchError
  pub databases : List Database

abbrev pub id_of : Database → String
id_of d = d.id

-- the alarm that a database holds, if it is there
abbrev pub held : Option Database → Option ℕ
held none = none
held (some d) = d.alarm_at_ms

unfoldable pub alarm_of : String → List Database → Option ℕ
alarm_of id databases = held (get id_of id databases)

abbrev pub is_durable : DatabaseKind → Bool
is_durable durable_object = true
is_durable other_kind = false

-- every row of the given id, changed
unfoldable pub changed : String → (Database → Database) → List Database → List Database
changed id f [] = []
changed id f (d ∷ ds) = (if d.id == id then f d else d) ∷ changed id f ds

abbrev pub fresh_database : String → Database
fresh_database id = record {
  id = id;
  kind = durable_object;
  namespace = none;
  object_id = none;
  alarm_at_ms = none;
}

unfoldable pub ensure_database : String → List Database → List Database
unfolding changed
ensure_database id databases =
    if has id_of id databases
    then changed id (λ d. record d { kind = durable_object }) databases
    else databases ++ fresh_database id ∷ []

unfoldable pub record_object_identity : DurableObjectStorage → List Database → List Database
unfolding changed
record_object_identity storage =
    changed storage.database_id
      (λ d. record d { namespace = some storage.namespace; object_id = some storage.object_id })

-- what `runExclusive` does before its callback
unfoldable pub run_exclusive : DurableObjectStorage → List Database → List Database
unfolding ensure_database record_object_identity
run_exclusive storage databases =
    record_object_identity storage (ensure_database storage.database_id databases)

unfoldable pub set_alarm : DurableObjectStorage → ℕ → List Database → List Database
unfolding run_exclusive changed
set_alarm storage time databases =
    changed storage.database_id (λ d. record d { alarm_at_ms = some time })
      (run_exclusive storage databases)

unfoldable pub delete_alarm : DurableObjectStorage → List Database → List Database
unfolding run_exclusive changed
delete_alarm storage databases =
    changed storage.database_id (λ d. record d { alarm_at_ms = none })
      (run_exclusive storage databases)

abbrev pub is_time : Option ℕ → ℕ → Bool
is_time none scheduled = false
is_time (some time) scheduled = time == scheduled

-- `getAlarm`, and then `deleteAlarm` if it gave the time of the alarm that was handled: two awaited
-- calls, between which other calls may write to the databases.
unfoldable pub clear_handled_alarm :
    (List Database → List Database) → DurableObjectStorage → ℕ → List Database → List Database
unfolding run_exclusive delete_alarm alarm_of
clear_handled_alarm meanwhile storage scheduled databases =
    let read = run_exclusive storage databases in
    if is_time (alarm_of storage.database_id read) scheduled
    then delete_alarm storage (meanwhile read)
    else meanwhile read

-- the alarm of a database, from what its meta table has
unfoldable pub due_with :
    String → ℕ → Database → Option String → Option String → Option ℕ → Option DurableObjectDueAlarm
due_with namespace now d none object time = none
due_with namespace now d (some own) none time = none
due_with namespace now d (some own) (some object) none = none
due_with namespace now d (some own) (some object) (some time) =
    if is_durable d.kind && own == namespace && not (object == "") && leb time now
    then some (record {
      namespace = namespace;
      object_id = object;
      database_id = d.id;
      scheduled_time = time;
    })
    else none

unfoldable pub due_alarms : String → ℕ → List Database → List DurableObjectDueAlarm
unfolding due_with
due_alarms namespace now [] = []
due_alarms namespace now (d ∷ ds) =
    let rest = due_alarms namespace now ds in
    elim (due_with namespace now d d.namespace d.object_id d.alarm_at_ms) [
      | none ↦ rest
      | some alarm ↦ alarm ∷ rest
    ]

-- `collates l r` is `l.localeCompare(r) <= 0`
abbrev pub sooner : (String → String → Bool) → DurableObjectDueAlarm → DurableObjectDueAlarm → Bool
sooner collates a b =
    ltb a.scheduled_time b.scheduled_time
    || (a.scheduled_time == b.scheduled_time && collates a.object_id b.object_id)

abbrev pub limited {ℓ} : {A : Type ℓ} → Option ℕ → List A → List A
limited none xs = xs
limited (some limit) xs = take limit xs

abbrev pub error_of : DurableObjectDueAlarm → String → DurableObjectAlarmDispatchError
error_of alarm message = record {
  namespace = alarm.namespace;
  object_id = alarm.object_id;
  database_id = alarm.database_id;
  scheduled_time = alarm.scheduled_time;
  message = message;
}

module _ (database_id_of : String → String → String)
    (handler : DurableObjectDueAlarm → List Database → Handled)
    (meanwhile : DurableObjectDueAlarm → List Database → List Database) where
  -- `namespace.get(id).storage`
  abbrev pub storage_for : String → String → DurableObjectStorage
  storage_for namespace object = record {
    database_id = database_id_of namespace object;
    namespace = namespace;
    object_id = object;
  }

  -- one turn of the loop, after the handler
  unfoldable pub settle :
      String → DurableObjectDueAlarm → Option String → List Database → Progress → Progress
  unfolding clear_handled_alarm
  settle namespace alarm none databases p = record {
    dispatched = suc p.dispatched;
    errors = p.errors;
    databases =
        clear_handled_alarm (meanwhile alarm) (storage_for namespace alarm.object_id)
          alarm.scheduled_time databases;
  }
  settle namespace alarm (some message) databases p = record {
    dispatched = p.dispatched;
    errors = p.errors ++ error_of alarm message ∷ [];
    databases = databases;
  }

  unfoldable pub dispatch_all : String → List DurableObjectDueAlarm → Progress → Progress
  unfolding settle
  dispatch_all namespace [] p = p
  dispatch_all namespace (alarm ∷ alarms) p =
      let handled = handler alarm p.databases in
      dispatch_all namespace alarms (settle namespace alarm handled.failure handled.databases p)

  module _ (collates : String → String → Bool) where
    -- of the databases in the order of their ids, each as it is when its turn comes
    unfoldable pub list_due_alarms :
        String → ℕ → Option ℕ → List Database → List DurableObjectDueAlarm
    unfolding sort due_alarms
    list_due_alarms namespace now limit read =
        limited limit (sort (sooner collates) (due_alarms namespace now read))

    -- `read` are the databases as they were listed, `databases` those after that.
    unfoldable pub dispatch_durable_object_alarms :
        String
        → ℕ
        → Option ℕ
        → List Database
        → List Database
        → DurableObjectAlarmDispatchReport × List Database
    unfolding list_due_alarms dispatch_all
    dispatch_durable_object_alarms namespace now limit read databases =
        let alarms = list_due_alarms namespace now limit read in
        let p =
          dispatch_all namespace alarms
            (record { dispatched = 0; errors = []; databases = databases }) in
        (
          record {
            ok = length p.errors == 0;
            checked_at = now;
            due = length alarms;
            dispatched = p.dispatched;
            failed = length p.errors;
            errors = p.errors;
          },
          p.databases,
        )
