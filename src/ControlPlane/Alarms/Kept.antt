-- ===== src/ControlPlane/Alarms/Kept.antt =====
-- What the alarm methods of a durable object leave of the alarms.
use odenctl.Prelude.{
  ℕ, ◌≡◌, ◌≢◌, ◌⊎◌, refl, sym, ap, ◌∙◌, inl, inr, String, true, some, List, [], ◌∷◌, ◌++◌, nat_eq,
  string_eq, ◌==◌, Bool-cases, eq_of_beq, beq_refl, ◌<◌, none,
}
use odenctl.Prelude.Keyed.{has}
use odenctl.ControlPlane.Alarms.{
  Database, DurableObjectStorage, id_of, alarm_of, changed, fresh_database, ensure_database,
  record_object_identity, run_exclusive, delete_alarm, is_time, clear_handled_alarm,
}

-- Changes of rows that keep the ids and the alarms keep the alarm of each id.
changed-alarm_of :
    (id : String) (f : Database → Database) (key : String) (ds : List Database)
    → ((d : Database) → (f d).id ≡ d.id)
    → ((d : Database) → (f d).alarm_at_ms ≡ d.alarm_at_ms)
    → alarm_of key (changed id f ds) ≡ alarm_of key ds
unfolding alarm_of changed
changed-alarm_of id f key [] same_id same_alarm = refl
changed-alarm_of id f key (d ∷ ds) same_id same_alarm = elim (Bool-cases (d.id == id)) [
  | inr other ↦ elim (Bool-cases (d.id == key)) [
    | inl here ↦ rw (other, here) refl
    | inr there ↦ rw (other, there) (changed-alarm_of id f key ds same_id same_alarm)
  ]
  | inl found ↦ elim (Bool-cases (d.id == key)) [
    | inl here ↦ rw (found, same_id d, here) (same_alarm d)
    | inr there ↦ rw (found, same_id d, there) (changed-alarm_of id f key ds same_id same_alarm)
  ]
]

-- Changes of rows of another id keep the alarm.
changed-alarm_of_other :
    (id : String) (f : Database → Database) (key : String) (ds : List Database)
    → ((d : Database) → (f d).id ≡ d.id)
    → key ≢ id
    → alarm_of key (changed id f ds) ≡ alarm_of key ds
unfolding alarm_of changed
changed-alarm_of_other id f key [] same_id other = refl
changed-alarm_of_other id f key (d ∷ ds) same_id other = elim (Bool-cases (d.id == key)) [
  | inl here ↦ elim (Bool-cases (d.id == id)) [
    | inl found ↦ absurd (other (sym (eq_of_beq d.id key here) ∙ eq_of_beq d.id id found))
    | inr elsewhere ↦ rw (elsewhere, here) refl
  ]
  | inr there ↦ elim (Bool-cases (d.id == id)) [
    | inl found ↦ rw (found, same_id d, there) (changed-alarm_of_other id f key ds same_id other)
    | inr elsewhere ↦ rw (elsewhere, there) (changed-alarm_of_other id f key ds same_id other)
  ]
]

append-alarm_of :
    (key : String) (ds : List Database) (d : Database) {time : ℕ}
    → alarm_of key ds ≡ some time
    → alarm_of key (ds ++ d ∷ []) ≡ some time
unfolding alarm_of
append-alarm_of key [] d h = cc
append-alarm_of key (x ∷ ds) d h = elim (Bool-cases (x.id == key)) [
  | inl here ↦ rw here (rw here at h)
  | inr there ↦ rw there (append-alarm_of key ds d (rw there at h))
]

run_exclusive-alarm_of :
    (storage : DurableObjectStorage) (key : String) (ds : List Database) {time : ℕ}
    → alarm_of key ds ≡ some time
    → alarm_of key (run_exclusive storage ds) ≡ some time
unfolding run_exclusive record_object_identity ensure_database
run_exclusive-alarm_of storage key ds h =
    changed-alarm_of storage.database_id _ key (ensure_database storage.database_id ds) (λ d. refl)
      (λ d. refl)
    ∙ elim (Bool-cases (has id_of storage.database_id ds)) [
      | inl found ↦
          rw found (changed-alarm_of storage.database_id _ key ds (λ d. refl) (λ d. refl) ∙ h)
      | inr absent ↦ rw absent (append-alarm_of key ds (fresh_database storage.database_id) h)
    ]

-- Only the alarm at the handled time is cleared, if the other calls keep it.
pub clear_handled_alarm-alarm_of :
    (meanwhile : List Database → List Database) (storage : DurableObjectStorage) (scheduled : ℕ)
    (key : String) (ds : List Database) {time : ℕ}
    → ((rs : List Database) → alarm_of key rs ≡ some time → alarm_of key (meanwhile rs) ≡ some time)
    → alarm_of key ds ≡ some time
    → (key ≢ storage.database_id) ⊎ (time ≢ scheduled)
    → alarm_of key (clear_handled_alarm meanwhile storage scheduled ds) ≡ some time
unfolding clear_handled_alarm delete_alarm
clear_handled_alarm-alarm_of meanwhile storage scheduled key ds {time} keeps h apart =
    let read = run_exclusive storage ds in
    let same = run_exclusive-alarm_of storage key ds h in
    let later = keeps read same in
    elim (Bool-cases (is_time (alarm_of storage.database_id read) scheduled)) [
      | inr stays ↦ rw stays later
      | inl cleared ↦ rw cleared (
          changed-alarm_of_other storage.database_id _ key (run_exclusive storage (meanwhile read))
            (λ d. refl) (elsewhere apart same cleared)
          ∙ run_exclusive-alarm_of storage key (meanwhile read) later)
    ]
  where
    elsewhere :
        (key ≢ storage.database_id) ⊎ (time ≢ scheduled)
        → alarm_of key (run_exclusive storage ds) ≡ some time
        → is_time (alarm_of storage.database_id (run_exclusive storage ds)) scheduled ≡ true
        → key ≢ storage.database_id
    elsewhere (inl other) same cleared = other
    elsewhere (inr later) same cleared = λ e. later (
        eq_of_beq time scheduled (
          sym (ap (λ o. is_time o scheduled) same)
          ∙ ap (λ k. is_time (alarm_of k (run_exclusive storage ds)) scheduled) e
          ∙ cleared))

cleared-alarm_of :
    (id : String) (ds : List Database)
    → alarm_of id (changed id (λ d. record d { alarm_at_ms = none }) ds) ≡ none
unfolding alarm_of changed
cleared-alarm_of id [] = refl
cleared-alarm_of id (d ∷ ds) = elim (Bool-cases (d.id == id)) [
  | inl here ↦ rw (here, here) refl
  | inr other ↦ rw (other, other) (cleared-alarm_of id ds)
]

-- An alarm that another call sets, for a later time, between the two calls that clear a handled alarm
-- is lost: if the first call reads the time that was handled, then the object has no alarm after the
-- second.
pub clear_handled_alarm-loses :
    (meanwhile : List Database → List Database) (storage : DurableObjectStorage)
    (scheduled time : ℕ) (ds : List Database)
    → alarm_of storage.database_id ds ≡ some scheduled
    → scheduled < time
    → alarm_of storage.database_id (meanwhile (run_exclusive storage ds)) ≡ some time
    → alarm_of storage.database_id (clear_handled_alarm meanwhile storage scheduled ds) ≡ none
unfolding clear_handled_alarm delete_alarm
clear_handled_alarm-loses meanwhile storage scheduled time ds h later set =
    let seen : is_time (alarm_of storage.database_id (run_exclusive storage ds)) scheduled ≡ true =
      ap (λ o. is_time o scheduled) (run_exclusive-alarm_of storage storage.database_id ds h)
      ∙ beq_refl scheduled in
    rw seen (
      cleared-alarm_of storage.database_id
        (run_exclusive storage (meanwhile (run_exclusive storage ds))))
