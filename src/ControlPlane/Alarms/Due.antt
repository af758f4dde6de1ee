-- ===== src/ControlPlane/Alarms/Due.antt =====
-- Which alarms are due.
use odenctl.Prelude.{
  ℕ, zero, suc, ◌≤◌, ◌≡◌, ◌≢◌, ◌⊎◌, refl, sym, subst, ap, ◌∙◌, inl, inr, String, Bool, true, false,
  Option, none, some, List, [], ◌∷◌, ◌&&◌, arith, length, leb, leb→le, le→leb, min, not, nat_eq,
  string_eq, ◌==◌, Bool-cases, Member, Member-take, eq_of_beq, ne_of_beq, beq_refl, beq_of_ne, take,
}
use odenctl.Prelude.Counting.{Counts}
use odenctl.Prelude.Sort.{sort, Member-sort, length-sort}
use odenctl.ControlPlane.Alarms.{
  DatabaseKind, durable_object, other_kind, Database, DurableObjectDueAlarm, Handled, is_durable,
  due_with, due_alarms, sooner, limited, list_due_alarms,
}

-- The database is that of an object of the namespace, whose alarm was set for a time that has come.
pub record IsOverdueAlarm (namespace : String) (now : ℕ) (d : Database) (a : DurableObjectDueAlarm)
    : Type 0 where
  pub durable : d.kind ≡ durable_object
  pub own : d.namespace ≡ some namespace
  pub object : d.object_id ≡ some a.object_id
  pub named : a.object_id ≢ ""
  pub set : d.alarm_at_ms ≡ some a.scheduled_time
  pub past : a.scheduled_time ≤ now
  pub same_database : a.database_id ≡ d.id
  pub same_namespace : a.namespace ≡ namespace

abbrev pub IsOverdue : String → ℕ → Database → Type 0
IsOverdue namespace now d = (a : DurableObjectDueAlarm) × IsOverdueAlarm namespace now d a

some_injective : {A : Type 0} {a b : A} → some a ≡ some b → a ≡ b
some_injective h = cc

none_some : {A : Type 0} {B : Type 0} {b : A} → none ≡ some b → B
none_some e = cc

durable-kind : (k : DatabaseKind) → is_durable k ≡ true → k ≡ durable_object
durable-kind durable_object h = refl
durable-kind other_kind h = cc

conjuncts :
    (a b c d : Bool)
    → (a && b && not c && d) ≡ true
    → (a ≡ true) × (b ≡ true) × (c ≡ false) × (d ≡ true)
conjuncts true true false true h = (refl, refl, refl, refl)
conjuncts false b c d h = cc
conjuncts true false c d h = cc
conjuncts true true true d h = cc
conjuncts true true false false h = cc

abbrev made : String → Database → String → ℕ → DurableObjectDueAlarm
made namespace d object time = record {
  namespace = namespace;
  object_id = object;
  database_id = d.id;
  scheduled_time = time;
}

abbrev due_test : String → ℕ → Database → String → String → ℕ → Bool
due_test namespace now d own object time =
    is_durable d.kind && own == namespace && not (object == "") && leb time now

due_test-IsOverdueAlarm :
    (namespace : String) (now : ℕ) (d : Database) (own object : String) (time : ℕ)
    → d.namespace ≡ some own
    → d.object_id ≡ some object
    → d.alarm_at_ms ≡ some time
    → due_test namespace now d own object time ≡ true
    → IsOverdueAlarm namespace now d (made namespace d object time)
due_test-IsOverdueAlarm namespace now d own object time n o t h =
    let (kind, same, named, past) =
      conjuncts (is_durable d.kind) (own == namespace) (object == "") (leb time now) h in
    record {
      durable = durable-kind d.kind kind;
      own = n ∙ ap some (eq_of_beq own namespace same);
      object = o;
      named = ne_of_beq object "" named;
      set = t;
      past = leb→le time now past;
      same_database = refl;
      same_namespace = refl;
    }

IsOverdueAlarm-due_test :
    (namespace : String) (now : ℕ) (d : Database) (own object : String) (time : ℕ)
    → d.namespace ≡ some own
    → d.object_id ≡ some object
    → d.alarm_at_ms ≡ some time
    → IsOverdue namespace now d
    → due_test namespace now d own object time ≡ true
IsOverdueAlarm-due_test namespace now d own object time n o t (a, h) =
    let kind : is_durable d.kind ≡ true = ap is_durable h.durable in
    let same : own ≡ namespace = some_injective (sym n ∙ h.own) in
    let named : object ≡ a.object_id = some_injective (sym o ∙ h.object) in
    let at : time ≡ a.scheduled_time = some_injective (sym t ∙ h.set) in
    let e1 : (own == namespace) ≡ true = rw same (beq_refl namespace) in
    let e2 : (object == "") ≡ false = rw named (beq_of_ne a.object_id "" h.named) in
    let e3 : leb time now ≡ true = rw at (le→leb a.scheduled_time now h.past) in
    rw (kind, e1, e2, e3) refl

-- The test of a row finds its due alarm, or that it has none.
data Tested (namespace : String) (now : ℕ) (d : Database) (r : Option DurableObjectDueAlarm)
    : Type 0 where
  found :
      (a : DurableObjectDueAlarm)
      → r ≡ some a
      → IsOverdueAlarm namespace now d a
      → Tested namespace now d r
  idle : r ≡ none → ¬ IsOverdue namespace now d → Tested namespace now d r

due_with-Tested :
    (namespace : String) (now : ℕ) (d : Database) (own object : Option String) (time : Option ℕ)
    → d.namespace ≡ own
    → d.object_id ≡ object
    → d.alarm_at_ms ≡ time
    → Tested namespace now d (due_with namespace now d own object time)
unfolding due_with
due_with-Tested namespace now d none object time n o t =
    idle refl (λ (a, h). none_some (sym n ∙ h.own))
due_with-Tested namespace now d (some own) none time n o t =
    idle refl (λ (a, h). none_some (sym o ∙ h.object))
due_with-Tested namespace now d (some own) (some object) none n o t =
    idle refl (λ (a, h). none_some (sym t ∙ h.set))
due_with-Tested namespace now d (some own) (some object) (some time) n o t =
    elim (Bool-cases (due_test namespace now d own object time)) [
      | inl here ↦
          found (made namespace d object time) (rw here refl)
            (due_test-IsOverdueAlarm namespace now d own object time n o t here)
      | inr other ↦ idle (rw other refl) (λ h.
          differ (sym (IsOverdueAlarm-due_test namespace now d own object time n o t h) ∙ other))
    ]
  where
    differ : true ≡ false → ⊥
    differ e = cc

row-Tested :
    (namespace : String) (now : ℕ) (d : Database)
    → Tested namespace now d (due_with namespace now d d.namespace d.object_id d.alarm_at_ms)
row-Tested namespace now d =
    due_with-Tested namespace now d d.namespace d.object_id d.alarm_at_ms refl refl refl

due_alarms-idle :
    (namespace : String) (now : ℕ) (d : Database) (ds : List Database)
    → due_with namespace now d d.namespace d.object_id d.alarm_at_ms ≡ none
    → due_alarms namespace now (d ∷ ds) ≡ due_alarms namespace now ds
unfolding due_alarms
due_alarms-idle namespace now d ds h = rw (due_alarms, h) refl

due_alarms-due :
    (namespace : String) (now : ℕ) (d : Database) (ds : List Database) (a : DurableObjectDueAlarm)
    → due_with namespace now d d.namespace d.object_id d.alarm_at_ms ≡ some a
    → due_alarms namespace now (d ∷ ds) ≡ a ∷ due_alarms namespace now ds
unfolding due_alarms
due_alarms-due namespace now d ds a h = rw (due_alarms, h) refl

due_alarms-Counts :
    (namespace : String) (now : ℕ) (ds : List Database)
    → Counts (IsOverdue namespace now) ds (length (due_alarms namespace now ds))
unfolding due_alarms
due_alarms-Counts namespace now [] = refl
due_alarms-Counts namespace now (d ∷ ds) = elim (row-Tested namespace now d) [
  | found a here due ↦ inl (
    (a, due),
    (
      length (due_alarms namespace now ds),
      ap length (due_alarms-due namespace now d ds a here),
      due_alarms-Counts namespace now ds,
    ),
  )
  | idle here not_due ↦ inr (
    not_due,
    subst (λ (rest : List DurableObjectDueAlarm). Counts (IsOverdue namespace now) ds (length rest))
        (sym (due_alarms-idle namespace now d ds here)) (due_alarms-Counts namespace now ds),
  )
]

due_alarms-IsOverdueAlarm :
    (namespace : String) (now : ℕ) (ds : List Database) (alarm : DurableObjectDueAlarm)
    → Member alarm (due_alarms namespace now ds)
    → (d : Database) × Member d ds × IsOverdueAlarm namespace now d alarm
unfolding due_alarms
due_alarms-IsOverdueAlarm namespace now [] alarm m = absurd m
due_alarms-IsOverdueAlarm namespace now (d ∷ ds) alarm m = elim (row-Tested namespace now d) [
  | idle here not_due ↦
      let (e, n, due) =
        due_alarms-IsOverdueAlarm namespace now ds alarm
          (subst (Member alarm) (due_alarms-idle namespace now d ds here) m) in
      (e, inr n, due)
  | found a here due ↦
      let parts : (alarm ≡ a) ⊎ Member alarm (due_alarms namespace now ds) =
        subst (Member alarm) (due_alarms-due namespace now d ds a here) m in
      elim parts [
        | inl same ↦ (
          d,
          inl refl,
          subst (λ (x : DurableObjectDueAlarm). IsOverdueAlarm namespace now d x) (sym same) due,
        )
        | inr rest ↦
            let (e, n, there) = due_alarms-IsOverdueAlarm namespace now ds alarm rest in
            (e, inr n, there)
      ]
]

Member-limited :
    {A : Type 0} (limit : Option ℕ) (xs : List A) (a : A)
    → Member a (limited limit xs)
    → Member a xs
Member-limited none xs a m = m
Member-limited (some n) xs a m = Member-take n xs a m

-- a number, but no more than the limit
abbrev pub capped : Option ℕ → ℕ → ℕ
capped none n = n
capped (some limit) n = min limit n

length-take : {A : Type 0} (n : ℕ) (xs : List A) → length (take n xs) ≡ min n (length xs)
length-take zero xs = omega arith
length-take (suc n) [] = omega arith
length-take (suc n) (x ∷ xs) = omega (arith, length-take n xs)

length-limited :
    {A : Type 0} (limit : Option ℕ) (xs : List A)
    → length (limited limit xs) ≡ capped limit (length xs)
length-limited none xs = refl
length-limited (some n) xs = length-take n xs

module _ (database_id_of : String → String → String)
    (handler : DurableObjectDueAlarm → List Database → Handled)
    (meanwhile : DurableObjectDueAlarm → List Database → List Database)
    (collates : String → String → Bool) (namespace : String) (now : ℕ) (limit : Option ℕ)
    (read : List Database) where
  abbrev listed : List DurableObjectDueAlarm
  listed = list_due_alarms database_id_of handler meanwhile collates namespace now limit read

  -- An alarm that is listed is the due alarm of a database that was read.
  pub list_due_alarms-IsOverdueAlarm :
      (alarm : DurableObjectDueAlarm)
      → Member alarm listed
      → (d : Database) × Member d read × IsOverdueAlarm namespace now d alarm
  unfolding list_due_alarms
  list_due_alarms-IsOverdueAlarm alarm m = due_alarms-IsOverdueAlarm namespace now read alarm (
      Member-sort (sooner collates) (due_alarms namespace now read) alarm
        (Member-limited limit _ alarm m))

  -- As many alarms are listed as databases have one that is due, up to the limit.
  pub list_due_alarms-Counts :
      (n : ℕ) × Counts (IsOverdue namespace now) read n × (length listed ≡ capped limit n)
  unfolding list_due_alarms
  list_due_alarms-Counts = (
    length (due_alarms namespace now read),
    due_alarms-Counts namespace now read,
    length-limited limit (sort (sooner collates) (due_alarms namespace now read))
        ∙ ap (capped limit) (length-sort (sooner collates) (due_alarms namespace now read)),
  )
