-- ===== src/ControlPlane/Canary/Breaches.antt =====
-- The events that count against a canary, described without the tests of the code.
use odenctl.Prelude.{
  ℕ, suc, ◌*◌, ◌≤◌, ◌<◌, ◌≡◌, ◌≢◌, ◌⊎◌, ◌↔◌, refl, subst, ap, inl, inr, String, Bool, true, false,
  ◌&&◌, ◌||◌, Option, none, some, List, [], ◌∷◌, arith, filter, map, length, leb, leb→le, le→leb,
  ltb→lt, lt→ltb, not, nat_eq, string_eq, ◌==◌, eq_of_beq, ne_of_beq, beq_refl, beq_of_ne,
  Bool-cases, if◌then◌else◌,
}
use odenctl.Prelude.Counting.{Counts, Counts-filter}
use odenctl.ControlPlane.Canary.{
  CanaryMetricEvent, CanaryAnalysisThresholds, Fraction, exceeds, rate_exceeds, is_of,
  is_error_event, is_rejected_event,
}
use odenctl.ControlPlane.Canary.Percentiles.{up_to}

abbrev pub IsOf : String → CanaryMetricEvent → Type 0
IsOf candidate e = e.deployment_id ≡ some candidate

-- a request that was turned away: too many requests, no capacity, or a code that says so
pub data IsRejected (e : CanaryMetricEvent) : Type 0 where
  too_many : e.status ≡ 429 → IsRejected e
  unavailable : e.status ≡ 503 → IsRejected e
  overloaded : e.error_code ≡ some "overloaded" → IsRejected e
  rate_limited : e.error_code ≡ some "rate_limited" → IsRejected e

-- a server error, or any error code
pub data IsError (e : CanaryMetricEvent) : Type 0 where
  server_error : 500 ≤ e.status → IsError e
  coded : (code : String) → e.error_code ≡ some code → code ≢ "" → IsError e

-- A threshold that is set is exceeded by the events of the candidate: more are rejected than the
-- limit, or a greater part of them are errors, or fewer than 95 of 100 took no longer than the limit.
pub data Breaches (candidate : String) (thresholds : CanaryAnalysisThresholds)
    (events : List CanaryMetricEvent) : Type 0 where
  rejects :
      (limit n : ℕ)
      → thresholds.reject_count ≡ some limit
      → Counts (λ e. IsOf candidate e × IsRejected e) events n
      → limit < n
      → Breaches candidate thresholds events
  errors :
      (limit : Fraction) (n m : ℕ)
      → thresholds.error_rate ≡ some limit
      → Counts (IsOf candidate) events n
      → Counts (λ e. IsOf candidate e × IsError e) events m
      → limit.numerator * n < m * limit.denominator
      → Breaches candidate thresholds events
  slow :
      (limit n m : ℕ)
      → thresholds.p95_ms ≡ some limit
      → Counts (IsOf candidate) events n
      → Counts (λ e. IsOf candidate e × (e.duration_ms ≤ limit)) events m
      → 100 * m < 95 * n
      → Breaches candidate thresholds events

pub or-true : (a b : Bool) → (a || b) ≡ true → (a ≡ true) ⊎ (b ≡ true)
or-true true b h = inl refl
or-true false b h = inr h

pub left-or : (a b : Bool) → a ≡ true → (a || b) ≡ true
left-or a b h = ground arith

pub right-or : (a b : Bool) → b ≡ true → (a || b) ≡ true
right-or a b h = ground arith

pub some_injective : {A : Type 0} {a b : A} → some a ≡ some b → a ≡ b
some_injective h = cc

pub none_some : {A : Type 0} {B : Type 0} {b : A} → none ≡ some b → B
none_some e = cc

abbrev code_test : Option String → Bool
code_test o = elim o [ none ↦ false | some code ↦ code == "overloaded" || code == "rate_limited" ]

abbrev set_test : Option String → Bool
set_test o = elim o [ none ↦ false | some code ↦ not (code == "") ]

code_test-true :
    (o : Option String) → code_test o ≡ true → (o ≡ some "overloaded") ⊎ (o ≡ some "rate_limited")
code_test-true none h = cc
code_test-true (some code) h = elim (or-true (code == "overloaded") (code == "rate_limited") h) [
  | inl a ↦ inl (ap some (eq_of_beq code "overloaded" a))
  | inr b ↦ inr (ap some (eq_of_beq code "rate_limited" b))
]

set_test-true :
    (o : Option String) → set_test o ≡ true → (code : String) × (o ≡ some code) × (code ≢ "")
set_test-true none h = cc
set_test-true (some code) h = (code, refl, ne_of_beq code "" (ground arith))

pub is_of-IsOf :
    (candidate : String) (e : CanaryMetricEvent) → is_of candidate e ≡ true → IsOf candidate e
is_of-IsOf candidate e h = named e.deployment_id h
  where
    named :
        (o : Option String)
        → (elim o [ none ↦ false | some id ↦ id == candidate ]) ≡ true
        → o ≡ some candidate
    named none k = cc
    named (some id) k = ap some (eq_of_beq id candidate k)

pub IsOf-is_of :
    (candidate : String) (e : CanaryMetricEvent) → IsOf candidate e → is_of candidate e ≡ true
IsOf-is_of candidate e h = rw h (beq_refl candidate)

pub is_rejected_event-IsRejected :
    (e : CanaryMetricEvent) → is_rejected_event e ≡ true → IsRejected e
is_rejected_event-IsRejected e h =
    elim (or-true (e.status == 429 || e.status == 503) (code_test e.error_code) h) [
      | inr coded_so ↦ elim (code_test-true e.error_code coded_so) [
        | inl a ↦ overloaded a
        | inr b ↦ rate_limited b
      ]
      | inl by_status ↦ elim (or-true (e.status == 429) (e.status == 503) by_status) [
        | inl a ↦ too_many (eq_of_beq e.status 429 a)
        | inr b ↦ unavailable (eq_of_beq e.status 503 b)
      ]
    ]

pub IsRejected-is_rejected_event :
    (e : CanaryMetricEvent) → IsRejected e → is_rejected_event e ≡ true
IsRejected-is_rejected_event e (too_many h) =
    left-or (e.status == 429 || e.status == 503) _ (left-or (e.status == 429) _ (rw h refl))
IsRejected-is_rejected_event e (unavailable h) =
    left-or (e.status == 429 || e.status == 503) _ (right-or (e.status == 429) _ (rw h refl))
IsRejected-is_rejected_event e (overloaded h) =
    right-or (e.status == 429 || e.status == 503) (code_test e.error_code) (rw h refl)
IsRejected-is_rejected_event e (rate_limited h) =
    right-or (e.status == 429 || e.status == 503) (code_test e.error_code) (rw h refl)

pub is_error_event-IsError : (e : CanaryMetricEvent) → is_error_event e ≡ true → IsError e
is_error_event-IsError e h = elim (or-true (leb 500 e.status) (set_test e.error_code) h) [
  | inl by_status ↦ server_error (leb→le 500 e.status by_status)
  | inr by_code ↦
      let (code, there, named) = set_test-true e.error_code by_code in coded code there named
]

pub IsError-is_error_event : (e : CanaryMetricEvent) → IsError e → is_error_event e ≡ true
IsError-is_error_event e (server_error h) = left-or (leb 500 e.status) _ (le→leb 500 e.status h)
IsError-is_error_event e (coded code there named) =
    right-or (leb 500 e.status) (set_test e.error_code)
      (rw there (rw (beq_of_ne code "" named) refl))

filter-filter :
    {A : Type 0} (p q : A → Bool) (xs : List A)
    → length (filter (λ x. p x && q x) xs) ≡ length (filter q (filter p xs))
filter-filter p q [] = refl
filter-filter p q (x ∷ xs) = elim (Bool-cases (p x)) [
  | inr out ↦ rw out (filter-filter p q xs)
  | inl kept ↦ rw kept (ground (arith, filter-filter p q xs))
]

-- Events of the candidate that pass a test.
pub own-Counts :
    (candidate : String) (Q : CanaryMetricEvent → Type 0) (q : CanaryMetricEvent → Bool)
    (events : List CanaryMetricEvent)
    → ((e : CanaryMetricEvent) → q e ≡ true → Q e)
    → ((e : CanaryMetricEvent) → Q e → q e ≡ true)
    → Counts
        (λ e. IsOf candidate e × Q e)
        events
        (length (filter q (filter (is_of candidate) events)))
own-Counts candidate Q q events sound whole =
    subst (Counts (λ e. IsOf candidate e × Q e) events) (filter-filter (is_of candidate) q events) (
      Counts-filter (λ e. IsOf candidate e × Q e) (λ e. is_of candidate e && q e)
        (λ e h.
          let (mine, passes) = both (is_of candidate e) (q e) h in
          (is_of-IsOf candidate e mine, sound e passes))
        (λ e h. joined (is_of candidate e) (q e) (IsOf-is_of candidate e h.0) (whole e h.1)) events)
  where
    both : (a b : Bool) → (a && b) ≡ true → (a ≡ true) × (b ≡ true)
    both true true h = (refl, refl)
    both true false h = cc
    both false b h = cc

    joined : (a b : Bool) → a ≡ true → b ≡ true → (a && b) ≡ true
    joined a b h k = rw (h, k) refl

pub up_to-map :
    (t : ℕ) (own : List CanaryMetricEvent)
    → up_to t (map (λ e. e.duration_ms) own) ≡ length (filter (λ e. leb e.duration_ms t) own)
up_to-map t [] = refl
up_to-map t (e ∷ own) = ground (arith, up_to-map t own)

pub length-map : {A B : Type 0} (f : A → B) (xs : List A) → length (map f xs) ≡ length xs
length-map f [] = refl
length-map f (x ∷ xs) = ap suc (length-map f xs)

pub exceeds-some :
    (value : ℕ) (o : Option ℕ)
    → exceeds value o ≡ true
    → (limit : ℕ) × (o ≡ some limit) × (limit < value)
exceeds-some value none h = cc
exceeds-some value (some limit) h = (limit, refl, ltb→lt limit value h)

pub some-exceeds :
    (value limit : ℕ) (o : Option ℕ) → o ≡ some limit → limit < value → exceeds value o ≡ true
some-exceeds value limit o e h = rw e (lt→ltb limit value h)

abbrev pub rate_of : ℕ → ℕ → Fraction
rate_of n m =
    if n == 0
    then record { numerator = 0; denominator = 1 }
    else record { numerator = m; denominator = n }

-- with no requests there are no errors
pub rate_test :
    (limit : Fraction) (n m : ℕ)
    → m ≤ n
    → (rate_exceeds (rate_of n m) (some limit) ≡ true)
      ↔ (limit.numerator * n < m * limit.denominator)
rate_test limit n m few = elim (Bool-cases (n == 0)) [
  | inr positive ↦ rw positive (
    λ h. ltb→lt (limit.numerator * n) (m * limit.denominator) h,
    λ h. lt→ltb (limit.numerator * n) (m * limit.denominator) h,
  )
  | inl empty ↦
      let no_n : n ≡ 0 = eq_of_beq n 0 empty in
      let no_m : m ≡ 0 = omega (arith, few, no_n) in
      rw (no_n, no_m)
        (
          λ h. absurd (omega (arith, ltb→lt (limit.numerator * 1) (0 * limit.denominator) h)),
          λ h. absurd (omega (arith, h)),
        )
]
