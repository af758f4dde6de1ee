-- ===== src/Runtime/Packing/Entries.antt =====
-- Lists of warm deployments by their ids, and what evicting does to them.
use odenctl.Prelude.{
  ◌≤◌, ◌≡◌, ◌≢◌, refl, sym, ap, ◌∙◌, inl, inr, String, Bool, true, false, some, List, [], ◌∷◌, ◌++◌,
  arith, length, filter, find, Member, Bool-cases, string_eq, ◌==◌, beq_refl,
}
use odenctl.Runtime.Packing.{Entry, Supervisor, Reason, without, has, evict_deployment}

-- No deployment is warm twice.
abbrev pub Distinct : List Entry → Type 0
Distinct [] = Unit
Distinct (e ∷ es) = (has e.deployment_id es ≡ false) × Distinct es

pub has-filter :
    (p : Entry → Bool) (id : String) (xs : List Entry)
    → has id xs ≡ false
    → has id (filter p xs) ≡ false
has-filter p id [] h = refl
has-filter p id (x ∷ xs) h = ground (arith, has-filter p id xs)

pub Distinct-filter : (p : Entry → Bool) (xs : List Entry) → Distinct xs → Distinct (filter p xs)
Distinct-filter p [] d = tt
Distinct-filter p (x ∷ xs) d = elim (Bool-cases (p x)) [
  | inl kept ↦ rw kept (has-filter p x.deployment_id xs d.0, Distinct-filter p xs d.1)
  | inr gone ↦ rw gone (Distinct-filter p xs d.1)
]

pub without_absent : (id : String) (xs : List Entry) → has id xs ≡ false → without id xs ≡ xs
without_absent id [] h = refl
without_absent id (x ∷ xs) h = ground (arith, without_absent id xs)

pub filter_comm :
    (p q : Entry → Bool) (xs : List Entry) → filter p (filter q xs) ≡ filter q (filter p xs)
filter_comm p q [] = refl
filter_comm p q (x ∷ xs) = ground (arith, filter_comm p q xs)

pub filter_all : (xs : List Entry) → filter (λ x. true) xs ≡ xs
filter_all [] = refl
filter_all (x ∷ xs) = ap (◌∷◌ x) (filter_all xs)

pub length-filter-filter :
    (p q : Entry → Bool) (xs : List Entry) → length (filter q (filter p xs)) ≤ length (filter q xs)
length-filter-filter p q [] = omega arith
length-filter-filter p q (x ∷ xs) = ground (arith, length-filter-filter p q xs)

pub find-without :
    (id k : String) (xs : List Entry)
    → id ≢ k
    → find (λ e. e.deployment_id == k) (without id xs) ≡ find (λ e. e.deployment_id == k) xs
find-without id k [] h = refl
find-without id k (x ∷ xs) h = ground (
  arith,
  find-without id k xs h,
  string_eq.beq_iff x.deployment_id id,
  string_eq.beq_iff x.deployment_id k,
)

-- The entries of one id are at most one.
pub Distinct-one :
    (id : String) (xs : List Entry)
    → Distinct xs
    → ((e : Entry) → Member e xs → e.deployment_id ≡ id)
    → length xs ≤ 1
Distinct-one id [] d h = omega arith
Distinct-one id (x ∷ []) d h = omega arith
Distinct-one id (x ∷ y ∷ ys) d h =
    let same : x.deployment_id ≡ y.deployment_id = h x (inl refl) ∙ sym (h y (inr (inl refl))) in
    ground (arith, string_eq.beq_iff y.deployment_id x.deployment_id)

pub Distinct-append :
    (xs : List Entry) (e : Entry)
    → Distinct xs
    → has e.deployment_id xs ≡ false
    → Distinct (xs ++ e ∷ [])
Distinct-append [] e d h = (refl, tt)
Distinct-append (x ∷ xs) e d h =
    let other : (x.deployment_id == e.deployment_id) ≡ false = ground arith in
    (has_append xs other d.0, Distinct-append xs e d.1 (ground arith))
  where
    has_append :
        (ys : List Entry)
        → (x.deployment_id == e.deployment_id) ≡ false
        → has x.deployment_id ys ≡ false
        → has x.deployment_id (ys ++ e ∷ []) ≡ false
    has_append [] o a = ground (
      arith,
      string_eq.beq_iff x.deployment_id e.deployment_id,
      string_eq.beq_iff e.deployment_id x.deployment_id,
    )
    has_append (y ∷ ys) o a = ground (arith, has_append ys o)

pub find-append_absent :
    (xs : List Entry) (e : Entry)
    → has e.deployment_id xs ≡ false
    → find (λ x. x.deployment_id == e.deployment_id) (xs ++ e ∷ []) ≡ some e
find-append_absent [] e h = rw (beq_refl e.deployment_id)
find-append_absent (x ∷ xs) e h = ground (arith, find-append_absent xs e)

pub length-filter-append :
    (p : Entry → Bool) (xs : List Entry) (e : Entry)
    → p e ≡ false
    → filter p (xs ++ e ∷ []) ≡ filter p xs
length-filter-append p [] e h = rw h
length-filter-append p (x ∷ xs) e h = ground (arith, length-filter-append p xs e h)

-- Evicting drops the id, warm or not.
pub prepared-evict :
    (id : String) (reason : Reason) (s : Supervisor)
    → (evict_deployment id reason s).prepared ≡ without id s.prepared
unfolding evict_deployment
prepared-evict id reason s = elim (Bool-cases (has id s.prepared)) [
  | inl warm ↦ rw warm
  | inr cold ↦ rw cold (sym (without_absent id s.prepared cold))
]
