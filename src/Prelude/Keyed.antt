-- ===== src/Prelude/Keyed.antt =====
-- `Map` by an ordered list whose elements carry their key: lookup, deletion, distinct keys, and a
-- measure summed over the elements.
use odenctl.Prelude.{
  ℕ, ◌+◌, ◌≤◌, ◌≡◌, refl, inl, inr, String, Bool, false, Option, none, some, List, [], ◌∷◌, ◌++◌,
  arith, length, filter, find, any, sum_by, string_eq, ◌==◌, not, beq_refl, beq_comm, Bool-cases,
  All, Member, Member-filter_of, any_of_Member, true, ap, ◌∙◌, ◌||◌,
}
use odenctl.Prelude.Sort.{insert, sort}

module _ {A : Type 0} (key : A → String) where
  abbrev pub has : String → List A → Bool
  has k = any (λ a. key a == k)

  abbrev pub get : String → List A → Option A
  get k = find (λ a. key a == k)

  abbrev pub without : String → List A → List A
  without k = filter (λ a. not (key a == k))

  abbrev pub Distinct : List A → Type 0
  Distinct [] = Unit
  Distinct (x ∷ xs) = (has (key x) xs ≡ false) × Distinct xs

  pub has-filter :
      (p : A → Bool) (k : String) (xs : List A) → has k xs ≡ false → has k (filter p xs) ≡ false
  has-filter p k [] h = refl
  has-filter p k (x ∷ xs) h = ground (arith, has-filter p k xs)

  pub Distinct-filter : (p : A → Bool) (xs : List A) → Distinct xs → Distinct (filter p xs)
  Distinct-filter p [] d = tt
  Distinct-filter p (x ∷ xs) d = elim (Bool-cases (p x)) [
    | inl kept ↦ rw kept (has-filter p (key x) xs d.0, Distinct-filter p xs d.1)
    | inr gone ↦ rw gone (Distinct-filter p xs d.1)
  ]

  pub has-without_self : (k : String) (xs : List A) → has k (without k xs) ≡ false
  has-without_self k [] = refl
  has-without_self k (x ∷ xs) = ground (arith, has-without_self k xs)

  pub without_absent : (k : String) (xs : List A) → has k xs ≡ false → without k xs ≡ xs
  without_absent k [] h = refl
  without_absent k (x ∷ xs) h = ground (arith, without_absent k xs)

  pub get-none-has : (k : String) (xs : List A) → get k xs ≡ none → has k xs ≡ false
  get-none-has k [] h = refl
  get-none-has k (x ∷ xs) h = ground (arith, get-none-has k xs)

  pub has-append_absent :
      (k : String) (xs : List A) (a : A)
      → has k xs ≡ false
      → (key a == k) ≡ false
      → has k (xs ++ a ∷ []) ≡ false
  has-append_absent k [] a h e = ground arith
  has-append_absent k (x ∷ xs) a h e = ground (arith, has-append_absent k xs a)

  pub Distinct-append :
      (xs : List A) (a : A) → Distinct xs → has (key a) xs ≡ false → Distinct (xs ++ a ∷ [])
  Distinct-append [] a d h = (refl, tt)
  Distinct-append (x ∷ xs) a d h = (
    has-append_absent (key x) xs a d.0
        (ground (arith, string_eq.beq_iff (key x) (key a), string_eq.beq_iff (key a) (key x))),
    Distinct-append xs a d.1 (ground arith),
  )

  pub get-append_absent :
      (xs : List A) (a : A) → has (key a) xs ≡ false → get (key a) (xs ++ a ∷ []) ≡ some a
  get-append_absent [] a h = rw (beq_refl (key a))
  get-append_absent (x ∷ xs) a h = ground (arith, get-append_absent xs a)

  -- Deleting a key takes the measure of its one element off the sum.
  pub sum-without :
      (f : A → ℕ) (k : String) (xs : List A) (a : A)
      → Distinct xs
      → get k xs ≡ some a
      → sum_by f (without k xs) + f a ≡ sum_by f xs
  sum-without f k [] a d h = cc
  sum-without f k (x ∷ xs) a d h = elim (Bool-cases (key x == k)) [
    | inl here ↦
        let same : key x ≡ k = (string_eq.beq_iff (key x) k).0 here in
        let rest : without k xs ≡ xs = without_absent k xs (rw (← same) d.0) in
        let first : x ≡ a = ground arith in rw (here, rest, first) (omega arith)
    | inr other ↦ rw other (omega (arith, sum-without f k xs a d.1 (ground arith)))
  ]

  pub get-Member : (xs : List A) (a : A) → Distinct xs → Member a xs → get (key a) xs ≡ some a
  get-Member [] a d m = absurd m
  get-Member (x ∷ xs) a d (inl e) = rw (← e, beq_refl (key a)) refl
  get-Member (x ∷ xs) a d (inr m) =
      let seen : has (key a) xs ≡ true = any_of_Member _ xs a m (beq_refl (key a)) in
      ground (arith, get-Member xs a d.1 m, string_eq.beq_iff (key x) (key a), d.0, seen)

  -- An element whose key is another one stays.
  pub Member-without :
      (k : String) (xs : List A) (a : A)
      → Member a xs
      → (key a == k) ≡ false
      → Member a (without k xs)
  Member-without k xs a m other = Member-filter_of (λ x. not (key x == k)) xs a m (rw other refl)

  has-insert :
      (before : A → A → Bool) (k : String) (x : A) (ys : List A)
      → has k (insert before x ys) ≡ ((key x == k) || has k ys)
  unfolding insert
  has-insert before k x [] = refl
  has-insert before k x (y ∷ ys) = ground (arith, has-insert before k x ys)

  has-sort : (before : A → A → Bool) (k : String) (xs : List A) → has k (sort before xs) ≡ has k xs
  unfolding sort
  has-sort before k [] = refl
  has-sort before k (x ∷ xs) =
      has-insert before k x (sort before xs) ∙ ap (λ b. (key x == k) || b) (has-sort before k xs)

  Distinct-insert :
      (before : A → A → Bool) (x : A) (ys : List A)
      → has (key x) ys ≡ false
      → Distinct ys
      → Distinct (insert before x ys)
  unfolding insert
  Distinct-insert before x [] h d = (refl, tt)
  Distinct-insert before x (y ∷ ys) h d = elim (Bool-cases (before x y)) [
    | inl first ↦ rw first (h, d)
    | inr later ↦ rw later (
      has-insert before (key y) x ys ∙ rw (beq_comm (key x) (key y), d.0) (ground arith),
      Distinct-insert before x ys (ground arith) d.1,
    )
  ]

  pub Distinct-sort :
      (before : A → A → Bool) (xs : List A) → Distinct xs → Distinct (sort before xs)
  unfolding sort
  Distinct-sort before [] d = tt
  Distinct-sort before (x ∷ xs) d =
      Distinct-insert before x (sort before xs) (has-sort before (key x) xs ∙ d.0)
        (Distinct-sort before xs d.1)

  pub length-without :
      (k : String) (xs : List A) (a : A)
      → Distinct xs
      → get k xs ≡ some a
      → length (without k xs) + 1 ≡ length xs
  length-without k [] a d h = cc
  length-without k (x ∷ xs) a d h = elim (Bool-cases (key x == k)) [
    | inl here ↦
        let same : key x ≡ k = (string_eq.beq_iff (key x) k).0 here in
        let rest : without k xs ≡ xs = without_absent k xs (rw (← same) d.0) in
        rw (here, rest) (omega arith)
    | inr other ↦ rw other (omega (arith, length-without k xs a d.1 (ground arith)))
  ]

module _ {A : Type 0} where
  pub sum_by-filter-le :
      (f : A → ℕ) (p : A → Bool) (xs : List A) → sum_by f (filter p xs) ≤ sum_by f xs
  sum_by-filter-le f p [] = omega arith
  sum_by-filter-le f p (x ∷ xs) = ground (arith, sum_by-filter-le f p xs)

  pub sum_by-append :
      (f : A → ℕ) (xs : List A) (a : A) → sum_by f (xs ++ a ∷ []) ≡ sum_by f xs + f a
  sum_by-append f [] a = omega arith
  sum_by-append f (x ∷ xs) a = omega (arith, sum_by-append f xs a)

  pub All-filter : (P : A → Type 0) (p : A → Bool) (xs : List A) → All P xs → All P (filter p xs)
  All-filter P p [] h = tt
  All-filter P p (x ∷ xs) h = elim (Bool-cases (p x)) [
    | inl kept ↦ rw kept (h.0, All-filter P p xs h.1)
    | inr gone ↦ rw gone (All-filter P p xs h.1)
  ]

  pub All-append : (P : A → Type 0) (xs : List A) (a : A) → All P xs → P a → All P (xs ++ a ∷ [])
  All-append P [] a h p = (p, tt)
  All-append P (x ∷ xs) a h p = (h.0, All-append P xs a h.1 p)
