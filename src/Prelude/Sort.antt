-- ===== src/Prelude/Sort.antt =====
-- `Array.prototype.sort`: the stable sort by a comparator, here by its test `cmp(a, b) <= 0`.
use odenctl.Prelude.{
  suc, ◌≡◌, refl, ◌⊎◌, inl, inr, Bool, true, false, List, [], ◌∷◌, arith, length, Member, All,
  All-member, All-of_Member, Bool-cases, if◌then◌else◌,
}

module _ {A : Type 0} (before : A → A → Bool) where
  unfoldable pub insert : A → List A → List A
  insert x [] = x ∷ []
  insert x (y ∷ ys) = let rest = insert x ys in if before x y then x ∷ y ∷ ys else y ∷ rest

  unfoldable pub sort : List A → List A
  unfolding insert
  sort [] = []
  sort (x ∷ xs) = insert x (sort xs)

  -- Each element stands before all that follow it.
  abbrev pub IsSorted : List A → Type 0
  IsSorted [] = Unit
  IsSorted (x ∷ xs) = All (λ y. before x y ≡ true) xs × IsSorted xs

  Member-insert : (x : A) (ys : List A) (a : A) → Member a (insert x ys) → (a ≡ x) ⊎ Member a ys
  unfolding insert
  Member-insert x [] a m = m
  Member-insert x (y ∷ ys) a m = elim (Bool-cases (before x y)) [
    | inl first ↦ rw first at m
    | inr later ↦
        let split : Member a (y ∷ insert x ys) = rw later at m in
        elim split [
          | inl e ↦ inr (inl e)
          | inr n ↦ elim (Member-insert x ys a n) [ inl e ↦ inl e | inr k ↦ inr (inr k) ]
        ]
  ]

  insert-Member : (x : A) (ys : List A) (a : A) → (a ≡ x) ⊎ Member a ys → Member a (insert x ys)
  unfolding insert
  insert-Member x [] a m = m
  insert-Member x (y ∷ ys) a m = elim (Bool-cases (before x y)) [
    | inl first ↦ rw first m
    | inr later ↦ rw later (elim m [
      | inl e ↦ inr (insert-Member x ys a (inl e))
      | inr (inl e) ↦ inl e
      | inr (inr n) ↦ inr (insert-Member x ys a (inr n))
    ])
  ]

  -- Sorting neither drops nor invents an element.
  pub Member-sort : (xs : List A) (a : A) → Member a (sort xs) → Member a xs
  unfolding sort
  Member-sort [] a m = m
  Member-sort (x ∷ xs) a m = elim (Member-insert x (sort xs) a m) [
    | inl e ↦ inl e
    | inr n ↦ inr (Member-sort xs a n)
  ]

  pub sort-Member : (xs : List A) (a : A) → Member a xs → Member a (sort xs)
  unfolding sort
  sort-Member [] a m = m
  sort-Member (x ∷ xs) a (inl e) = insert-Member x (sort xs) a (inl e)
  sort-Member (x ∷ xs) a (inr m) = insert-Member x (sort xs) a (inr (sort-Member xs a m))

  length-insert : (x : A) (ys : List A) → length (insert x ys) ≡ suc (length ys)
  unfolding insert
  length-insert x [] = refl
  length-insert x (y ∷ ys) = ground (arith, length-insert x ys)

  pub length-sort : (xs : List A) → length (sort xs) ≡ length xs
  unfolding sort
  length-sort [] = refl
  length-sort (x ∷ xs) = omega (arith, length-insert x (sort xs), length-sort xs)

-- What a comparator must satisfy for the result to be ordered.
pub record IsTotalPreorder {A : Type 0} (before : A → A → Bool) : Type 0 where
  pub total : (a b : A) → before a b ≡ false → before b a ≡ true
  pub trans : (a b c : A) → before a b ≡ true → before b c ≡ true → before a c ≡ true

module _ {A : Type 0} (before : A → A → Bool) (o : IsTotalPreorder before) where
  All-before-weaken :
      (x y : A) (ys : List A)
      → before x y ≡ true
      → All (λ z. before y z ≡ true) ys
      → All (λ z. before x z ≡ true) ys
  All-before-weaken x y [] h all = tt
  All-before-weaken x y (z ∷ zs) h all = (o.trans x y z h all.0, All-before-weaken x y zs h all.1)

  insert-IsSorted :
      (x : A) (ys : List A) → IsSorted before ys → IsSorted before (insert before x ys)
  unfolding insert
  insert-IsSorted x [] s = (tt, tt)
  insert-IsSorted x (y ∷ ys) s = elim (Bool-cases (before x y)) [
    | inl first ↦ rw first ((first, All-before-weaken x y ys first s.0), s)
    | inr later ↦ rw later (
      All-of_Member (λ z. before y z ≡ true) (insert before x ys)
          (λ a m. fits (o.total x y later) (Member-insert before x ys a m)),
      insert-IsSorted x ys s.1,
    )
  ]
    where
      fits : {a : A} → before y x ≡ true → (a ≡ x) ⊎ Member a ys → before y a ≡ true
      fits h (inl e) = rw e h
      fits h (inr m) = All-member (λ z. before y z ≡ true) ys s.0 m

  pub sort-IsSorted : (xs : List A) → IsSorted before (sort before xs)
  unfolding sort
  sort-IsSorted [] = tt
  sort-IsSorted (x ∷ xs) = insert-IsSorted x (sort before xs) (sort-IsSorted xs)
