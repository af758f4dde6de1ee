-- ===== src/Prelude/Lists.antt =====
-- Lists with native lengths, and the array methods the program uses with Boolean callbacks.
use Prim.Native.Nat.{ℕ, zero, suc, ◌+◌, ◌≤◌}
use mathlib.Core.Path.{◌≡◌, refl, ap}
use mathlib.Core.Logic.{◌⊎◌, inl, inr}
use mathlib.Core.Bool.{Bool, true, false, ◌&&◌, ◌||◌}
use mathlib.Core.Option.{Option, none, some}
use mathlib.Core.List.{List, [], ◌∷◌, ◌++◌, map}
use native.Mathlib.Omega.{arith}
use odenctl.Prelude.Tests.{if◌then◌else◌, Bool-cases}

module _ {ℓ} {A : Type ℓ} where
  abbrev pub length : List A → ℕ
  length [] = 0
  length (x ∷ xs) = suc (length xs)

  abbrev pub take : ℕ → List A → List A
  take zero xs = []
  take (suc n) [] = []
  take (suc n) (x ∷ xs) = x ∷ take n xs

  abbrev pub drop : ℕ → List A → List A
  drop zero xs = xs
  drop (suc n) [] = []
  drop (suc n) (x ∷ xs) = drop n xs

  abbrev pub get_elem? : List A → ℕ → Option A
  get_elem? [] i = none
  get_elem? (x ∷ xs) zero = some x
  get_elem? (x ∷ xs) (suc i) = get_elem? xs i

  -- `xs.filter(p)`, `xs.some(p)`, `xs.every(p)`, `xs.find(p)`
  abbrev pub filter : (A → Bool) → List A → List A
  filter p [] = []
  filter p (x ∷ xs) = let rest = filter p xs in if p x then x ∷ rest else rest

  abbrev pub any : (A → Bool) → List A → Bool
  any p [] = false
  any p (x ∷ xs) = p x || any p xs

  abbrev pub every : (A → Bool) → List A → Bool
  every p [] = true
  every p (x ∷ xs) = p x && every p xs

  abbrev pub find : (A → Bool) → List A → Option A
  find p [] = none
  find p (x ∷ xs) = if p x then some x else find p xs

  abbrev pub sum_by : (A → ℕ) → List A → ℕ
  sum_by f [] = 0
  sum_by f (x ∷ xs) = f x + sum_by f xs

module _ {ℓ κ} {A : Type ℓ} where
  abbrev pub All : (A → Type κ) → List A → Type κ
  All P [] = Unit
  All P (x ∷ xs) = P x × All P xs

-- Membership with its place, so that a proof can split on it.
module _ {A : Type 0} where
  abbrev pub Member : A → List A → Type 0
  Member a [] = ⊥
  Member a (x ∷ xs) = (a ≡ x) ⊎ Member a xs

  pub All-member : (P : A → Type 0) (xs : List A) → All P xs → {a : A} → Member a xs → P a
  All-member P (x ∷ xs) h (inl e) = rw e h.0
  All-member P (x ∷ xs) h (inr m) = All-member P xs h.1 m
  All-member P [] h m = absurd m

  pub All-of_Member : (P : A → Type 0) (xs : List A) → ((a : A) → Member a xs → P a) → All P xs
  All-of_Member P [] h = tt
  All-of_Member P (x ∷ xs) h = (h x (inl refl), All-of_Member P xs (λ a m. h a (inr m)))

  pub Member-filter :
      (p : A → Bool) (xs : List A) (a : A) → Member a (filter p xs) → Member a xs × (p a ≡ true)
  Member-filter p [] a m = absurd m
  Member-filter p (x ∷ xs) a m = elim (Bool-cases (p x)) [
    | inl here ↦
        let split : Member a (x ∷ filter p xs) = rw here at m in
        elim split [
          | inl q ↦ (inl q, rw q here)
          | inr n ↦ let (k, e) = Member-filter p xs a n in (inr k, e)
        ]
    | inr gone ↦ let (k, e) = Member-filter p xs a (rw gone at m) in (inr k, e)
  ]

  pub Member-filter_of :
      (p : A → Bool) (xs : List A) (a : A) → Member a xs → p a ≡ true → Member a (filter p xs)
  Member-filter_of p [] a m h = m
  Member-filter_of p (x ∷ xs) a (inl e) h = rw (← e, h) (inl refl)
  Member-filter_of p (x ∷ xs) a (inr m) h = elim (Bool-cases (p x)) [
    | inl here ↦ rw here (inr (Member-filter_of p xs a m h))
    | inr gone ↦ rw gone (Member-filter_of p xs a m h)
  ]

  pub any-witness :
      (p : A → Bool) (xs : List A) → any p xs ≡ true → (a : A) × Member a xs × (p a ≡ true)
  any-witness p [] h = cc
  any-witness p (x ∷ xs) h = elim (Bool-cases (p x)) [
    | inl here ↦ (x, inl refl, here)
    | inr gone ↦ let (a, m, e) = any-witness p xs (ground arith) in (a, inr m, e)
  ]

  pub any_of_Member :
      (p : A → Bool) (xs : List A) (a : A) → Member a xs → p a ≡ true → any p xs ≡ true
  any_of_Member p [] a m h = absurd m
  any_of_Member p (x ∷ xs) a (inl e) h = ground arith
  any_of_Member p (x ∷ xs) a (inr m) h = ground (arith, any_of_Member p xs a m h)

  pub find-some :
      (p : A → Bool) (xs : List A) (a : A) → find p xs ≡ some a → Member a xs × (p a ≡ true)
  find-some p [] a h = cc
  find-some p (x ∷ xs) a h = elim (Bool-cases (p x)) [
    | inl here ↦ (inl (ground arith), ground arith)
    | inr gone ↦ let (m, e) = find-some p xs a (ground arith) in (inr m, e)
  ]

  pub find-none :
      (p : A → Bool) (xs : List A) (a : A) → find p xs ≡ none → Member a xs → p a ≡ false
  find-none p [] a h m = absurd m
  find-none p (x ∷ xs) a h (inl e) = ground arith
  find-none p (x ∷ xs) a h (inr m) = find-none p xs a (ground arith) m

  pub length-filter-le : (p : A → Bool) (xs : List A) → length (filter p xs) ≤ length xs
  length-filter-le p [] = omega arith
  length-filter-le p (x ∷ xs) = ground (arith, length-filter-le p xs)

  pub Member-take : (n : ℕ) (xs : List A) (a : A) → Member a (take n xs) → Member a xs
  Member-take zero xs a m = absurd m
  Member-take (suc n) [] a m = absurd m
  Member-take (suc n) (x ∷ xs) a (inl e) = inl e
  Member-take (suc n) (x ∷ xs) a (inr m) = inr (Member-take n xs a m)

  pub length-take-le : (n : ℕ) (xs : List A) → length (take n xs) ≤ n
  length-take-le zero xs = omega arith
  length-take-le (suc n) [] = omega arith
  length-take-le (suc n) (x ∷ xs) = omega (arith, length-take-le n xs)

  pub take-append : (xs ys : List A) → take (length xs) (xs ++ ys) ≡ xs
  take-append [] ys = refl
  take-append (x ∷ xs) ys = ap (λ zs. x ∷ zs) (take-append xs ys)

  pub drop-append : (xs ys : List A) → drop (length xs) (xs ++ ys) ≡ ys
  drop-append [] ys = refl
  drop-append (x ∷ xs) ys = drop-append xs ys

  pub length-append : (xs ys : List A) → length (xs ++ ys) ≡ length xs + length ys
  length-append [] ys = omega arith
  length-append (x ∷ xs) ys = omega (arith, length-append xs ys)

module _ {A B : Type 0} (f : A → B) where
  pub map-Member : (xs : List A) (b : B) → Member b (map f xs) → (a : A) × Member a xs × (b ≡ f a)
  map-Member [] b m = absurd m
  map-Member (x ∷ xs) b (inl e) = (x, inl refl, e)
  map-Member (x ∷ xs) b (inr m) = let (a, k, e) = map-Member xs b m in (a, inr k, e)

  pub Member-map : (xs : List A) (a : A) → Member a xs → Member (f a) (map f xs)
  Member-map [] a m = absurd m
  Member-map (x ∷ xs) a (inl e) = inl (ap f e)
  Member-map (x ∷ xs) a (inr m) = inr (Member-map xs a m)
