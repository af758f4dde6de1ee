-- ===== src/ControlPlane/Canary/Percentiles.antt =====
-- The 95th percentile of a list, by counting.
use odenctl.Prelude.{
  ℕ, zero, suc, ◌*◌, ◌≤◌, ◌<◌, ◌≡◌, refl, ◌∙◌, ◌↔◌, inl, inr, Bool, true, List, [], ◌∷◌, arith,
  length, filter, get_elem?, leb, leb→le, le→leb, leb→gt, or_else, All, Bool-cases,
}
use odenctl.Prelude.Sort.{sort, insert, IsSorted, IsTotalPreorder, sort-IsSorted, length-sort}
use odenctl.ControlPlane.Canary.{rank, percentile}

-- the elements up to a bound
abbrev pub up_to : ℕ → List ℕ → ℕ
up_to t xs = length (filter (λ x. leb x t) xs)

module _ {A : Type 0} (before : A → A → Bool) (p : A → Bool) where
  count-insert :
      (x : A) (ys : List A) → length (filter p (insert before x ys)) ≡ length (filter p (x ∷ ys))
  unfolding insert
  count-insert x [] = refl
  count-insert x (y ∷ ys) = ground (arith, count-insert x ys)

  pub count-sort : (xs : List A) → length (filter p (sort before xs)) ≡ length (filter p xs)
  unfolding sort
  count-sort [] = refl
  count-sort (x ∷ xs) = count-insert x (sort before xs) ∙ ground (arith, count-sort xs)

leb-order : IsTotalPreorder leb
leb-order = record {
  total = λ a b h. le→leb b a (omega (arith, leb→gt a b h));
  trans = λ a b c h k. le→leb a c (omega (arith, leb→le a b h, leb→le b c k));
}

none_below : (t y : ℕ) (ys : List ℕ) → t < y → All (λ z. leb y z ≡ true) ys → up_to t ys ≡ 0
none_below t y [] h all = refl
none_below t y (z ∷ zs) h (first, rest) = ground (arith, leb→le y z first, none_below t y zs h rest)

-- In a sorted list the element at a place is above a bound exactly if no more elements than stand
-- before the place are up to the bound.
nth-above :
    (t : ℕ) (ys : List ℕ) (i : ℕ)
    → IsSorted leb ys
    → i < length ys
    → (t < or_else (get_elem? ys i) 0) ↔ (up_to t ys ≤ i)
nth-above t [] i s h = absurd (omega (arith, h))
nth-above t (y ∷ ys) zero s h = elim (Bool-cases (leb y t)) [
  | inl low ↦ rw low (λ above. omega (arith, leb→le y t low, above), λ few. omega (arith, few))
  | inr high ↦
      rw high
        (λ above. omega (arith, none_below t y ys (leb→gt y t high) s.0), λ few. leb→gt y t high)
]
nth-above t (y ∷ ys) (suc i) s h = elim (Bool-cases (leb y t)) [
  | inl low ↦
      let (there, back) = nth-above t ys i s.1 (omega (arith, h)) in
      rw low (λ above. omega (arith, there above), λ few. back (omega (arith, few)))
  | inr high ↦
      let nothing = none_below t y ys (leb→gt y t high) s.0 in
      let (there, back) = nth-above t ys i s.1 (omega (arith, h)) in
      rw high (λ above. omega (arith, nothing), λ few. back (omega (arith, nothing)))
]

-- the place of the percentile
rank-low : (n : ℕ) → 0 < n → rank n 95 < n
rank-low n h = ground arith

rank-count : (n c : ℕ) → 0 < n → (c ≤ rank n 95) ↔ (100 * c < 95 * n)
rank-count n c h = (λ few. ground arith, λ few. ground arith)

sorted_percentile :
    (t : ℕ) (ys : List ℕ)
    → IsSorted leb ys
    → (t < percentile ys 95) ↔ (100 * up_to t ys < 95 * length ys)
unfolding percentile
sorted_percentile t [] s = (λ h. omega (arith, h), λ h. omega (arith, h))
sorted_percentile t (y ∷ ys) s =
    let n = length (y ∷ ys) in
    let (above, back) = nth-above t (y ∷ ys) (rank n 95) s (rank-low n (omega arith)) in
    let (fewer, enough) = rank-count n (up_to t (y ∷ ys)) (omega arith) in
    (λ h. fewer (above h), λ h. back (enough h))

-- The 95th percentile is above a bound exactly if fewer than 95 of 100 values are up to the bound.
pub percentile-above :
    (t : ℕ) (xs : List ℕ) → (t < percentile (sort leb xs) 95) ↔ (100 * up_to t xs < 95 * length xs)
percentile-above t xs =
    let (there, back) = sorted_percentile t (sort leb xs) (sort-IsSorted leb leb-order xs) in
    let same = count-sort leb (λ x. leb x t) xs in
    let size = length-sort leb xs in
    (λ h. omega (arith, there h, same, size), λ h. back (omega (arith, h, same, size)))
