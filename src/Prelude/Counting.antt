-- ===== src/Prelude/Counting.antt =====
-- How many elements of a list have a property, without a test that decides it.
use odenctl.Prelude.{
  ℕ, suc, ◌≡◌, ◌⊎◌, refl, sym, ap, ◌∙◌, inl, inr, Bool, true, false, List, [], ◌∷◌, length, filter,
  Bool-cases,
}

module _ {A : Type 0} (P : A → Type 0) where
  abbrev pub Counts : List A → ℕ → Type 0
  Counts [] n = n ≡ 0
  Counts (x ∷ xs) n = (P x × ((m : ℕ) × (n ≡ suc m) × Counts xs m)) ⊎ ((¬ (P x)) × Counts xs n)

  pub Counts-unique : (xs : List A) (m n : ℕ) → Counts xs m → Counts xs n → m ≡ n
  Counts-unique [] m n h k = h ∙ sym k
  Counts-unique (x ∷ xs) m n (inl (p, (m', e, h))) (inl (q, (n', f, k))) =
      e ∙ ap suc (Counts-unique xs m' n' h k) ∙ sym f
  Counts-unique (x ∷ xs) m n (inl (p, h)) (inr (q, k)) = absurd (q p)
  Counts-unique (x ∷ xs) m n (inr (p, h)) (inl (q, k)) = absurd (p q)
  Counts-unique (x ∷ xs) m n (inr (p, h)) (inr (q, k)) = Counts-unique xs m n h k

  -- A test that decides the property counts it.
  pub Counts-filter :
      (p : A → Bool)
      → ((a : A) → p a ≡ true → P a)
      → ((a : A) → P a → p a ≡ true)
      → (xs : List A) → Counts xs (length (filter p xs))
  Counts-filter p sound whole [] = refl
  Counts-filter p sound whole (x ∷ xs) = elim (Bool-cases (p x)) [
    | inl yes_it ↦ rw yes_it (inl (sound x yes_it, (_, refl, Counts-filter p sound whole xs)))
    | inr no_it ↦
        rw no_it (inr ((λ h. differ (sym (whole x h) ∙ no_it)), Counts-filter p sound whole xs))
  ]
    where
      differ : true ≡ false → ⊥
      differ e = cc
