-- ===== src/ControlPlane/Snapshots/Listing.antt =====
-- The order in which the repository lists the routes.
use odenctl.Prelude.{
  ℕ, ◌≤◌, ◌<◌, ◌≡◌, ◌≢◌, sym, subst, ◌∙◌, inl, inr, Bool, true, false, nat_eq, ◌==◌, length, ltb,
  Bool-cases, eq_of_beq, ne_of_beq, beq_refl, beq_of_ne, ltb→lt, lt→ltb, ltb→ge, arith,
}
use odenctl.Prelude.Sort.{IsTotalPreorder}
use odenctl.Prelude.Text.{Text, text_eq}
use odenctl.ControlPlane.Routes.{RoutePointer}
use odenctl.ControlPlane.Snapshots.{listed_before}

-- The order of texts of the database puts two texts that differ one before the other.
pub record IsTextOrder (collates : Text → Text → Bool) : Type 0 where
  pub total : (s t : Text) → collates s t ≡ false → collates t s ≡ true
  pub trans : (s t u : Text) → collates s t ≡ true → collates t u ≡ true → collates s u ≡ true
  pub antisym : (s t : Text) → collates s t ≡ true → collates t s ≡ true → s ≡ t

-- What `listed_before` says, as a relation.
data IsBefore (collates : Text → Text → Bool) (a b : RoutePointer) : Type 0 where
  by_host : a.host ≢ b.host → collates a.host b.host ≡ true → IsBefore collates a b
  by_length :
      a.host ≡ b.host
      → ltb (length b.path_prefix) (length a.path_prefix) ≡ true
      → IsBefore collates a b
  by_prefix :
      a.host ≡ b.host
      → length a.path_prefix ≡ length b.path_prefix
      → collates a.path_prefix b.path_prefix ≡ true
      → IsBefore collates a b

module _ (collates : Text → Text → Bool) where
  listed_before-IsBefore :
      (a b : RoutePointer) → listed_before collates a b ≡ true → IsBefore collates a b
  listed_before-IsBefore a b h = elim (Bool-cases (a.host == b.host)) [
    | inr other ↦ by_host (ne_of_beq a.host b.host other) (rw other at h)
    | inl same ↦ elim (Bool-cases (length a.path_prefix == length b.path_prefix)) [
      | inl long ↦
          by_prefix (eq_of_beq a.host b.host same)
            (eq_of_beq (length a.path_prefix) (length b.path_prefix) long)
            (rw long at (rw same at h))
      | inr longer ↦ by_length (eq_of_beq a.host b.host same) (rw longer at (rw same at h))
    ]
  ]

  IsBefore-listed_before :
      (a b : RoutePointer) → IsBefore collates a b → listed_before collates a b ≡ true
  IsBefore-listed_before a b (by_host apart h) = rw (beq_of_ne a.host b.host apart) h
  IsBefore-listed_before a b (by_length same h) =
      let ne : length a.path_prefix ≢ length b.path_prefix =
        λ e. omega (arith, ltb→lt (length b.path_prefix) (length a.path_prefix) h, e) in
      rw (same, beq_refl b.host) (rw (beq_of_ne (length a.path_prefix) (length b.path_prefix) ne) h)
  IsBefore-listed_before a b (by_prefix same long h) =
      rw (same, beq_refl b.host) (rw (long, beq_refl (length b.path_prefix)) h)

  IsBefore-trans :
      IsTextOrder collates
      → (a b c : RoutePointer) → IsBefore collates a b
      → IsBefore collates b c
      → IsBefore collates a c
  IsBefore-trans o a b c (by_host n h) (by_host m k) =
      by_host (λ e. n (o.antisym a.host b.host h (subst (λ t. collates b.host t ≡ true) (sym e) k)))
        (o.trans a.host b.host c.host h k)
  IsBefore-trans o a b c (by_host n h) (by_length e k) =
      by_host (λ f. n (f ∙ sym e)) (subst (λ t. collates a.host t ≡ true) e h)
  IsBefore-trans o a b c (by_host n h) (by_prefix e l k) =
      by_host (λ f. n (f ∙ sym e)) (subst (λ t. collates a.host t ≡ true) e h)
  IsBefore-trans o a b c (by_length e h) (by_host m k) =
      by_host (λ f. m (sym e ∙ f)) (subst (λ t. collates t c.host ≡ true) (sym e) k)
  IsBefore-trans o a b c (by_length e h) (by_length f k) = by_length (e ∙ f) (
      lt→ltb _ _ (
        omega (
          arith,
          ltb→lt (length b.path_prefix) (length a.path_prefix) h,
          ltb→lt (length c.path_prefix) (length b.path_prefix) k,
        )))
  IsBefore-trans o a b c (by_length e h) (by_prefix f l k) =
      by_length (e ∙ f) (subst (λ n. ltb n (length a.path_prefix) ≡ true) l h)
  IsBefore-trans o a b c (by_prefix e l h) (by_host m k) =
      by_host (λ f. m (sym e ∙ f)) (subst (λ t. collates t c.host ≡ true) (sym e) k)
  IsBefore-trans o a b c (by_prefix e l h) (by_length f k) =
      by_length (e ∙ f) (subst (λ n. ltb (length c.path_prefix) n ≡ true) (sym l) k)
  IsBefore-trans o a b c (by_prefix e l h) (by_prefix f m k) =
      by_prefix (e ∙ f) (l ∙ m) (o.trans a.path_prefix b.path_prefix c.path_prefix h k)

  listed_before-total :
      IsTextOrder collates
      → (a b : RoutePointer) → listed_before collates a b ≡ false
      → listed_before collates b a ≡ true
  listed_before-total o a b h = elim (Bool-cases (a.host == b.host)) [
    | inr other ↦
        let apart = ne_of_beq a.host b.host other in
        IsBefore-listed_before b a
          (by_host (λ e. apart (sym e)) (o.total a.host b.host (rw other at h)))
    | inl same ↦
        let e = eq_of_beq a.host b.host same in
        elim (Bool-cases (length a.path_prefix == length b.path_prefix)) [
          | inl long ↦ IsBefore-listed_before b a (
              by_prefix (sym e) (sym (eq_of_beq (length a.path_prefix) (length b.path_prefix) long))
                (o.total a.path_prefix b.path_prefix (rw long at (rw same at h))))
          | inr other ↦
              let ne = ne_of_beq (length a.path_prefix) (length b.path_prefix) other in
              let le =
                ltb→ge (length b.path_prefix) (length a.path_prefix) (rw other at (rw same at h)) in
              IsBefore-listed_before b a (by_length (sym e) (lt→ltb _ _ (strict _ _ le ne)))
        ]
  ]
    where
      strict : (m n : ℕ) → m ≤ n → m ≢ n → m < n
      strict m n le ne = ground (arith, le, ne)

  pub listed_before-order : IsTextOrder collates → IsTotalPreorder (listed_before collates)
  listed_before-order o = record {
    total = listed_before-total o;
    trans = λ a b c h k.
        IsBefore-listed_before a c
          (IsBefore-trans o a b c (listed_before-IsBefore a b h) (listed_before-IsBefore b c k));
  }
