-- ===== src/ControlPlane/Replication/Fresh.antt =====
-- Freshness as an order on the snapshots whose time can be read.
use odenctl.Prelude.{
  ℕ, ◌≡◌, refl, sym, ap, ◌∙◌, inl, inr, String, Bool, true, false, ◌&&◌, ◌||◌, Option, none, some,
  arith, ltb, nat_eq, string_eq, ◌==◌, or_else, Bool-cases, eq_of_beq,
}
use odenctl.Contracts.{RouteSnapshot}
use odenctl.ControlPlane.Replication.{same_id, id_is_staler, is_staler}

-- What the comparison of texts must satisfy.
pub record IsStrictOrder (precedes : String → String → Bool) : Type 0 where
  pub asym : (a b : String) → precedes a b ≡ true → precedes b a ≡ false
  pub cotrans :
      (a b c : String) → precedes a b ≡ false → precedes b c ≡ false → precedes a c ≡ false

module _ (date_parse : String → Option ℕ) (precedes : String → String → Bool)
    (order : IsStrictOrder precedes) where
  abbrev pub IsDated : RouteSnapshot → Type 0
  IsDated s = (t : ℕ) × (date_parse s.generated_at ≡ some t)

  abbrev key : RouteSnapshot → String
  key s = or_else s.id ""

  irreflexive : (a : String) → precedes a a ≡ false
  irreflexive a = ground (arith, order.asym a a)

  same_id-key : (a b : Option String) → same_id a b ≡ true → or_else a "" ≡ or_else b ""
  same_id-key none none h = refl
  same_id-key none (some b) h = cc
  same_id-key (some a) none h = cc
  same_id-key (some a) (some b) h = eq_of_beq a b h

  id_is_staler-key :
      (l r : RouteSnapshot) → id_is_staler date_parse precedes l r ≡ precedes (key l) (key r)
  unfolding id_is_staler
  id_is_staler-key l r = elim (Bool-cases (same_id l.id r.id)) [
    | inr other ↦ rw other refl
    | inl same ↦ rw (same, same_id-key l.id r.id same) (sym (irreflexive (key r)))
  ]

  -- By time first, then by id.
  is_staler-dated :
      (l r : RouteSnapshot) (a b : ℕ)
      → date_parse l.generated_at ≡ some a
      → date_parse r.generated_at ≡ some b
      → is_staler date_parse precedes l r ≡ (ltb a b || (a == b && precedes (key l) (key r)))
  unfolding is_staler
  is_staler-dated l r a b p q = rw (is_staler, p) (rw q (rw (id_is_staler-key l r) (ground arith)))

  pub is_staler-asym :
      (l r : RouteSnapshot)
      → IsDated l
      → IsDated r
      → is_staler date_parse precedes l r ≡ true
      → is_staler date_parse precedes r l ≡ false
  is_staler-asym l r (a, p) (b, q) h =
      let here : (ltb a b || (a == b && precedes (key l) (key r))) ≡ true =
        sym (is_staler-dated l r a b p q) ∙ h in
      is_staler-dated r l b a q p ∙ ground (arith, order.asym (key l) (key r))

  pub is_staler-cotrans :
      (l m r : RouteSnapshot)
      → IsDated l
      → IsDated m
      → IsDated r
      → is_staler date_parse precedes l m ≡ false
      → is_staler date_parse precedes m r ≡ false
      → is_staler date_parse precedes l r ≡ false
  is_staler-cotrans l m r (a, p) (b, q) (c, s) h k =
      let left : (ltb a b || (a == b && precedes (key l) (key m))) ≡ false =
        sym (is_staler-dated l m a b p q) ∙ h in
      let right : (ltb b c || (b == c && precedes (key m) (key r))) ≡ false =
        sym (is_staler-dated m r b c q s) ∙ k in
      is_staler-dated l r a c p s ∙ ground (arith, order.cotrans (key l) (key m) (key r))

  -- Two snapshots of which none is staler have the same time.
  pub same_time :
      (l r : RouteSnapshot)
      → IsDated l
      → IsDated r
      → is_staler date_parse precedes l r ≡ false
      → is_staler date_parse precedes r l ≡ false
      → date_parse l.generated_at ≡ date_parse r.generated_at
  same_time l r (a, p) (b, q) h k =
      let left : (ltb a b || (a == b && precedes (key l) (key r))) ≡ false =
        sym (is_staler-dated l r a b p q) ∙ h in
      let right : (ltb b a || (b == a && precedes (key r) (key l))) ≡ false =
        sym (is_staler-dated r l b a q p) ∙ k in
      let same : a ≡ b = ground arith in p ∙ ap some same ∙ sym q
