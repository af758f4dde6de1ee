-- ===== src/ControlPlane/Placement/Rules.antt =====
-- Which nodes a placement rule selects.
use odenctl.ControlPlane.Errors.{ok_injective}
use odenctl.Prelude.{
  ℕ, ◌≤◌, ◌<◌, ◌≡◌, refl, sym, subst, inl, inr, String, Bool, true, Option, none, some, List, [],
  ◌∷◌, arith, length, filter, take, nat_eq, ◌==◌, ltb, Member, Bool-cases, Option-cases,
  Member-filter, Member-take, length-take-le,
}
use odenctl.Prelude.Sort.{sort, Member-sort}
use odenctl.Contracts.{RouteSnapshotEntry}
use odenctl.ControlPlane.Errors.{ok, >>=-eq-ok}
use odenctl.ControlPlane.Placement.{
  RuntimeNode, RuntimePlacementFailoverRule, RuntimePlacementRule, matches_tier,
  validate_max_targets, sort_by_load, select_by_tier, first_failover, select_by_rule, loaded_before,
}

-- At most as many as the rule asks for.
abbrev pub IsWithin : Option ℕ → List RuntimeNode → Type 0
IsWithin none selected = Unit
IsWithin (some n) selected = (0 < n) × (length selected ≤ n)

from_sorted :
    (before : RuntimeNode → RuntimeNode → Bool) (tier : RuntimePlacementFailoverRule)
    (nodes : List RuntimeNode) (n : RuntimeNode)
    → Member n (sort before (filter (matches_tier tier) nodes))
    → Member n nodes × (matches_tier tier n ≡ true)
from_sorted before tier nodes n m =
    Member-filter (matches_tier tier) nodes n
      (Member-sort before (filter (matches_tier tier) nodes) n m)

module _ (collates : String → String → Bool) (digest : String → List RouteSnapshotEntry → String)
    (nodes : List RuntimeNode) where
  -- What a tier selects: nodes of the list that match it, within its limit.
  abbrev pub IsFrom : RuntimePlacementFailoverRule → List RuntimeNode → Type 0
  IsFrom tier selected =
      ((n : RuntimeNode) → Member n selected → Member n nodes × (matches_tier tier n ≡ true))
      × IsWithin tier.max_targets selected

  select_by_tier-IsFrom :
      (tier : RuntimePlacementFailoverRule) (selected : List RuntimeNode)
      → select_by_tier collates digest nodes tier ≡ ok selected
      → IsFrom tier selected
  unfolding select_by_tier sort_by_load validate_max_targets
  select_by_tier-IsFrom tier selected h =
      let before = loaded_before collates digest in
      let sorted = sort before (filter (matches_tier tier) nodes) in
      elim (Option-cases tier.max_targets) [
        | inl free ↦
            let e : sorted ≡ selected = ok_injective (rw (free, select_by_tier) at h) in
            (λ n m. from_sorted before tier nodes n (subst (Member n) (sym e) m), rw free tt)
        | inr (k, set) ↦ elim (Bool-cases (k == 0)) [
          | inl refused ↦ absurd (cc (rw refused at (rw (set, select_by_tier) at h)))
          | inr positive ↦
              let e : take k sorted ≡ selected =
                ok_injective (rw positive at (rw (set, select_by_tier) at h)) in
              (
                λ n m.
                    from_sorted before tier nodes n
                      (Member-take k sorted n (subst (Member n) (sym e) m)),
                rw set (ground arith, rw (← e) (length-take-le k sorted)),
              )
        ]
      ]

  first_failover-IsFrom :
      (rules : List RuntimePlacementFailoverRule) (selected : List RuntimeNode) (n : RuntimeNode)
      → first_failover collates digest nodes rules ≡ ok selected
      → Member n selected
      → (tier : RuntimePlacementFailoverRule) × Member tier rules × IsFrom tier selected
  unfolding first_failover
  first_failover-IsFrom [] selected n h m = absurd (subst (Member n) (sym (ok_injective h)) m)
  first_failover-IsFrom (rule ∷ rules) selected n h m =
      let (chosen, here, h1) = >>=-eq-ok (select_by_tier collates digest nodes rule) _ h in
      elim (Bool-cases (ltb 0 (length chosen))) [
        | inl found ↦
            let e : chosen ≡ selected = ok_injective (rw found at h1) in
            (rule, inl refl, subst (IsFrom rule) e (select_by_tier-IsFrom rule chosen here))
        | inr unmatched ↦
            let (tier, k, from) = first_failover-IsFrom rules selected n (rw unmatched at h1) m in
            (tier, inr k, from)
      ]

  -- When a rule selects any node, there is one tier of it, the primary or a failover, such that
  -- every selected node is a node of the list that matches this tier, and no more are selected than
  -- the tier allows.
  pub select_by_rule-IsFrom :
      (rule : RuntimePlacementRule) (selected : List RuntimeNode) (n : RuntimeNode)
      → select_by_rule collates digest nodes rule ≡ ok selected
      → Member n selected
      → (tier : RuntimePlacementFailoverRule) × Member tier (rule.primary ∷ rule.failover)
        × IsFrom tier selected
  unfolding select_by_rule
  select_by_rule-IsFrom rule selected n h m =
      let (chosen, here, h1) = >>=-eq-ok (select_by_tier collates digest nodes rule.primary) _ h in
      elim (Bool-cases (ltb 0 (length chosen))) [
        | inl found ↦
            let e : chosen ≡ selected = ok_injective (rw found at h1) in
            (
              rule.primary,
              inl refl,
              subst (IsFrom rule.primary) e (select_by_tier-IsFrom rule.primary chosen here),
            )
        | inr unmatched ↦
            let (tier, k, from) =
              first_failover-IsFrom rule.failover selected n (rw unmatched at h1) m in
            (tier, inr k, from)
      ]
