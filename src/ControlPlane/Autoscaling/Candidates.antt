-- ===== src/ControlPlane/Autoscaling/Candidates.antt =====
-- The candidates of a scale down are the active nodes with the least load.
use native.Mathlib.Nat.{
  le_of_mul-le-mul_right, lt_of_mul-lt-mul_right, mul-le-mul_right, mul-lt-mul_of_pos_right,
}
use odenctl.Prelude.{
  ℕ, zero, suc, ◌*◌, ◌≤◌, ◌<◌, max, ◌≡◌, refl, sym, subst, ◌⊎◌, inl, inr, String, Bool, true, false,
  ◌&&◌, List, [], ◌∷◌, arith, length, filter, take, nat_eq, string_eq, ◌==◌, ltb, Bool-cases,
  if-cases, Member, Member-take, map-Member, Member-map, and-left, All-member, ltb→lt, eq_of_beq,
}
use odenctl.Prelude.Sort.{sort, IsSorted, IsTotalPreorder, sort-IsSorted, Member-sort, sort-Member}
use odenctl.ControlPlane.Nodes.{RuntimeNode, node_id}
use odenctl.ControlPlane.Autoscaling.{
  RuntimeAutoscalingPolicy, RuntimeAutoscalingDecision, is_active_node, load_ratio, less_loaded,
  scale_down_candidates, decide_runtime_autoscaling, decision,
}

-- Fractions a/b ≤ c/d ≤ e/f, by their cross products.
cross_le : (a b c d e f : ℕ) → 0 < d → a * d ≤ c * b → c * f ≤ e * d → a * f ≤ e * b
cross_le a b c d e f pos h k =
    let left : a * d * f ≤ c * b * f = mul-le-mul_right f h in
    let right : c * f * b ≤ e * d * b = mul-le-mul_right b k in
    le_of_mul-le-mul_right {m = a * f} {n = e * b} {k = d} (omega arith) pos

-- a/b < c/d ≤ e/f
cross_lt_le : (a b c d e f : ℕ) → 0 < f → a * d < c * b → c * f ≤ e * d → a * f < e * b
cross_lt_le a b c d e f pos h k =
    let left : a * d * f < c * b * f = mul-lt-mul_of_pos_right h pos in
    let right : c * f * b ≤ e * d * b = mul-le-mul_right b k in
    lt_of_mul-lt-mul_right d {m = a * f} {n = e * b} (omega arith)

-- a/b ≤ c/d < e/f
cross_le_lt : (a b c d e f : ℕ) → 0 < b → a * d ≤ c * b → c * f < e * d → a * f < e * b
cross_le_lt a b c d e f pos h k =
    let left : a * d * f ≤ c * b * f = mul-le-mul_right f h in
    let right : c * f * b < e * d * b = mul-lt-mul_of_pos_right k pos in
    lt_of_mul-lt-mul_right d {m = a * f} {n = e * b} (omega arith)

abbrev num : RuntimeNode → ℕ
num node = (load_ratio node).numerator

abbrev den : RuntimeNode → ℕ
den node = (load_ratio node).denominator

den_positive : (node : RuntimeNode) → 0 < den node
unfolding load_ratio
den_positive node = ground arith

-- `x` carries at most the load of `y`, as fractions of their capacities.
abbrev pub IsNoBusier : RuntimeNode → RuntimeNode → Type 0
IsNoBusier x y = num x * den y ≤ num y * den x

module _ (collates : String → String → Bool) where
  less_loaded-cases :
      (x y : RuntimeNode)
      → less_loaded collates x y ≡ true
      → (num x * den y < num y * den x)
        ⊎ ((num x * den y ≡ num y * den x) × (collates x.id y.id ≡ true))
  unfolding less_loaded
  less_loaded-cases x y h = elim (Bool-cases (num x * den y == num y * den x)) [
    | inl tie ↦ inr (eq_of_beq (num x * den y) (num y * den x) tie, ground arith)
    | inr apart ↦ inl (ground arith)
  ]

  less_loaded_of_lt :
      (x y : RuntimeNode) → num x * den y < num y * den x → less_loaded collates x y ≡ true
  unfolding less_loaded
  less_loaded_of_lt x y h = ground arith

  less_loaded_of_tie :
      (x y : RuntimeNode)
      → num x * den y ≡ num y * den x
      → collates x.id y.id ≡ true
      → less_loaded collates x y ≡ true
  unfolding less_loaded
  less_loaded_of_tie x y h c = ground arith

  less_loaded-false :
      (x y : RuntimeNode)
      → less_loaded collates x y ≡ false
      → (num y * den x < num x * den y)
        ⊎ ((num y * den x ≡ num x * den y) × (collates x.id y.id ≡ false))
  unfolding less_loaded
  less_loaded-false x y h = elim (Bool-cases (num x * den y == num y * den x)) [
    | inl tie ↦ inr (sym (eq_of_beq (num x * den y) (num y * den x) tie), ground arith)
    | inr apart ↦ inl (ground arith)
  ]

  IsNoBusier-of : (x y : RuntimeNode) → less_loaded collates x y ≡ true → IsNoBusier x y
  IsNoBusier-of x y h = elim (less_loaded-cases x y h) [
    | inl lt ↦ omega arith
    | inr (tie, c) ↦ omega arith
  ]

  module _ (order : IsTotalPreorder collates) where
    less_loaded_trans :
        (x y z : RuntimeNode)
        → less_loaded collates x y ≡ true
        → less_loaded collates y z ≡ true
        → less_loaded collates x z ≡ true
    less_loaded_trans x y z h k = elim (less_loaded-cases x y h) [
      | inl lt ↦ less_loaded_of_lt x z (
          cross_lt_le (num x) (den x) (num y) (den y) (num z) (den z) (den_positive z) lt
            (IsNoBusier-of y z k))
      | inr (tie, c) ↦ elim (less_loaded-cases y z k) [
        | inl lt ↦ less_loaded_of_lt x z (
            cross_le_lt (num x) (den x) (num y) (den y) (num z) (den z) (den_positive x)
              (omega arith) lt)
        | inr (tie', c') ↦
            let up =
              cross_le (num x) (den x) (num y) (den y) (num z) (den z) (den_positive y)
                (omega arith) (omega arith) in
            let down =
              cross_le (num z) (den z) (num y) (den y) (num x) (den x) (den_positive y)
                (omega arith) (omega arith) in
            less_loaded_of_tie x z (omega (arith, up, down)) (order.trans x.id y.id z.id c c')
      ]
    ]

    less_loaded-order : IsTotalPreorder (less_loaded collates)
    less_loaded-order = record {
      trans = less_loaded_trans;
      total = λ x y h. elim (less_loaded-false x y h) [
        | inl lt ↦ less_loaded_of_lt y x lt
        | inr (tie, c) ↦ less_loaded_of_tie y x tie (order.total x.id y.id c)
      ];
    }

    -- Of a sorted list, what is taken stands before the rest.
    take-before :
        (n : ℕ) (xs : List RuntimeNode) (x y : RuntimeNode)
        → IsSorted (less_loaded collates) xs
        → Member x (take n xs)
        → Member y xs
        → Member y (take n xs) ⊎ (less_loaded collates x y ≡ true)
    take-before zero xs x y s m k = absurd m
    take-before (suc n) [] x y s m k = absurd m
    take-before (suc n) (z ∷ zs) x y s m (inl e) = inl (inl e)
    take-before (suc n) (z ∷ zs) x y s (inl e) (inr k) =
        inr (rw e (All-member (λ v. less_loaded collates z v ≡ true) zs s.0 k))
    take-before (suc n) (z ∷ zs) x y s (inr m) (inr k) = elim (take-before n zs x y s.1 m k) [
      | inl taken ↦ inl (inr taken)
      | inr before ↦ inr before
    ]

    scale_down_candidates-least :
        (nodes : List RuntimeNode) (count : ℕ) (id : String) (y : RuntimeNode)
        → Member id (scale_down_candidates collates nodes count)
        → Member y nodes
        → (Member y.id (scale_down_candidates collates nodes count) → ⊥)
        → (x : RuntimeNode) × Member x nodes × (x.id ≡ id) × IsNoBusier x y
    unfolding scale_down_candidates
    scale_down_candidates-least nodes count id y m k out =
        let sorted = sort (less_loaded collates) nodes in
        let (x, chosen, e) = map-Member node_id (take count sorted) id m in
        let inside =
          Member-sort (less_loaded collates) nodes x (Member-take count sorted x chosen) in
        (
          x,
          inside,
          sym e,
          elim (take-before count sorted x y
              (sort-IsSorted (less_loaded collates) less_loaded-order nodes) chosen
              (sort-Member (less_loaded collates) nodes y k)) [
                | inr before ↦ IsNoBusier-of x y before
                | inl taken ↦ absurd (out (Member-map node_id (take count sorted) y taken))
              ],
        )

  none_removed :
      (nodes : List RuntimeNode) (n : ℕ) → n ≡ 0 → [] ≡ scale_down_candidates collates nodes n
  unfolding scale_down_candidates
  none_removed nodes n e = rw e refl

  -- The candidates are those of the nodes to remove, whatever the decision.
  decided_candidates :
      (nodes : List RuntimeNode) (policy : RuntimeAutoscalingPolicy)
      → let d = decide_runtime_autoscaling collates nodes policy in
        d.candidate_node_ids ≡ scale_down_candidates collates (filter is_active_node nodes) d.remove
  unfolding decide_runtime_autoscaling decision
  decided_candidates nodes policy =
      let active_nodes = filter is_active_node nodes in
      let current = length active_nodes in
      let low = policy.min_nodes in
      let high = max low policy.max_nodes in
      let P = λ (d : RuntimeAutoscalingDecision).
        d.candidate_node_ids ≡ scale_down_candidates collates active_nodes d.remove in
      if-cases P (ltb current low) _ _
        (λ few. none_removed active_nodes _ (omega (arith, ltb→lt current low few)))
        (λ enough.
          if-cases P (ltb high current) _ _ (λ many. refl)
            (λ fits.
              if-cases P (ltb current high && _) _ _
                (λ busy.
                  none_removed active_nodes _
                    (omega (arith, ltb→lt current high (and-left _ _ busy))))
                (λ calm.
                  if-cases P (ltb low current && _) _ _ (λ idle. refl)
                    (λ steady. none_removed active_nodes _ (omega arith)))))

  -- A candidate for removal is the id of an active node, and every active node that is no candidate
  -- carries at least the load of it, as a fraction of its capacity (a node without a capacity counts
  -- as idle). The comparison of ids is a total preorder.
  pub decide_runtime_autoscaling-least :
      (nodes : List RuntimeNode) (policy : RuntimeAutoscalingPolicy) (id : String) (y : RuntimeNode)
      → IsTotalPreorder collates
      → Member id (decide_runtime_autoscaling collates nodes policy).candidate_node_ids
      → Member y (filter is_active_node nodes)
      → (Member y.id (decide_runtime_autoscaling collates nodes policy).candidate_node_ids → ⊥)
      → (x : RuntimeNode) × Member x (filter is_active_node nodes) × (x.id ≡ id) × IsNoBusier x y
  decide_runtime_autoscaling-least nodes policy id y order m k out =
      let d = decide_runtime_autoscaling collates nodes policy in
      let same = decided_candidates nodes policy in
      scale_down_candidates-least order (filter is_active_node nodes) d.remove id y
        (subst (Member id) same m) k (λ n. out (subst (Member y.id) (sym same) n))
