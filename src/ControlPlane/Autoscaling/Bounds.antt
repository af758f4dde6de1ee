-- ===== src/ControlPlane/Autoscaling/Bounds.antt =====
-- What every scaling decision keeps to.
use odenctl.Prelude.{
  ℕ, zero, suc, ◌+◌, ◌-◌, ◌≤◌, ◌<◌, max, min, ◌≡◌, refl, String, Bool, ◌&&◌, List, [], ◌∷◌, arith,
  length, filter, map, take, ltb, or_else, if-cases, and-left, ltb→lt, ltb→ge,
}
use odenctl.Prelude.Sort.{sort, length-sort}
use odenctl.ControlPlane.Nodes.{RuntimeNode, node_id}
use odenctl.ControlPlane.Autoscaling.{
  RuntimeAutoscalingPolicy, RuntimeAutoscalingDecision, Reason, scale_up, scale_down, no_action,
  below_min_nodes, above_max_nodes, load_above_threshold, load_below_threshold, within_thresholds,
  decision, is_active_node, scale_down_candidates, decide_runtime_autoscaling, less_loaded,
}

-- A decision for `current` active nodes under the limits `low` and `high`.
pub record IsBounded (current low high : ℕ) (d : RuntimeAutoscalingDecision) : Type 0 where
  pub counted : d.current_nodes ≡ current
  pub above : low ≤ d.desired_nodes
  pub below : d.desired_nodes ≤ high
  pub balanced : d.current_nodes + d.add ≡ d.desired_nodes + d.remove
  pub grows : d.action ≡ scale_up → (0 < d.add) × (d.remove ≡ 0)
  pub shrinks : d.action ≡ scale_down → (0 < d.remove) × (d.add ≡ 0)
  pub rests : d.action ≡ no_action → (d.add ≡ 0) × (d.remove ≡ 0)
  pub listed : length d.candidate_node_ids ≡ d.remove

length-take : {A : Type 0} (n : ℕ) (xs : List A) → n ≤ length xs → length (take n xs) ≡ n
length-take zero xs h = refl
length-take (suc n) [] h = absurd (omega arith)
length-take (suc n) (x ∷ xs) h = omega (arith, length-take n xs (omega arith))

length-map : {A B : Type 0} (f : A → B) (xs : List A) → length (map f xs) ≡ length xs
length-map f [] = refl
length-map f (x ∷ xs) = omega (arith, length-map f xs)

up-IsBounded :
    (reason : Reason) (current desired low high average : ℕ)
    → current < desired
    → low ≤ desired
    → desired ≤ high
    → IsBounded current low high (decision scale_up reason current desired average [])
unfolding decision
up-IsBounded reason current desired low high average more l h = record {
  counted = refl;
  above = l;
  below = h;
  balanced = omega arith;
  grows = λ e. (omega arith, omega arith);
  shrinks = λ e. absurd (cc e);
  rests = λ e. absurd (cc e);
  listed = omega arith;
}

rest-IsBounded :
    (current low high average : ℕ)
    → low ≤ current
    → current ≤ high
    → IsBounded current low high (decision no_action within_thresholds current current average [])
unfolding decision
rest-IsBounded current low high average l h = record {
  counted = refl;
  above = l;
  below = h;
  balanced = omega arith;
  grows = λ e. absurd (cc e);
  shrinks = λ e. absurd (cc e);
  rests = λ e. (omega arith, omega arith);
  listed = omega arith;
}

module _ (collates : String → String → Bool) where
  length-scale_down_candidates :
      (nodes : List RuntimeNode) (count : ℕ)
      → count ≤ length nodes
      → length (scale_down_candidates collates nodes count) ≡ count
  unfolding scale_down_candidates
  length-scale_down_candidates nodes count h =
      let sorted = sort (less_loaded collates) nodes in
      let size = length-sort (less_loaded collates) nodes in
      let some_nodes = length-take count sorted (omega (arith, size)) in
      omega (arith, length-map node_id (take count sorted))

  down-IsBounded :
      (reason : Reason) (nodes : List RuntimeNode) (desired low high average : ℕ)
      → desired < length nodes
      → low ≤ desired
      → desired ≤ high
      → IsBounded (length nodes) low high (
          decision scale_down reason
            (length nodes)
            desired
            average
            (scale_down_candidates collates nodes (length nodes - desired)))
  unfolding decision
  down-IsBounded reason nodes desired low high average less l h = record {
    counted = refl;
    above = l;
    below = h;
    balanced = omega arith;
    grows = λ e. absurd (cc e);
    shrinks = λ e. (omega arith, omega arith);
    rests = λ e. absurd (cc e);
    listed = length-scale_down_candidates nodes (length nodes - desired) (omega arith);
  }

  -- For every set of nodes and every policy, the number of nodes that the decision wants is at least
  -- the minimum of the policy and at most its maximum (which is no less than the minimum); the nodes
  -- to add and to remove lead from the active nodes to it; a scale up adds some and removes none, a
  -- scale down removes some and adds none, no action does neither; and as many candidates are named
  -- as nodes are to be removed.
  pub decide_runtime_autoscaling-IsBounded :
      (nodes : List RuntimeNode) (policy : RuntimeAutoscalingPolicy)
      → IsBounded
          (length (filter is_active_node nodes))
          policy.min_nodes
          (max policy.min_nodes policy.max_nodes)
          (decide_runtime_autoscaling collates nodes policy)
  unfolding decide_runtime_autoscaling
  decide_runtime_autoscaling-IsBounded nodes policy =
      let current = length (filter is_active_node nodes) in
      let low = policy.min_nodes in
      let high = max low policy.max_nodes in
      let P = IsBounded current low high in
      if-cases P (ltb current low) _ _
        (λ few.
          up-IsBounded below_min_nodes current (min high low) low high _
            (omega (arith, ltb→lt current low few)) (omega arith) (omega arith))
        (λ enough.
          if-cases P (ltb high current) _ _
            (λ many.
              down-IsBounded above_max_nodes (filter is_active_node nodes) high low high _
                (ltb→lt high current many) (omega arith) (omega arith))
            (λ fits.
              if-cases P (ltb current high && _) _ _
                (λ busy.
                  up-IsBounded load_above_threshold current
                    (min high (current + max 1 (or_else policy.scale_up_step 1))) low high _
                    (omega (arith, ltb→lt current high (and-left _ _ busy)))
                    (omega (arith, ltb→ge current low enough)) (omega arith))
                (λ calm.
                  if-cases P (ltb low current && _) _ _
                    (λ idle.
                      down-IsBounded load_below_threshold (filter is_active_node nodes)
                        (max low (current - max 1 (or_else policy.scale_down_step 1))) low high _
                        (omega (arith, ltb→lt low current (and-left _ _ idle))) (omega arith)
                        (omega (arith, ltb→ge high current fits)))
                    (λ steady.
                      rest-IsBounded current low high _ (ltb→ge current low enough)
                        (ltb→ge high current fits)))))
