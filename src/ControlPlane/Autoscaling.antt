-- ===== src/ControlPlane/Autoscaling.antt =====
-- The scaling decision of control-plane/autoscaling.ts. A load ratio is a number of thousandths, as
-- `round3` leaves it; a threshold is a fraction, and the arithmetic is exact where the source has
-- floating point. A count of a policy below zero counts as 0, as the code has it. Whether the order of the ids
-- (`localeCompare`) puts one at or before another is a parameter.
use odenctl.Prelude.{
  ℕ, zero, suc, ◌+◌, ◌-◌, ◌*◌, ◌/◌, max, min, String, Bool, true, false, ◌&&◌, ◌||◌, Option, none,
  some, List, [], ◌∷◌, length, filter, map, take, sum_by, ltb, leb, nat_eq, ◌==◌, if◌then◌else◌,
  or_else,
}
use odenctl.Prelude.Sort.{sort}
use odenctl.Contracts.{RuntimeNodeStatus, active, RuntimeNodeCapacity, RuntimeNodeLoad}
use odenctl.ControlPlane.Nodes.{RuntimeNode, is_status, node_id}
pub mod Bounds
pub mod Candidates
pub mod Activation

pub record Fraction : Type 0 where
  pub numerator : ℕ
  pub denominator : ℕ

pub record RuntimeSaturationSignal : Type 0 where
  pub id : String
  pub url : String
  pub status : RuntimeNodeStatus
  pub active_requests : ℕ
  pub concurrent_requests : ℕ
  pub load_ratio : ℕ
  pub saturated : Bool

pub record RuntimeAutoscalingPolicy : Type 0 where
  pub min_nodes : ℕ
  pub max_nodes : ℕ
  pub target_load_ratio : Fraction
  pub scale_up_threshold : Option Fraction
  pub scale_down_threshold : Option Fraction
  pub scale_up_step : Option ℕ
  pub scale_down_step : Option ℕ

pub data RuntimeAutoscalingAction : Type 0 where
  scale_up scale_down no_action : RuntimeAutoscalingAction

pub data Reason : Type 0 where
  below_min_nodes above_max_nodes load_above_threshold : Reason
  load_below_threshold within_thresholds : Reason

pub record RuntimeAutoscalingDecision : Type 0 where
  pub action : RuntimeAutoscalingAction
  pub reason : Reason
  pub current_nodes : ℕ
  pub desired_nodes : ℕ
  pub add : ℕ
  pub remove : ℕ
  pub average_load_ratio : ℕ
  pub candidate_node_ids : List String

-- `round3(a / b)`, in thousandths: to the nearest, a half up
unfoldable pub round3 : ℕ → ℕ → ℕ
round3 a b = (2000 * a + b) / (2 * b)

abbrev pub concurrent_of : RuntimeNode → ℕ
concurrent_of node = elim node.capacity [ none ↦ 0 | some capacity ↦ capacity.concurrent_requests ]

abbrev pub active_of : RuntimeNode → ℕ
active_of node = elim node.load [ none ↦ 0 | some load ↦ load.active_requests ]

unfoldable pub saturation_signal : RuntimeNode → RuntimeSaturationSignal
unfolding round3
saturation_signal node =
    let concurrent_requests = concurrent_of node in
    let active_requests = active_of node in
    record {
      id = node.id;
      url = node.description.url;
      status = node.status;
      active_requests = active_requests;
      concurrent_requests = concurrent_requests;
      load_ratio =
          if ltb 0 concurrent_requests then round3 active_requests concurrent_requests else 0;
      saturated = ltb 0 concurrent_requests && leb concurrent_requests active_requests;
    }

unfoldable pub runtime_saturation_signals : List RuntimeNode → List RuntimeSaturationSignal
unfolding saturation_signal
runtime_saturation_signals nodes = map saturation_signal nodes

-- `round3(sum / length)`, of thousandths
unfoldable pub average_signal_load : List RuntimeSaturationSignal → ℕ
average_signal_load [] = 0
average_signal_load (signal ∷ signals) =
    let n = length (signal ∷ signals) in
    (2 * sum_by (λ (s : RuntimeSaturationSignal). s.load_ratio) (signal ∷ signals) + n) / (2 * n)

-- `loadRatio`, as a fraction
unfoldable pub load_ratio : RuntimeNode → Fraction
load_ratio node = elim node.capacity [
  | none ↦ record { numerator = 0; denominator = 1 }
  | some capacity ↦ elim node.load [
    | none ↦ record { numerator = 0; denominator = 1 }
    | some load ↦
        if capacity.concurrent_requests == 0
        then record { numerator = 0; denominator = 1 }
        else record { numerator = load.active_requests; denominator = capacity.concurrent_requests }
  ]
]

-- thousandths against a fraction
abbrev pub at_least : ℕ → Fraction → Bool
at_least ratio f = leb (1000 * f.numerator) (ratio * f.denominator)

abbrev pub at_most : ℕ → Fraction → Bool
at_most ratio f = leb (ratio * f.denominator) (1000 * f.numerator)

abbrev pub half : Fraction → Fraction
half f = record { numerator = f.numerator; denominator = 2 * f.denominator }

unfoldable pub decision :
    RuntimeAutoscalingAction → Reason → ℕ → ℕ → ℕ → List String → RuntimeAutoscalingDecision
decision action reason current_nodes desired_nodes average candidates = record {
  action = action;
  reason = reason;
  current_nodes = current_nodes;
  desired_nodes = desired_nodes;
  add = desired_nodes - current_nodes;
  remove = current_nodes - desired_nodes;
  average_load_ratio = average;
  candidate_node_ids = candidates;
}

abbrev pub is_active_node : RuntimeNode → Bool
is_active_node node = is_status node.status active

module _ (collates : String → String → Bool) where
  -- the comparison of `scaleDownCandidates` gives at most 0
  unfoldable pub less_loaded : RuntimeNode → RuntimeNode → Bool
  unfolding load_ratio
  less_loaded left right =
      let a = (load_ratio left).numerator * (load_ratio right).denominator in
      let b = (load_ratio right).numerator * (load_ratio left).denominator in
      if a == b then collates left.id right.id else ltb a b

  unfoldable pub scale_down_candidates : List RuntimeNode → ℕ → List String
  unfolding less_loaded sort
  scale_down_candidates nodes count = map node_id (take count (sort less_loaded nodes))

  unfoldable pub decide_runtime_autoscaling :
      List RuntimeNode → RuntimeAutoscalingPolicy → RuntimeAutoscalingDecision
  unfolding runtime_saturation_signals average_signal_load decision scale_down_candidates
  decide_runtime_autoscaling nodes policy =
      let active_nodes = filter is_active_node nodes in
      let current_nodes = length active_nodes in
      let average = average_signal_load (runtime_saturation_signals active_nodes) in
      let min_nodes = policy.min_nodes in
      let max_nodes = max min_nodes policy.max_nodes in
      let scale_up_step = max 1 (or_else policy.scale_up_step 1) in
      let scale_down_step = max 1 (or_else policy.scale_down_step 1) in
      let up_threshold = or_else policy.scale_up_threshold policy.target_load_ratio in
      let down_threshold = or_else policy.scale_down_threshold (half policy.target_load_ratio) in
      if ltb current_nodes min_nodes
      then decision scale_up below_min_nodes current_nodes (min max_nodes min_nodes) average []
      else if ltb max_nodes current_nodes
      then decision scale_down above_max_nodes current_nodes max_nodes average
          (scale_down_candidates active_nodes (current_nodes - max_nodes))
      else if ltb current_nodes max_nodes && at_least average up_threshold
      then decision scale_up load_above_threshold current_nodes
          (min max_nodes (current_nodes + scale_up_step)) average []
      else if ltb min_nodes current_nodes && at_most average down_threshold
      then decision scale_down load_below_threshold current_nodes
          (max min_nodes (current_nodes - scale_down_step)) average
          (scale_down_candidates active_nodes
            (current_nodes - max min_nodes (current_nodes - scale_down_step)))
      else decision no_action within_thresholds current_nodes current_nodes average []
