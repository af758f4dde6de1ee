-- ===== src/Tests/Placing.antt =====
-- A placement plan of two nodes and three projects: one project has a pool of its own, one is drained.
use odenctl.Prelude.{◌≡◌, refl, inl, inr, String, Bool, true, none, some, List, [], ◌∷◌, Member}
use odenctl.Prelude.Text.{codes}
use odenctl.Contracts.{RouteSnapshotEntry, RouteSnapshot}
use odenctl.ControlPlane.Errors.{ok}
use odenctl.ControlPlane.Placement.{
  Label, RuntimeNode, RuntimePlacementFailoverRule, RuntimePlacementRule, RuntimePlacementPolicy,
  rule_for, isolation_projects, isolation_node_ids, route_visible_to_node,
  plan_runtime_snapshot_placements, select_by_rule, default_route_snapshot_for_tenant_drain,
  static_route_snapshot_for_placement,
}
use odenctl.ControlPlane.Placement.Plans.{
  IsAllowed, plan_runtime_snapshot_placements-IsAllowed, plan_runtime_snapshot_placements-serves,
}
use odenctl.ControlPlane.Placement.Statics.{static_route_snapshot_for_placement_lem}
use odenctl.ControlPlane.Placement.Selection.{select_runtime_nodes_for_snapshot}
use odenctl.Tests.Samples.{weighted, route_at}

abbrev collates : String → String → Bool
collates a b = true

abbrev digest : String → List RouteSnapshotEntry → String
digest generated_at routes = generated_at

abbrev gold : Label
gold = record { name = "pool"; value = "gold" }

abbrev node : String → List Label → RuntimeNode
node id labels = record {
  id = id;
  region = some (codes "nrt");
  labels = labels;
  capacity = none;
  load = none;
}

abbrev nodes : List RuntimeNode
nodes = node "n1" (gold ∷ []) ∷ node "n2" [] ∷ []

abbrev tier : List Label → RuntimePlacementFailoverRule
tier labels = record { regions = codes "NRT" ∷ []; labels = labels; max_targets = some 1 }

abbrev pool : RuntimePlacementRule
pool = record { primary = tier (gold ∷ []); failover = tier [] ∷ [] }

abbrev policy : RuntimePlacementPolicy
policy = record {
  default = none;
  projects = [];
  isolation = some (record {
    projects = record { project_id = "p"; rule = pool } ∷ [];
    drained_projects = "q" ∷ [];
    exclude_from_default = none;
  });
}

abbrev route_of : String → RouteSnapshotEntry
route_of project = route_at project (codes project) (codes "/") (weighted project 100 ∷ [])

abbrev with_routes : List RouteSnapshotEntry → RouteSnapshot
with_routes routes = record { id = some "2026"; generated_at = "2026"; routes = routes }

abbrev snapshot : RouteSnapshot
snapshot = with_routes (route_of "p" ∷ route_of "q" ∷ route_of "r" ∷ [])

abbrev plans : List (RuntimeNode × RouteSnapshot)
plans =
    (node "n1" (gold ∷ []), with_routes (route_of "p" ∷ []))
    ∷ (node "n2" [], with_routes (route_of "r" ∷ []))
    ∷ []

planned : plan_runtime_snapshot_placements collates digest nodes snapshot (some policy) ≡ ok plans
unfolding plan_runtime_snapshot_placements
planned = refl

plan_runtime_snapshot_placements-IsAllowed_example :
    Member (node "n1" (gold ∷ [])) nodes
    × Member (route_of "p") snapshot.routes
    × IsAllowed collates digest nodes policy (node "n1" (gold ∷ [])) "p"
plan_runtime_snapshot_placements-IsAllowed_example =
    plan_runtime_snapshot_placements-IsAllowed collates digest nodes policy snapshot plans
      (node "n1" (gold ∷ [])) (with_routes (route_of "p" ∷ [])) (route_of "p") planned (inl refl)
      (inl refl)

isolated : isolation_node_ids collates digest nodes (isolation_projects policy) ≡ ok ("n1" ∷ [])
unfolding isolation_node_ids
isolated = refl

visible :
    route_visible_to_node collates digest nodes policy (node "n2" []) ("n1" ∷ []) "r" ≡ ok true
unfolding route_visible_to_node
visible = refl

plan_runtime_snapshot_placements-serves_example :
    (placed : RouteSnapshot) × Member (node "n2" [], placed) plans
    × Member (route_of "r") placed.routes
plan_runtime_snapshot_placements-serves_example =
    plan_runtime_snapshot_placements-serves collates digest nodes policy snapshot plans
      (node "n2" []) ("n1" ∷ []) (route_of "r") planned isolated (inr (inl refl))
      (inr (inr (inl refl))) visible

selected : select_by_rule collates digest nodes pool ≡ ok (node "n1" (gold ∷ []) ∷ [])
unfolding select_by_rule
selected = refl

static_r :
    Member
      (route_of "r")
      (static_route_snapshot_for_placement collates digest snapshot (some policy)).routes
unfolding static_route_snapshot_for_placement
static_r = inl refl

static_route_snapshot_for_placement_lem_example :
    Member
      (route_of "r")
      (default_route_snapshot_for_tenant_drain collates digest snapshot (some policy)).routes
    × (rule_for "r" policy.projects ≡ none)
    × (policy.default ≡ none)
static_route_snapshot_for_placement_lem_example =
    static_route_snapshot_for_placement_lem collates digest snapshot policy (route_of "r") static_r

abbrev pooled : RuntimePlacementPolicy
pooled = record { default = some pool; projects = []; isolation = none }

pooled-nodes :
    select_runtime_nodes_for_snapshot collates digest nodes snapshot (some pooled)
    ≡ ok (node "n1" (gold ∷ []) ∷ [])
unfolding select_runtime_nodes_for_snapshot
pooled-nodes = refl
