-- ===== src/ControlPlane/Placement.antt =====
-- Where routes go: control-plane/placement.ts. A rule selects nodes, a policy says which rule a
-- project has, and a snapshot is cut down to what a node may serve. An absent list or map of a rule
-- is the empty one; `max_targets` of `some 0` stands for every number that is not a positive
-- integer. `localeCompare` of node ids and the digest in `placedSnapshotId` are parameters. The
-- quotients of `loadRatio` are compared as fractions: those of numbers below 2^26 compare so in
-- floating point too.
use odenctl.Prelude.{
  ℕ, ◌*◌, String, Bool, true, false, ◌&&◌, ◌||◌, Option, none, some, List, [], ◌∷◌, ◌++◌, length,
  filter, find, any, every, map, take, ltb, leb, nat_eq, string_eq, ◌==◌, not, if◌then◌else◌,
  is_some,
}
use odenctl.Prelude.Text.{Text, text_eq, to_lower_case}
use odenctl.Prelude.Sort.{sort}
use odenctl.Contracts.{RuntimeNodeCapacity, RuntimeNodeLoad, RouteSnapshotEntry, RouteSnapshot}
use odenctl.ControlPlane.Errors.{validation, Result, ok, err, ◌>>=◌}
pub mod Filters
pub mod Plans
pub mod Statics
pub mod Rules
pub mod Selection

pub record Label : Type 0 where
  pub name : String
  pub value : String

-- of a runtime node, what placement reads
pub record RuntimeNode : Type 0 where
  pub id : String
  pub region : Option Text
  pub labels : List Label
  pub capacity : Option RuntimeNodeCapacity
  pub load : Option RuntimeNodeLoad

pub record RuntimePlacementFailoverRule : Type 0 where
  pub regions : List Text
  pub labels : List Label
  pub max_targets : Option ℕ

pub record RuntimePlacementRule : Type 0 where
  pub primary : RuntimePlacementFailoverRule
  pub failover : List RuntimePlacementFailoverRule

pub record ProjectRule : Type 0 where
  pub project_id : String
  pub rule : RuntimePlacementRule

pub record RuntimePlacementIsolationPolicy : Type 0 where
  pub projects : List ProjectRule
  pub drained_projects : List String
  pub exclude_from_default : Option Bool

pub record RuntimePlacementPolicy : Type 0 where
  pub default : Option RuntimePlacementRule
  pub projects : List ProjectRule
  pub isolation : Option RuntimePlacementIsolationPolicy

unfoldable pub rule_for : String → List ProjectRule → Option RuntimePlacementRule
rule_for project_id [] = none
rule_for project_id (p ∷ ps) =
    let rest = rule_for project_id ps in if p.project_id == project_id then some p.rule else rest

abbrev pub isolation_projects : RuntimePlacementPolicy → List ProjectRule
isolation_projects policy = elim policy.isolation [
  | none ↦ []
  | some isolation ↦ isolation.projects
]

abbrev pub drained_projects : RuntimePlacementPolicy → List String
drained_projects policy = elim policy.isolation [
  | none ↦ []
  | some isolation ↦ isolation.drained_projects
]

abbrev pub is_drained : RuntimePlacementPolicy → String → Bool
is_drained policy project_id = any (λ id. id == project_id) (drained_projects policy)

-- `projects?.[projectId] ?? default`
unfoldable pub project_rule : RuntimePlacementPolicy → String → Option RuntimePlacementRule
unfolding rule_for
project_rule policy project_id = elim (rule_for project_id policy.projects) [
  | some rule ↦ some rule
  | none ↦ policy.default
]

abbrev pub label_of : String → List Label → Option String
label_of name labels = elim (find (λ l. l.name == name) labels) [
  | none ↦ none
  | some l ↦ some l.value
]

abbrev pub has_label : RuntimeNode → Label → Bool
has_label node wanted = elim (label_of wanted.name node.labels) [
  | none ↦ false
  | some value ↦ value == wanted.value
]

abbrev pub in_regions : List Text → Option Text → Bool
in_regions regions none = false
in_regions regions (some region) = any (λ r. to_lower_case r == to_lower_case region) regions

-- the test of the filter in `selectByTier`
unfoldable pub matches_tier : RuntimePlacementFailoverRule → RuntimeNode → Bool
unfolding to_lower_case
matches_tier rule node =
    if ltb 0 (length rule.regions) && not (in_regions rule.regions node.region)
    then false
    else every (has_label node) rule.labels

unfoldable pub validate_max_targets : Option ℕ → Result (Option ℕ)
validate_max_targets none = ok none
validate_max_targets (some n) = if n == 0 then err validation else ok (some n)

-- numerator and denominator of `loadRatio`
unfoldable pub load_ratio : RuntimeNode → ℕ × ℕ
load_ratio node = elim node.capacity [
  | none ↦ (0, 1)
  | some capacity ↦ elim node.load [
    | none ↦ (0, 1)
    | some load ↦ (load.active_requests, capacity.concurrent_requests)
  ]
]

-- `filter` with a test that may throw
pub filter_ok : {A : Type 0} → (A → Result Bool) → List A → Result (List A)
filter_ok test [] = ok []
filter_ok test (x ∷ xs) = do
  keep ← test x
  rest ← filter_ok test xs
  ok (if keep then x ∷ rest else rest)

unfoldable pub has_tenant_isolation_policy : RuntimePlacementPolicy → Bool
has_tenant_isolation_policy policy =
    ltb 0 (length (isolation_projects policy)) || ltb 0 (length (drained_projects policy))

-- a project with a rule of its own, or one that is drained
abbrev pub is_set_apart : RuntimePlacementPolicy → String → Bool
is_set_apart policy project_id =
    is_drained policy project_id || is_some (rule_for project_id (isolation_projects policy))

unfoldable pub snapshot_requires_tenant_drain_publish :
    RouteSnapshot → Option RuntimePlacementPolicy → Bool
unfolding has_tenant_isolation_policy rule_for
snapshot_requires_tenant_drain_publish snapshot none = false
snapshot_requires_tenant_drain_publish snapshot (some policy) =
    has_tenant_isolation_policy policy
    && any (λ route. is_set_apart policy route.project_id) snapshot.routes

unfoldable pub route_visible_to_static_target : RuntimePlacementPolicy → String → Bool
unfolding rule_for
route_visible_to_static_target policy project_id =
    if is_drained policy project_id
    then false
    else if is_some (rule_for project_id (isolation_projects policy))
    then false
    else if is_some (rule_for project_id policy.projects)
    then false
    else not (is_some policy.default)

module _ (collates : String → String → Bool)
    (placed_snapshot_id : String → List RouteSnapshotEntry → String) where
  -- the comparison of `sortByLoad` gives at most 0
  unfoldable pub loaded_before : RuntimeNode → RuntimeNode → Bool
  unfolding load_ratio
  loaded_before left right =
      let (a, b) = load_ratio left in
      let (c, d) = load_ratio right in
      if a * d == c * b then collates left.id right.id else ltb (a * d) (c * b)

  unfoldable pub sort_by_load : List RuntimeNode → List RuntimeNode
  unfolding loaded_before sort
  sort_by_load nodes = sort loaded_before nodes

  unfoldable pub select_by_tier :
      List RuntimeNode → RuntimePlacementFailoverRule → Result (List RuntimeNode)
  unfolding matches_tier validate_max_targets sort_by_load
  select_by_tier nodes rule = do
    max_targets ← validate_max_targets rule.max_targets
    let sorted = sort_by_load (filter (matches_tier rule) nodes)
    ok (elim max_targets [ none ↦ sorted | some n ↦ take n sorted ])

  -- the loop over the failover rules: the first that selects a node
  unfoldable pub first_failover :
      List RuntimeNode → List RuntimePlacementFailoverRule → Result (List RuntimeNode)
  unfolding select_by_tier
  first_failover nodes [] = ok []
  first_failover nodes (rule ∷ rules) = do
    selected ← select_by_tier nodes rule
    let rest = first_failover nodes rules
    if ltb 0 (length selected) then ok selected else rest

  unfoldable pub select_by_rule :
      List RuntimeNode → RuntimePlacementRule → Result (List RuntimeNode)
  unfolding select_by_tier first_failover
  select_by_rule nodes rule = do
    primary ← select_by_tier nodes rule.primary
    if ltb 0 (length primary) then ok primary else first_failover nodes rule.failover

  unfoldable pub node_matches_rule :
      List RuntimeNode → RuntimeNode → RuntimePlacementRule → Result Bool
  unfolding select_by_rule
  node_matches_rule nodes node rule = do
    selected ← select_by_rule nodes rule
    ok (any (λ n. n.id == node.id) selected)

  -- the loop of `selectedIsolationNodeIds` over the rules
  unfoldable pub isolation_node_ids : List RuntimeNode → List ProjectRule → Result (List String)
  unfolding select_by_rule
  isolation_node_ids nodes [] = ok []
  isolation_node_ids nodes (p ∷ ps) = do
    selected ← select_by_rule nodes p.rule
    ids ← isolation_node_ids nodes ps
    ok (map (λ n. n.id) selected ++ ids)

  abbrev pub exclude_isolation_node_from_default :
      RuntimePlacementPolicy → RuntimeNode → List String → Bool
  exclude_isolation_node_from_default policy node ids =
      elim policy.isolation [
        | none ↦ true
        | some isolation ↦ elim isolation.exclude_from_default [ none ↦ true | some b ↦ b ]
      ]
      && any (λ id. id == node.id) ids

  unfoldable pub route_visible_to_node :
      List RuntimeNode → RuntimePlacementPolicy → RuntimeNode → List String → String → Result Bool
  unfolding rule_for project_rule node_matches_rule
  route_visible_to_node nodes policy node ids project_id =
      elim (rule_for project_id (isolation_projects policy)) [
        | some rule ↦ node_matches_rule nodes node rule
        | none ↦
            if is_drained policy project_id
            then ok false
            else elim (project_rule policy project_id) [
              | none ↦ ok (not (exclude_isolation_node_from_default policy node ids))
              | some rule ↦ node_matches_rule nodes node rule
            ]
      ]

  -- `routes` is what a filter leaves of the routes of the snapshot: as many mean the same ones
  unfoldable pub snapshot_with_routes : RouteSnapshot → List RouteSnapshotEntry → RouteSnapshot
  snapshot_with_routes snapshot routes =
      if length routes == length snapshot.routes then snapshot else record snapshot {
        id = some (placed_snapshot_id snapshot.generated_at routes);
        routes = routes;
      }

  unfoldable pub route_snapshot_for_runtime_node :
      List RuntimeNode
      → RouteSnapshot
      → RuntimeNode
      → Option RuntimePlacementPolicy
      → Result RouteSnapshot
  unfolding isolation_node_ids filter_ok route_visible_to_node snapshot_with_routes
  route_snapshot_for_runtime_node nodes snapshot node none = ok snapshot
  route_snapshot_for_runtime_node nodes snapshot node (some policy) = do
    ids ← isolation_node_ids nodes (isolation_projects policy)
    routes ←
        filter_ok (λ route. route_visible_to_node nodes policy node ids route.project_id)
          snapshot.routes
    ok (snapshot_with_routes snapshot routes)

  unfoldable pub default_route_snapshot_for_tenant_drain :
      RouteSnapshot → Option RuntimePlacementPolicy → RouteSnapshot
  unfolding has_tenant_isolation_policy rule_for snapshot_with_routes
  default_route_snapshot_for_tenant_drain snapshot none = snapshot
  default_route_snapshot_for_tenant_drain snapshot (some policy) =
      if not (has_tenant_isolation_policy policy)
      then snapshot
      else snapshot_with_routes snapshot
          (filter (λ route. not (is_set_apart policy route.project_id)) snapshot.routes)

  unfoldable pub static_route_snapshot_for_placement :
      RouteSnapshot → Option RuntimePlacementPolicy → RouteSnapshot
  unfolding route_visible_to_static_target snapshot_with_routes
  static_route_snapshot_for_placement snapshot none = snapshot
  static_route_snapshot_for_placement snapshot (some policy) =
      snapshot_with_routes snapshot
        (filter (λ route. route_visible_to_static_target policy route.project_id) snapshot.routes)

  -- the entries of the plan, of the nodes in the order of their load
  unfoldable pub plan_nodes :
      List RuntimeNode
      → RouteSnapshot
      → RuntimePlacementPolicy
      → List RuntimeNode
      → Result (List (RuntimeNode × RouteSnapshot))
  unfolding route_snapshot_for_runtime_node snapshot_requires_tenant_drain_publish
  plan_nodes nodes snapshot policy [] = ok []
  plan_nodes nodes snapshot policy (node ∷ later) = do
    placed ← route_snapshot_for_runtime_node nodes snapshot node (some policy)
    plans ← plan_nodes nodes snapshot policy later
    ok (
        if length placed.routes == 0
          && not (snapshot_requires_tenant_drain_publish snapshot (some policy))
          && not (length snapshot.routes == 0)
        then plans
        else (node, placed) ∷ plans)

  unfoldable pub plan_runtime_snapshot_placements :
      List RuntimeNode
      → RouteSnapshot
      → Option RuntimePlacementPolicy
      → Result (List (RuntimeNode × RouteSnapshot))
  unfolding sort_by_load plan_nodes
  plan_runtime_snapshot_placements nodes snapshot none =
      ok (map (λ node. (node, snapshot)) (sort_by_load nodes))
  plan_runtime_snapshot_placements nodes snapshot (some policy) =
      plan_nodes nodes snapshot policy (sort_by_load nodes)
