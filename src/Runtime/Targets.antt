-- ===== src/Runtime/Targets.antt =====
-- The weighted choice of a deployment in runtime/supervisor.ts (`selectRouteTarget`, `stableHash`)
-- and the list of deployments that a snapshot compiles (`snapshotCompilableTargets`).
-- A sum of weights stays below 2^53, so that the sums of the source are exact.
use odenctl.Prelude.{
  ℕ, ◌+◌, ◌%◌, ◌^◌, String, Bool, true, false, Option, none, some, List, [], ◌∷◌, ◌++◌, sum_by, ltb,
  any, string_eq, ◌==◌, nat_eq, or_else, if◌then◌else◌,
}
use odenctl.Prelude.Text.{Text}
use odenctl.Contracts.{
  RuntimeSpec, RuntimeLimits, CapabilityPolicy, SnapshotArtifact, RouteSnapshotTarget,
  RouteSnapshotEntry, RouteSnapshot,
}
use odenctl.Runtime.RouteCache.{RouteMatchInput, normalize_host, normalize_path}
pub mod Shares

pub record CompilableRouteTarget : Type 0 where
  pub deployment_id : String
  pub project_id : String
  pub world : String
  pub runtime : RuntimeSpec
  pub limits : RuntimeLimits
  pub capabilities : CapabilityPolicy
  pub artifact : SnapshotArtifact

-- a route as the target it falls back to
unfoldable pub of_route : RouteSnapshotEntry → CompilableRouteTarget
of_route route = record {
  deployment_id = route.deployment_id;
  project_id = route.project_id;
  world = route.world;
  runtime = route.runtime;
  limits = route.limits;
  capabilities = route.capabilities;
  artifact = route.artifact;
}

unfoldable pub of_target : RouteSnapshotEntry → RouteSnapshotTarget → CompilableRouteTarget
of_target route target = record {
  deployment_id = target.deployment_id;
  project_id = route.project_id;
  world = target.world;
  runtime = target.runtime;
  limits = target.limits;
  capabilities = target.capabilities;
  artifact = target.artifact;
}

-- the loop of `stableHash`; `>>> 0` keeps 32 bits
stable_hash_from : ℕ → Text → ℕ
stable_hash_from hash [] = hash
stable_hash_from hash (c ∷ cs) = stable_hash_from ((hash + c) % 2 ^ 32) cs

unfoldable pub stable_hash : Text → ℕ
unfolding stable_hash_from
stable_hash value = stable_hash_from 0 value

abbrev pub total_weight : List RouteSnapshotTarget → ℕ
total_weight = sum_by (λ target. target.weight)

-- the loop over the targets, from the cursor
unfoldable pub pick_from : ℕ → ℕ → List RouteSnapshotTarget → Option RouteSnapshotTarget
pick_from slot cursor [] = none
pick_from slot cursor (target ∷ targets) =
    let rest = pick_from slot (cursor + target.weight) targets in
    if ltb slot (cursor + target.weight) then some target else rest

-- the target of a slot, or the route
unfoldable pub select_slot : RouteSnapshotEntry → ℕ → CompilableRouteTarget
unfolding of_route of_target pick_from
select_slot route slot = elim (pick_from slot 0 route.targets) [
  | none ↦ of_route route
  | some target ↦ of_target route target
]

unfoldable pub request_hash : RouteMatchInput → ℕ
unfolding stable_hash normalize_host normalize_path
request_hash input = stable_hash (normalize_host input.host ++ normalize_path input.path)

unfoldable pub select_route_target : RouteSnapshotEntry → RouteMatchInput → CompilableRouteTarget
unfolding of_route request_hash select_slot
select_route_target route input =
    if total_weight route.targets == 0
    then of_route route
    else select_slot route (request_hash input % total_weight route.targets)

-- `Map.set`: a key keeps the place of its first insertion
unfoldable pub set_target :
    CompilableRouteTarget → List CompilableRouteTarget → List CompilableRouteTarget
set_target target [] = target ∷ []
set_target target (x ∷ xs) =
    if x.deployment_id == target.deployment_id then target ∷ xs else x ∷ set_target target xs

unfoldable pub set_targets :
    RouteSnapshotEntry
    → List RouteSnapshotTarget
    → List CompilableRouteTarget
    → List CompilableRouteTarget
unfolding set_target of_target
set_targets route [] acc = acc
set_targets route (target ∷ targets) acc =
    set_targets route targets (set_target (of_target route target) acc)

unfoldable pub compilable_from :
    List RouteSnapshotEntry → List CompilableRouteTarget → List CompilableRouteTarget
unfolding set_target set_targets of_route
compilable_from [] acc = acc
compilable_from (route ∷ routes) acc =
    compilable_from routes (set_targets route route.targets (set_target (of_route route) acc))

unfoldable pub snapshot_compilable_targets : RouteSnapshot → List CompilableRouteTarget
unfolding compilable_from
snapshot_compilable_targets snapshot = compilable_from snapshot.routes []

-- `snapshotDeploymentIds(snapshot).has(id)`
unfoldable pub is_active_deployment : RouteSnapshot → String → Bool
is_active_deployment snapshot id =
    any
      (λ route.
        if route.deployment_id == id
        then true
        else any (λ target. target.deployment_id == id) route.targets)
      snapshot.routes
