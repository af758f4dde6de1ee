-- ===== src/ControlPlane/Snapshots.antt =====
-- The route snapshot: createRouteSnapshot and its helpers in control-plane/service.ts. The digest of
-- the JSON text that names a snapshot is a parameter, and so is the order of texts in the database
-- (`collates s t` where `s` does not come after `t`). A call that throws is `none`: that is a missing
-- deployment or artifact, or a route without a target, of which the source reads the first.
use odenctl.Prelude.{
  ℕ, String, Bool, Option, none, some, List, [], ◌∷◌, map, find, string_eq, nat_eq, ◌==◌, length,
  ltb, if◌then◌else◌,
}
use odenctl.Prelude.Sort.{sort}
use odenctl.Prelude.Text.{Text, text_eq}
use odenctl.Contracts.{
  RuntimeSpec, RuntimeLimits, CapabilityPolicy, Artifact, SnapshotArtifact, RouteSnapshotTarget,
  RouteSnapshotEntry, RouteSnapshot,
}
use odenctl.ControlPlane.Routes.{RouteTarget, RoutePointer}
use odenctl.ControlPlane.Routes
pub mod Mirrors
pub mod Listing
pub mod Selected

pub record Deployment : Type 0 where
  pub id : String
  pub project_id : String
  pub artifact_id : String
  pub world : String
  pub world_version : String
  pub runtime : RuntimeSpec
  pub limits : RuntimeLimits
  pub capabilities : CapabilityPolicy

-- the tables of deployments and artifacts
pub record Catalog : Type 0 where
  pub deployments : List Deployment
  pub artifacts : List Artifact

-- what the methods on routes read of a deployment
abbrev pub deployment_view : Deployment → Routes.Deployment
deployment_view d = record { id = d.id; project_id = d.project_id }

abbrev pub find_deployment : Catalog → String → Option Deployment
find_deployment catalog id = find (λ (d : Deployment). d.id == id) catalog.deployments

abbrev pub find_artifact : Catalog → String → Option Artifact
find_artifact catalog id = find (λ (a : Artifact). a.id == id) catalog.artifacts

unfoldable pub route_snapshot_artifact : Artifact → SnapshotArtifact
route_snapshot_artifact artifact = record {
  id = artifact.id;
  digest = artifact.digest;
  location = artifact.location;
  signature = artifact.signature;
  provenance = artifact.provenance;
}

unfoldable pub target_with : RouteTarget → Deployment → Artifact → RouteSnapshotTarget
unfolding route_snapshot_artifact
target_with target deployment artifact = record {
  deployment_id = deployment.id;
  weight = target.weight;
  world = deployment.world;
  world_version = deployment.world_version;
  runtime = deployment.runtime;
  limits = deployment.limits;
  capabilities = deployment.capabilities;
  artifact = route_snapshot_artifact artifact;
}

unfoldable pub route_snapshot_target : Catalog → RouteTarget → Option RouteSnapshotTarget
unfolding target_with
route_snapshot_target catalog target = elim (find_deployment catalog target.deployment_id) [
  | none ↦ none
  | some deployment ↦ elim (find_artifact catalog deployment.artifact_id) [
    | none ↦ none
    | some artifact ↦ some (target_with target deployment artifact)
  ]
]

-- `items.map(f)` with a function that may throw
unfoldable pub map_all {ℓ κ} : {A : Type ℓ} {B : Type κ} → (A → Option B) → List A → Option (List B)
map_all f [] = some []
map_all f (item ∷ items) = elim (f item) [
  | none ↦ none
  | some b ↦ elim (map_all f items) [ none ↦ none | some bs ↦ some (b ∷ bs) ]
]

-- the entry of a route, from its targets
unfoldable pub entry_with : RoutePointer → List RouteSnapshotTarget → Option RouteSnapshotEntry
entry_with route [] = none
entry_with route (primary ∷ rest) = some (record {
  host = route.host;
  path_prefix = route.path_prefix;
  project_id = route.project_id;
  deployment_id = primary.deployment_id;
  targets = primary ∷ rest;
  world = primary.world;
  world_version = primary.world_version;
  runtime = primary.runtime;
  limits = primary.limits;
  capabilities = primary.capabilities;
  artifact = primary.artifact;
})

unfoldable pub snapshot_entry : Catalog → RoutePointer → Option RouteSnapshotEntry
unfolding route_snapshot_target map_all entry_with
snapshot_entry catalog route = elim (map_all (route_snapshot_target catalog) route.targets) [
  | none ↦ none
  | some targets ↦ entry_with route targets
]

-- `order by host asc, length(path_prefix) desc, path_prefix asc`
abbrev pub listed_before : (Text → Text → Bool) → RoutePointer → RoutePointer → Bool
listed_before collates left right =
    if left.host == right.host
    then (if length left.path_prefix == length right.path_prefix
        then collates left.path_prefix right.path_prefix
        else ltb (length right.path_prefix) (length left.path_prefix))
    else collates left.host right.host

unfoldable pub list_routes : (Text → Text → Bool) → List RoutePointer → List RoutePointer
unfolding sort
list_routes collates routes = sort (listed_before collates) routes

unfoldable pub create_route_snapshot :
    (Text → Text → Bool)
    → (String → List RouteSnapshotEntry → String)
    → String
    → Catalog
    → List RoutePointer
    → Option RouteSnapshot
unfolding map_all snapshot_entry list_routes
create_route_snapshot collates digest now catalog routes =
    elim (map_all (snapshot_entry catalog) (list_routes collates routes)) [
      | none ↦ none
      | some entries ↦
          some (record { id = some (digest now entries); generated_at = now; routes = entries })
    ]
