-- ===== src/ControlPlane/Snapshots/Selected.antt =====
-- From the route table of the control plane to the deployment that a runtime node serves.
use odenctl.Prelude.{
  ◌<◌, ◌≡◌, Bool, ◌≢◌, sym, subst, String, some, List, [], ◌∷◌, arith, length, map, All, Member,
  All-member,
}
use odenctl.Contracts.{RouteSnapshotTarget, RouteSnapshotEntry, RouteSnapshot}
use odenctl.Prelude.Text.{Text}
use odenctl.ControlPlane.Routes.{RouteTarget, RoutePointer}
use odenctl.ControlPlane.Routes
use odenctl.ControlPlane.Routes.Served.{IsServed, AllServed}
use odenctl.ControlPlane.Snapshots.{Catalog, deployment_view, list_routes, create_route_snapshot}
use odenctl.ControlPlane.Snapshots.Mirrors.{
  IsStocked, IsFrom, target_view, Mirrors, AllMirror, snapshot-AllMirror, listed-IsServed,
}
use odenctl.Runtime.RouteCache.{RouteMatchInput}
use odenctl.Runtime.Targets.{of_target, total_weight, select_route_target}
use odenctl.Runtime.Targets.Shares.{select_route_target-Member}

-- The target that serves a request comes from the catalog, and has a weight.
pub record IsSelected (catalog : Catalog) (input : RouteMatchInput) (entry : RouteSnapshotEntry)
    : Type 0 where
  pub target : RouteSnapshotTarget
  pub listed : Member target entry.targets
  pub weighted : 0 < target.weight
  pub selected : select_route_target entry input ≡ of_target entry target
  pub source : IsFrom catalog entry.project_id target

total_weight-pos :
    (ts : List RouteSnapshotTarget)
    → 0 < length (map target_view ts)
    → All (λ (x : RouteTarget). 0 < x.weight) (map target_view ts)
    → total_weight ts ≢ 0
total_weight-pos [] some_target weighted = λ e. omega (arith, some_target)
total_weight-pos (t ∷ ts) some_target weighted = λ e. omega (arith, weighted.0, e)

module _ (catalog : Catalog) (deployments : List Routes.Deployment) where
  entry-IsSelected :
      (route : RoutePointer) (entry : RouteSnapshotEntry) (input : RouteMatchInput)
      → IsServed deployments route
      → Mirrors catalog route entry
      → IsSelected catalog input entry
  entry-IsSelected route entry input served mirrors =
      let (target, listed, weighted, selected) = select_route_target-Member entry input (
        total_weight-pos entry.targets
          (subst (λ (xs : List RouteTarget). 0 < length xs) (sym mirrors.same_targets)
            served.some_target)
          (subst (λ (xs : List RouteTarget). All (λ (x : RouteTarget). 0 < x.weight) xs)
            (sym mirrors.same_targets) served.weighted)) in
      record {
        target = target;
        listed = listed;
        weighted = weighted;
        selected = selected;
        source =
            subst (λ (p : String). IsFrom catalog p target) (sym mirrors.same_project)
              (All-member (IsFrom catalog route.project_id) entry.targets mirrors.sources listed);
      }

  entries-IsSelected :
      (input : RouteMatchInput) (routes : List RoutePointer) (entries : List RouteSnapshotEntry)
      → All (IsServed deployments) routes
      → AllMirror catalog routes entries
      → All (IsSelected catalog input) entries
  entries-IsSelected input [] [] served mirror = tt
  entries-IsSelected input (route ∷ routes) (entry ∷ entries) served mirror = (
    entry-IsSelected route entry input served.0 mirror.0,
    entries-IsSelected input routes entries served.1 mirror.1,
  )
  entries-IsSelected input [] (entry ∷ entries) served mirror = absurd mirror
  entries-IsSelected input (route ∷ routes) [] served mirror = absurd mirror

-- Over a catalog that has the artifact of each of its deployments, and a route table all of whose
-- routes can be served, the control plane makes a snapshot, and every request that a runtime node
-- matches to any of its entries is served by a target of that entry: one of positive weight, whose
-- deployment belongs to the project of the entry and is in the catalog, with the runtime, limits,
-- capabilities and artifact that the catalog has for it.
pub create_route_snapshot-IsSelected :
    (catalog : Catalog)
    → IsStocked catalog
    → (collates : Text → Text → Bool) (digest : String → List RouteSnapshotEntry → String)
      (now : String) (repository : Routes.RouteRepository)
    → repository.deployments ≡ map deployment_view catalog.deployments
    → AllServed repository
    → (input : RouteMatchInput)
    → (snapshot : RouteSnapshot) × (create_route_snapshot collates digest now catalog
          repository.routes
        ≡ some snapshot)
      × All (IsSelected catalog input) snapshot.routes
create_route_snapshot-IsSelected catalog stocked collates digest now repository here served input =
    let (snapshot, made, time, mirror) =
      snapshot-AllMirror catalog stocked collates digest now repository here served in
    (
      snapshot,
      made,
      entries-IsSelected catalog (map deployment_view catalog.deployments) input
          (list_routes collates repository.routes) snapshot.routes
          (listed-IsServed catalog stocked collates repository here served) mirror,
    )
