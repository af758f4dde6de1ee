-- ===== src/ControlPlane/Snapshots/Mirrors.antt =====
-- A snapshot mirrors the routes that it is made from.
use odenctl.Prelude.{
  ◌<◌, ◌≡◌, refl, sym, subst, ap, ◌∙◌, inl, inr, String, Option, some, List, [], ◌∷◌, arith, length,
  map, find, string_eq, ◌==◌, All, Bool-cases, find-some, eq_of_beq, All-member, All-of_Member,
  Member, ◌↔◌, Bool,
}
use odenctl.Contracts.{Artifact, RouteSnapshotTarget, RouteSnapshotEntry, RouteSnapshot}
use odenctl.ControlPlane.Routes.{RouteTarget, RoutePointer, first_deployment}
use odenctl.ControlPlane.Routes
use odenctl.ControlPlane.Routes.Served.{IsOwned, IsServed, AllServed}
use odenctl.ControlPlane.Snapshots.{
  Deployment, Catalog, deployment_view, find_deployment, find_artifact, route_snapshot_artifact,
  target_with, route_snapshot_target, map_all, entry_with, snapshot_entry, create_route_snapshot,
  listed_before, list_routes,
}
use odenctl.ControlPlane.Snapshots.Listing.{IsTextOrder, listed_before-order}
use odenctl.Prelude.Sort.{Member-sort, sort-Member, length-sort, sort-IsSorted, IsSorted}
use odenctl.Prelude.Text.{Text}

-- Every deployment has its artifact in the catalog.
abbrev pub IsStocked : Catalog → Type 0
IsStocked catalog =
    All (λ (d : Deployment). (a : Artifact) × (find_artifact catalog d.artifact_id ≡ some a))
      catalog.deployments

-- A target of a snapshot is made from a deployment of the project and its artifact.
pub record IsFrom (catalog : Catalog) (project_id : String) (t : RouteSnapshotTarget) : Type 0 where
  pub deployment : Deployment
  pub stored_artifact : Artifact
  pub known : find_deployment catalog t.deployment_id ≡ some deployment
  pub same_project : deployment.project_id ≡ project_id
  pub stocked : find_artifact catalog deployment.artifact_id ≡ some stored_artifact
  pub same_artifact : t.artifact ≡ route_snapshot_artifact stored_artifact
  pub same_runtime : t.runtime ≡ deployment.runtime
  pub same_limits : t.limits ≡ deployment.limits
  pub same_capabilities : t.capabilities ≡ deployment.capabilities

abbrev pub target_view : RouteSnapshotTarget → RouteTarget
target_view t = record { deployment_id = t.deployment_id; weight = t.weight }

pub record Mirrors (catalog : Catalog) (route : RoutePointer) (entry : RouteSnapshotEntry)
    : Type 0 where
  pub same_host : entry.host ≡ route.host
  pub same_prefix : entry.path_prefix ≡ route.path_prefix
  pub same_project : entry.project_id ≡ route.project_id
  pub same_deployment : entry.deployment_id ≡ route.deployment_id
  pub same_targets : map target_view entry.targets ≡ route.targets
  pub sources : All (IsFrom catalog route.project_id) entry.targets

-- The entries of a snapshot, each beside its route.
abbrev pub AllMirror : Catalog → List RoutePointer → List RouteSnapshotEntry → Type 0
AllMirror catalog [] [] = Unit
AllMirror catalog (route ∷ routes) (entry ∷ entries) =
    Mirrors catalog route entry × AllMirror catalog routes entries
AllMirror catalog [] (entry ∷ entries) = ⊥
AllMirror catalog (route ∷ routes) [] = ⊥

some_injective {ℓ} : {A : Type ℓ} {a b : A} → some a ≡ some b → a ≡ b
some_injective h = cc

abbrev project_of : Routes.Deployment → String
project_of d = d.project_id

find-view :
    (id : String) (ds : List Deployment) (v : Routes.Deployment)
    → find (λ x. x.id == id) (map deployment_view ds) ≡ some v
    → (d : Deployment) × (find (λ (x : Deployment). x.id == id) ds ≡ some d)
      × (deployment_view d ≡ v)
find-view id [] v h = cc
find-view id (d ∷ ds) v h = elim (Bool-cases (d.id == id)) [
  | inl here ↦ (d, rw here refl, some_injective (rw here at h))
  | inr other ↦
      let (e, found, same) = find-view id ds v (rw other at h) in (e, rw other found, same)
]

route_snapshot_target-ok :
    (catalog : Catalog) (target : RouteTarget) (d : Deployment) (a : Artifact)
    → find_deployment catalog target.deployment_id ≡ some d
    → find_artifact catalog d.artifact_id ≡ some a
    → route_snapshot_target catalog target ≡ some (target_with target d a)
unfolding route_snapshot_target
route_snapshot_target-ok catalog target d a known there =
    rw (route_snapshot_target, known) (rw there refl)

target_with-IsFrom :
    (catalog : Catalog) (project_id : String) (target : RouteTarget) (d : Deployment) (a : Artifact)
    → find_deployment catalog target.deployment_id ≡ some d
    → find_artifact catalog d.artifact_id ≡ some a
    → d.id ≡ target.deployment_id
    → d.project_id ≡ project_id
    → (target_view (target_with target d a) ≡ target)
      × IsFrom catalog project_id (target_with target d a)
unfolding target_with
target_with-IsFrom catalog project_id target d a known there id owner = (
  ap (λ (i : String). record { deployment_id = i; weight = target.weight }) id,
  record {
    deployment = d;
    stored_artifact = a;
    known = subst (λ (i : String). find_deployment catalog i ≡ some d) (sym id) known;
    same_project = owner;
    stocked = there;
    same_artifact = refl;
    same_runtime = refl;
    same_limits = refl;
    same_capabilities = refl;
  },
)

no_route : ¬ (0 < 0)
no_route h = omega (arith, h)

map_all-cons {ℓ κ} :
    {A : Type ℓ} {B : Type κ} (f : A → Option B) (item : A) (items : List A) (b : B) (bs : List B)
    → f item ≡ some b
    → map_all f items ≡ some bs
    → map_all f (item ∷ items) ≡ some (b ∷ bs)
unfolding map_all
map_all-cons f item items b bs h hs = rw (map_all, h) (rw hs refl)

snapshot_entry-ok :
    (catalog : Catalog) (route : RoutePointer) (ts : List RouteSnapshotTarget)
    (entry : RouteSnapshotEntry)
    → map_all (route_snapshot_target catalog) route.targets ≡ some ts
    → entry_with route ts ≡ some entry
    → snapshot_entry catalog route ≡ some entry
unfolding snapshot_entry
snapshot_entry-ok catalog route ts entry made built = rw (snapshot_entry, made) built

module _ (catalog : Catalog) (stocked : IsStocked catalog) where
  target-IsFrom :
      (project_id : String) (target : RouteTarget)
      → IsOwned (map deployment_view catalog.deployments) project_id target.deployment_id
      → (t : RouteSnapshotTarget) × (route_snapshot_target catalog target ≡ some t)
        × ((target_view t ≡ target) × IsFrom catalog project_id t)
  target-IsFrom project_id target (v, found, owner) =
      let (d, known, same) = find-view target.deployment_id catalog.deployments v found in
      let (inside, named) =
        find-some (λ (x : Deployment). x.id == target.deployment_id) catalog.deployments d known in
      let (a, there) =
        All-member
          (λ (x : Deployment). (a : Artifact) × (find_artifact catalog x.artifact_id ≡ some a))
          catalog.deployments stocked inside in
      (
        target_with target d a,
        route_snapshot_target-ok catalog target d a known there,
        target_with-IsFrom catalog project_id target d a known there
            (eq_of_beq d.id target.deployment_id named) (ap project_of same ∙ owner),
      )

  targets-IsFrom :
      (project_id : String) (targets : List RouteTarget)
      → All
          (λ (x : RouteTarget).
            IsOwned (map deployment_view catalog.deployments) project_id x.deployment_id)
          targets
      → (ts : List RouteSnapshotTarget) × (map_all (route_snapshot_target catalog) targets
          ≡ some ts)
        × ((map target_view ts ≡ targets) × All (IsFrom catalog project_id) ts)
  unfolding map_all
  targets-IsFrom project_id [] owned = ([], refl, (refl, tt))
  targets-IsFrom project_id (target ∷ targets) (owned, all_owned) =
      let (t, made, (same, from)) = target-IsFrom project_id target owned in
      let (ts, all_made, (all_same, all_from)) = targets-IsFrom project_id targets all_owned in
      (
        t ∷ ts,
        map_all-cons (route_snapshot_target catalog) target targets t ts made all_made,
        (rw (same, all_same) refl, (from, all_from)),
      )

  entry_with-Mirrors :
      (route : RoutePointer) (ts : List RouteSnapshotTarget)
      → IsServed (map deployment_view catalog.deployments) route
      → map target_view ts ≡ route.targets
      → All (IsFrom catalog route.project_id) ts
      → (entry : RouteSnapshotEntry) × (entry_with route ts ≡ some entry)
        × Mirrors catalog route entry
  unfolding entry_with
  entry_with-Mirrors route [] served same from =
      absurd
        (no_route (subst (λ (xs : List RouteTarget). 0 < length xs) (sym same) served.some_target))
  entry_with-Mirrors route (t ∷ ts) served same from = (
    _,
    refl,
    record {
      same_host = refl;
      same_prefix = refl;
      same_project = refl;
      same_deployment = sym (served.primary ∙ ap (first_deployment "") (sym same));
      same_targets = same;
      sources = from;
    },
  )

  pub listed-IsServed :
      (collates : Text → Text → Bool) (repository : Routes.RouteRepository)
      → repository.deployments ≡ map deployment_view catalog.deployments
      → AllServed repository
      → All
          (IsServed (map deployment_view catalog.deployments))
          (list_routes collates repository.routes)
  unfolding list_routes
  listed-IsServed collates repository here served =
      All-of_Member (IsServed (map deployment_view catalog.deployments)) _ (λ route m.
        subst (λ (ds : List Routes.Deployment). IsServed ds route) here
          (All-member (IsServed repository.deployments) repository.routes served
            (Member-sort (listed_before collates) repository.routes route m)))

  snapshot_entry-Mirrors :
      (route : RoutePointer)
      → IsServed (map deployment_view catalog.deployments) route
      → (entry : RouteSnapshotEntry) × (snapshot_entry catalog route ≡ some entry)
        × Mirrors catalog route entry
  snapshot_entry-Mirrors route served =
      let (ts, made, (same, from)) = targets-IsFrom route.project_id route.targets served.owned in
      let (entry, built, mirrors) = entry_with-Mirrors route ts served same from in
      (entry, snapshot_entry-ok catalog route ts entry made built, mirrors)

  entries-AllMirror :
      (routes : List RoutePointer)
      → All (IsServed (map deployment_view catalog.deployments)) routes
      → (entries : List RouteSnapshotEntry) × (map_all (snapshot_entry catalog) routes
          ≡ some entries)
        × AllMirror catalog routes entries
  unfolding map_all
  entries-AllMirror [] served = ([], refl, tt)
  entries-AllMirror (route ∷ routes) (served, all_served) =
      let (entry, made, mirrors) = snapshot_entry-Mirrors route served in
      let (entries, all_made, all_mirror) = entries-AllMirror routes all_served in
      (
        entry ∷ entries,
        map_all-cons (snapshot_entry catalog) route routes entry entries made all_made,
        (mirrors, all_mirror),
      )

  -- The snapshot of the routes as the repository lists them.
  pub snapshot-AllMirror :
      (collates : Text → Text → Bool) (digest : String → List RouteSnapshotEntry → String)
      (now : String) (repository : Routes.RouteRepository)
      → repository.deployments ≡ map deployment_view catalog.deployments
      → AllServed repository
      → (snapshot : RouteSnapshot) × (create_route_snapshot collates digest now catalog
            repository.routes
          ≡ some snapshot)
        × (snapshot.generated_at ≡ now)
        × AllMirror catalog (list_routes collates repository.routes) snapshot.routes
  unfolding create_route_snapshot
  snapshot-AllMirror collates digest now repository here served =
      let (entries, made, mirror) =
        entries-AllMirror (list_routes collates repository.routes)
          (listed-IsServed collates repository here served) in
      (
        record { id = some (digest now entries); generated_at = now; routes = entries },
        rw (create_route_snapshot, made) refl,
        refl,
        mirror,
      )

  -- Over a catalog that has the artifact of each of its deployments, and a route table all of whose
  -- routes can be served (their targets are deployments of the project in that catalog and have a
  -- weight, and the primary deployment is that of the first target), the call does not throw: it
  -- makes a snapshot of the given time, with one entry for each route, in the order in which the
  -- repository lists the routes: by host, then the longer path prefix first, then by prefix. An
  -- entry has its route's host, path prefix, project, primary deployment and weighted targets, and
  -- each of its targets has the runtime, limits, capabilities and artifact that the catalog has for
  -- a deployment of that project. The order of texts of the database is a total order.
  pub create_route_snapshot-AllMirror :
      (collates : Text → Text → Bool) (digest : String → List RouteSnapshotEntry → String)
      (now : String) (repository : Routes.RouteRepository)
      → IsTextOrder collates
      → repository.deployments ≡ map deployment_view catalog.deployments
      → AllServed repository
      → (snapshot : RouteSnapshot) × (listed : List RoutePointer) × (create_route_snapshot collates
            digest now catalog repository.routes
          ≡ some snapshot)
        × (snapshot.generated_at ≡ now)
        × ((route : RoutePointer) → (Member route listed ↔ Member route repository.routes))
        × (length listed ≡ length repository.routes)
        × IsSorted (listed_before collates) listed
        × AllMirror catalog listed snapshot.routes
  unfolding list_routes
  create_route_snapshot-AllMirror collates digest now repository order here served =
      let before = listed_before collates in
      let (snapshot, made, time, mirror) =
        snapshot-AllMirror collates digest now repository here served in
      (
        snapshot,
        list_routes collates repository.routes,
        made,
        time,
        λ route. (
          Member-sort before repository.routes route,
          sort-Member before repository.routes route,
        ),
        length-sort before repository.routes,
        sort-IsSorted before (listed_before-order collates order) repository.routes,
        mirror,
      )
