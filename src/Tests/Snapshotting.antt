-- ===== src/Tests/Snapshotting.antt =====
-- A snapshot is made of a route with a canary.
use odenctl.Prelude.{
  Bool, true, false, ◌&&◌, ◌||◌, ltb, nat_eq, ◌==◌, Member, ◌↔◌, length, ◌≡◌, refl, String, some,
  none, List, [], ◌∷◌, All, arith,
}
use odenctl.Prelude.Text.{Text, codes}
use odenctl.Contracts.{Artifact, RouteSnapshot, RouteSnapshotEntry}
use odenctl.ControlPlane.Routes.{RouteRepository, RoutePointer}
use odenctl.ControlPlane.Routes.Served.{IsServed}
use odenctl.ControlPlane.Snapshots.{Catalog, Deployment, create_route_snapshot, listed_before}
use odenctl.ControlPlane.Snapshots.Listing.{IsTextOrder}
use odenctl.Prelude.Sort.{IsSorted}
use odenctl.ControlPlane.Snapshots.Mirrors.{IsStocked, AllMirror, create_route_snapshot-AllMirror}
use odenctl.ControlPlane.Snapshots.Selected.{IsSelected, create_route_snapshot-IsSelected}
use odenctl.Runtime.RouteCache.{RouteMatchInput}
use odenctl.Tests.Samples.{wasmtime, small, nothing}

abbrev stored : String → Artifact
stored id = record {
  id = id;
  project_id = "p";
  digest = id;
  location = id;
  size_bytes = 1;
  signature = none;
  provenance = none;
  created_at = "t0";
}

abbrev deployment : String → String → Deployment
deployment id artifact_id = record {
  id = id;
  project_id = "p";
  artifact_id = artifact_id;
  world = "worker";
  world_version = "1";
  runtime = wasmtime;
  limits = small;
  capabilities = nothing;
}

abbrev catalog : Catalog
catalog = record {
  deployments = deployment "d1" "a1" ∷ deployment "d2" "a2" ∷ [];
  artifacts = stored "a2" ∷ stored "a1" ∷ [];
}

abbrev repository : RouteRepository
repository = record {
  projects = "p" ∷ [];
  deployments =
      record { id = "d1"; project_id = "p" } ∷ record { id = "d2"; project_id = "p" } ∷ [];
  domains = [];
  routes =
      record {
        id = "r1";
        project_id = "p";
        host = codes "a.test";
        path_prefix = codes "/";
        deployment_id = "d1";
        targets =
            record { deployment_id = "d1"; weight = 90 }
            ∷ record { deployment_id = "d2"; weight = 10 }
            ∷ [];
        updated_at = "t1";
      }
      ∷ [];
}

-- texts by their first code unit that differs
abbrev by_code : Text → Text → Bool
by_code [] t = true
by_code (c ∷ s) [] = false
by_code (c ∷ s) (d ∷ t) = ltb c d || (c == d && by_code s t)

by_code-total : (s t : Text) → by_code s t ≡ false → by_code t s ≡ true
by_code-total [] t h = cc
by_code-total (c ∷ s) [] h = refl
by_code-total (c ∷ s) (d ∷ t) h = ground (arith, by_code-total s t)

by_code_trans : (s t u : Text) → by_code s t ≡ true → by_code t u ≡ true → by_code s u ≡ true
by_code_trans [] t u h k = refl
by_code_trans (c ∷ s) [] u h k = cc
by_code_trans (c ∷ s) (d ∷ t) [] h k = cc
by_code_trans (c ∷ s) (d ∷ t) (e ∷ u) h k = ground (arith, by_code_trans s t u)

by_code-antisym : (s t : Text) → by_code s t ≡ true → by_code t s ≡ true → s ≡ t
by_code-antisym [] [] h k = refl
by_code-antisym [] (d ∷ t) h k = cc
by_code-antisym (c ∷ s) [] h k = cc
by_code-antisym (c ∷ s) (d ∷ t) h k =
    let first : c ≡ d = ground arith in
    let rest : s ≡ t = by_code-antisym s t (ground arith) (ground arith) in rw (first, rest) refl

by_code-order : IsTextOrder by_code
by_code-order = record { total = by_code-total; trans = by_code_trans; antisym = by_code-antisym }

abbrev digest : String → List RouteSnapshotEntry → String
digest now entries = now

-- a deployment whose artifact is missing
missing-artifact :
    create_route_snapshot by_code digest "t2"
      (record catalog { artifacts = stored "a1" ∷ [] })
      repository.routes
    ≡ none
unfolding create_route_snapshot
missing-artifact = refl

stocked : IsStocked catalog
stocked = ((stored "a1", refl), ((stored "a2", refl), tt))

served : All (IsServed repository.deployments) repository.routes
served = (
  record {
    some_target = omega arith;
    weighted = (omega arith, (omega arith, tt));
    owned = (
      (record { id = "d1"; project_id = "p" }, refl, refl),
      ((record { id = "d2"; project_id = "p" }, refl, refl), tt),
    );
    primary = refl;
  },
  tt,
)

create_route_snapshot-AllMirror_example :
    (snapshot : RouteSnapshot) × (listed : List RoutePointer) × (create_route_snapshot by_code
        digest "t2" catalog repository.routes
      ≡ some snapshot)
    × (snapshot.generated_at ≡ "t2")
    × ((route : RoutePointer) → (Member route listed ↔ Member route repository.routes))
    × (length listed ≡ length repository.routes)
    × IsSorted (listed_before by_code) listed
    × AllMirror catalog listed snapshot.routes
create_route_snapshot-AllMirror_example =
    create_route_snapshot-AllMirror catalog stocked by_code digest "t2" repository by_code-order
      refl served

abbrev request : RouteMatchInput
request = record { host = codes "a.test"; path = codes "/x" }

create_route_snapshot-IsSelected_example :
    (snapshot : RouteSnapshot) × (create_route_snapshot by_code digest "t2" catalog
        repository.routes
      ≡ some snapshot)
    × All (IsSelected catalog request) snapshot.routes
create_route_snapshot-IsSelected_example =
    create_route_snapshot-IsSelected catalog stocked by_code digest "t2" repository refl served
      request
