-- ===== src/Tests/Pointing.antt =====
-- A route is pointed at a deployment, a canary is started and rolled back.
use odenctl.Prelude.{◌≡◌, refl, String, none, some, List, [], ◌∷◌, map}
use odenctl.Prelude.Text.{Text, codes}
use odenctl.ControlPlane.Routes.{point_route, RoutePointer, RouteRepository}
use odenctl.ControlPlane.Errors.{ok}
use odenctl.ControlPlane.Routes.Served.{AllServed}
use odenctl.ControlPlane.Routes.Runs.{Command, point, canary, run, run-AllServed}

abbrev same : String → String
same s = s

abbrev deployed : RouteRepository
deployed = record {
  projects = "p" ∷ [];
  deployments =
      record { id = "d1"; project_id = "p" } ∷ record { id = "d2"; project_id = "p" } ∷ [];
  domains = [];
  routes = [];
}

abbrev host : Text
host = codes "a.test"

abbrev calls : List Command
calls =
    point "t1" "r1" "p" (codes " A.test") (codes "/") none (some "d1")
    ∷ canary "t2" "p" host (codes "/") "d2" (some 10)
    ∷ canary "t3" "p" host (codes "/") "d2" (some 100)
    ∷ []

-- the third call is refused
calls-run :
    map (λ r. r.targets) (run same (some 1) deployed calls).routes
    ≡ (record { deployment_id = "d1"; weight = 90 }
        ∷ record { deployment_id = "d2"; weight = 10 }
        ∷ [])
      ∷ []
unfolding run
calls-run = refl

run-AllServed_example : AllServed (run same (some 1) deployed calls)
run-AllServed_example = run-AllServed same (some 1) calls deployed tt

abbrev pointer : RoutePointer
pointer = record {
  id = "r1";
  project_id = "p";
  host = host;
  path_prefix = codes "/";
  deployment_id = "d1";
  targets = record { deployment_id = "d1"; weight = 100 } ∷ [];
  updated_at = "t1";
}

abbrev pointed : RouteRepository
pointed = record deployed { routes = record pointer { updated_at = "t9" } ∷ [] }

pointed-ok :
    point_route same (some 1) "t9" "r1" "p" host (codes "/") none (some "d1") deployed ≡ ok pointed
unfolding point_route
pointed-ok = refl
