-- ===== src/Tests/Canaries.antt =====
-- A canary whose requests are rejected is rolled back.
use odenctl.Prelude.{ℕ, ◌≤◌, ◌≡◌, ◌↔◌, refl, String, none, some, List, [], ◌∷◌, arith, map}
use odenctl.Prelude.Text.{codes}
use odenctl.ControlPlane.Errors.{Result, ok, err}
use odenctl.ControlPlane.Canary.{
  CanaryMetricEvent, CanaryAnalysisThresholds, rollback_canary, analyze_canary_events, percentile,
}
use odenctl.Prelude.Counting.{Counts}
use odenctl.ControlPlane.Canary.Breaches.{IsOf, Breaches}
use odenctl.ControlPlane.Canary.Decisions.{analyze_canary_events_lem}
use odenctl.ControlPlane.Routes.{RoutePointer}
use odenctl.ControlPlane.Routes.Served.{AllServed, IsServed}
use odenctl.ControlPlane.RouteCanary.{
  CanaryState, analyze_route_canary, analyze_route_canary-AllServed,
}

abbrev event : String → ℕ → ℕ → CanaryMetricEvent
event id status duration = record {
  deployment_id = some id;
  status = status;
  duration_ms = duration;
  error_code = none;
}

abbrev events : List CanaryMetricEvent
events = event "d2" 200 12 ∷ event "d1" 500 90 ∷ event "d2" 503 40 ∷ []

abbrev thresholds : CanaryAnalysisThresholds
thresholds = record {
  min_requests = some 2;
  p95_ms = some 100;
  error_rate = none;
  reject_count = some 0;
}

p95 : percentile (12 ∷ 40 ∷ []) 95 ≡ 40
unfolding percentile
p95 = refl

analyze_canary_events_lem_example :
    ((analyze_canary_events events "d2" thresholds).action ≡ rollback_canary)
    ↔ (((n : ℕ) × Counts (IsOf "d2") events n × (2 ≤ n)) × Breaches "d2" thresholds events)
analyze_canary_events_lem_example = analyze_canary_events_lem events "d2" thresholds

abbrev split_route : RoutePointer
split_route = record {
  id = "r1";
  project_id = "p";
  host = codes "a.test";
  path_prefix = codes "/";
  deployment_id = "d1";
  targets =
      record { deployment_id = "d1"; weight = 90 }
      ∷ record { deployment_id = "d2"; weight = 10 }
      ∷ [];
  updated_at = "t1";
}

abbrev state : CanaryState
state = record {
  repository = record {
    projects = "p" ∷ [];
    deployments =
        record { id = "d1"; project_id = "p" } ∷ record { id = "d2"; project_id = "p" } ∷ [];
    domains = [];
    routes = split_route ∷ [];
  };
  decisions = [];
}

split-IsServed : IsServed state.repository.deployments split_route
split-IsServed = record {
  some_target = omega arith;
  weighted = (omega arith, (omega arith, tt));
  owned = (
    (record { id = "d1"; project_id = "p" }, refl, refl),
    ((record { id = "d2"; project_id = "p" }, refl, refl), tt),
  );
  primary = refl;
}

abbrev after : Result CanaryState → CanaryState
after (ok s) = s
after (err code) = state

abbrev analyzed : Result CanaryState
analyzed =
    analyze_route_canary "t2" "c1" "p" (codes "a.test") (codes "/") "d2" events thresholds state

targets_after :
    map (λ r. r.targets) (after analyzed).repository.routes
    ≡ (record { deployment_id = "d1"; weight = 100 } ∷ []) ∷ []
unfolding analyze_route_canary
targets_after = refl

analyzed-ok : analyzed ≡ ok (after analyzed)
unfolding analyze_route_canary
analyzed-ok = refl

analyze_route_canary-AllServed_example : AllServed (after analyzed).repository
analyze_route_canary-AllServed_example =
    analyze_route_canary-AllServed "t2" "c1" "p" (codes "a.test") (codes "/") "d2" events thresholds
      state (after analyzed) (split-IsServed, tt) analyzed-ok
