-- ===== src/ControlPlane/RouteCanary.antt =====
-- analyzeRouteCanary of control-plane/service.ts: the analysis of a canary is recorded, and a canary
-- that fails it is rolled back to the stable deployment of the route.
use odenctl.ControlPlane.Errors.{ok_injective}
use odenctl.Prelude.{◌≡◌, refl, subst, String, List, [], ◌∷◌, ◌++◌, arith, any, string_eq, ◌==◌}
use odenctl.Prelude.Text.{Text}
use odenctl.ControlPlane.Errors.{validation, Result, ok, ◌>>=◌, ◌>>◌, guard, >>=-eq-ok}
use odenctl.ControlPlane.Canary.{
  CanaryMetricEvent, CanaryAnalysisThresholds, CanaryAnalysisAction, continue_canary,
  rollback_canary, CanaryAnalysisResult, analyze_canary_events,
}
use odenctl.ControlPlane.Routes.{
  RoutePointer, RouteRepository, normalize_host, normalize_path_prefix, require_known_project,
  require_route, require_deployment, first_deployment, upsert_route,
}
use odenctl.ControlPlane.Routes.Served.{IsOwned, IsServed, AllServed, upsert_route-AllServed}
use odenctl.ControlPlane.Routes.Keeps.{found-IsServed, first_of, first-IsOwned}

pub record CanaryDecision : Type 0 where
  pub id : String
  pub project_id : String
  pub host : Text
  pub path_prefix : Text
  pub stable_deployment_id : String
  pub candidate_deployment_id : String
  pub result : CanaryAnalysisResult
  pub thresholds : CanaryAnalysisThresholds
  pub created_at : String

pub record CanaryState : Type 0 where
  pub repository : RouteRepository
  pub decisions : List CanaryDecision

abbrev pub back_to : String → String → RoutePointer → RoutePointer
back_to now stable existing = record existing {
  deployment_id = stable;
  targets = record { deployment_id = stable; weight = 100 } ∷ [];
  updated_at = now;
}

abbrev pub carry_out :
    String → CanaryAnalysisAction → String → RoutePointer → RouteRepository → RouteRepository
carry_out now continue_canary stable existing r = r
carry_out now rollback_canary stable existing r = upsert_route (back_to now stable existing) r

unfoldable pub analyze_route_canary :
    String
    → String
    → String
    → Text
    → Text
    → String
    → List CanaryMetricEvent
    → CanaryAnalysisThresholds
    → CanaryState
    → Result CanaryState
unfolding require_known_project normalize_host normalize_path_prefix require_route
    require_deployment analyze_canary_events upsert_route
analyze_route_canary now new_id project_id host_input prefix_input candidate_id events thresholds
      s =
    do
      require_known_project s.repository project_id
      host ← normalize_host host_input
      path_prefix ← normalize_path_prefix prefix_input
      existing ← require_route s.repository project_id host path_prefix
      let stable = first_deployment existing.deployment_id existing.targets
      candidate ← require_deployment s.repository candidate_id
      guard (candidate.project_id == project_id) validation
      guard (any (λ t. t.deployment_id == candidate.id) existing.targets) validation
      let analysis = analyze_canary_events events candidate.id thresholds
      ok (record {
        repository = carry_out now analysis.action stable existing s.repository;
        decisions =
            s.decisions
            ++ record {
              id = new_id;
              project_id = project_id;
              host = host;
              path_prefix = path_prefix;
              stable_deployment_id = stable;
              candidate_deployment_id = candidate.id;
              result = analysis;
              thresholds = thresholds;
              created_at = now;
            }
              ∷ [];
      })

carry_out-AllServed :
    (now : String) (action : CanaryAnalysisAction) (existing : RoutePointer) (r : RouteRepository)
    → IsServed r.deployments existing
    → AllServed r
    → AllServed
        (carry_out now action (first_deployment existing.deployment_id existing.targets) existing r)
carry_out-AllServed now continue_canary existing r old served = served
carry_out-AllServed now rollback_canary existing r old served =
    let stable = first_deployment existing.deployment_id existing.targets in
    upsert_route-AllServed (back_to now stable existing) r
      (record {
        some_target = omega arith;
        weighted = (omega arith, tt);
        owned = (
          subst (IsOwned r.deployments existing.project_id)
              (first_of "" existing.deployment_id existing.targets old.some_target)
              (first-IsOwned r.deployments existing.project_id existing.targets old.some_target
                old.owned),
          tt,
        );
        primary = refl;
      })
      served

-- An analysis that succeeds keeps every stored route servable, whether it rolls the canary back or
-- not.
pub analyze_route_canary-AllServed :
    (now new_id project_id : String) (host_input prefix_input : Text) (candidate_id : String)
    (events : List CanaryMetricEvent) (thresholds : CanaryAnalysisThresholds) (s s' : CanaryState)
    → AllServed s.repository
    → analyze_route_canary now new_id project_id host_input prefix_input candidate_id events
        thresholds s
      ≡ ok s'
    → AllServed s'.repository
unfolding analyze_route_canary
analyze_route_canary-AllServed now new_id project_id host_input prefix_input candidate_id events
      thresholds s s' served h =
    let (u, known, h1) = >>=-eq-ok (require_known_project s.repository project_id) _ h in
    let (host, host_ok, h2) = >>=-eq-ok (normalize_host host_input) _ h1 in
    let (path_prefix, prefix_ok, h3) = >>=-eq-ok (normalize_path_prefix prefix_input) _ h2 in
    let (existing, there, h4) =
      >>=-eq-ok (require_route s.repository project_id host path_prefix) _ h3 in
    let (candidate, found, h5) = >>=-eq-ok (require_deployment s.repository candidate_id) _ h4 in
    let (g, same, h6) = >>=-eq-ok (guard (candidate.project_id == project_id) validation) _ h5 in
    let (g', target, h7) =
      >>=-eq-ok (guard (any (λ t. t.deployment_id == candidate.id) existing.targets) validation) _
        h6 in
    let (old, in_project) =
      found-IsServed s.repository project_id host path_prefix existing served there in
    subst (λ (x : CanaryState). AllServed x.repository) (ok_injective h7)
      (carry_out-AllServed now (analyze_canary_events events candidate.id thresholds).action
        existing s.repository old served)
