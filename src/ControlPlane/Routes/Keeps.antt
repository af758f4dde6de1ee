-- ===== src/ControlPlane/Routes/Keeps.antt =====
-- The route methods keep the table servable, and what a canary puts there.
use odenctl.ControlPlane.Errors.{validation, not_found, ok_injective, require-ok}
use odenctl.Prelude.{
  ℕ, ◌<◌, ◌≡◌, refl, sym, subst, inl, inr, String, ◌||◌, Option, none, some, List, [], ◌∷◌, arith,
  length, find, ltb, nat_eq, string_eq, ◌==◌, not, if◌then◌else◌, is_some, or_else, All, Bool-cases,
  eq_of_beq, find-some, All-member,
}
use odenctl.Prelude.Text.{Text, text_eq}
use odenctl.ControlPlane.Errors.{validation, ok, guard, >>=-eq-ok}
use odenctl.ControlPlane.Routes.{
  RouteTarget, RoutePointer, Deployment, RouteRepository, TargetInput, non_empty_string,
  normalize_route_targets, require_known_project, require_deployment, is_route, get_route,
  require_route, check_targets, first_deployment, canary_weight, normalize_host,
  normalize_path_prefix, enforce_route_custom_domain, enforce_route_quota, point_route,
  start_route_canary, rollback_route,
}
use odenctl.ControlPlane.Routes.Served.{
  IsOwned, IsServed, AllServed, upsert_route-AllServed, IsOwned-by, check_targets-IsOwned,
  normalize_targets-weighted,
}

normalize_route_targets-weighted :
    (trimmed : String → String) (inputs : Option (List TargetInput)) (fallback : Option String)
    (targets : List RouteTarget)
    → normalize_route_targets trimmed inputs fallback ≡ ok targets
    → All (λ t. 0 < t.weight) targets × (0 < length targets)
unfolding normalize_route_targets
normalize_route_targets-weighted trimmed none none targets h = cc
normalize_route_targets-weighted trimmed none (some fallback) targets h =
    let (g, full, h1) = >>=-eq-ok (guard (not (fallback == "")) validation) _ h in
    let (id, named, h2) = >>=-eq-ok (non_empty_string trimmed fallback) _ h1 in
    rw (← ok_injective h2) ((omega arith, tt), omega arith)
normalize_route_targets-weighted trimmed (some []) fallback targets h = cc
normalize_route_targets-weighted trimmed (some (item ∷ items)) fallback targets h =
    let (all, same) = normalize_targets-weighted trimmed [] (item ∷ items) targets h in
    (all, omega (arith, same))

-- The first of some targets does not depend on what an empty list would give.
pub first_of :
    (a b : String) (targets : List RouteTarget)
    → 0 < length targets
    → first_deployment a targets ≡ first_deployment b targets
first_of a b [] h = ground arith
first_of a b (t ∷ ts) h = refl

pub first-IsOwned :
    (deployments : List Deployment) (project_id : String) (targets : List RouteTarget)
    → 0 < length targets
    → All (λ t. IsOwned deployments project_id t.deployment_id) targets
    → IsOwned deployments project_id (first_deployment "" targets)
first-IsOwned deployments project_id [] h all = ground arith
first-IsOwned deployments project_id (t ∷ ts) h all = all.0

pub found-IsServed :
    (r : RouteRepository) (project_id : String) (host path_prefix : Text) (existing : RoutePointer)
    → AllServed r
    → require_route r project_id host path_prefix ≡ ok existing
    → IsServed r.deployments existing × (existing.project_id ≡ project_id)
unfolding require_route get_route
found-IsServed r project_id host path_prefix existing h e =
    let (m, t) =
      find-some (is_route project_id host path_prefix) r.routes existing
        (require-ok not_found _ e) in
    (
      All-member (IsServed r.deployments) r.routes h m,
      eq_of_beq existing.project_id project_id (ground arith),
    )

found-canary_weight :
    (input : Option ℕ) (weight : ℕ)
    → canary_weight input ≡ ok weight
    → (0 < weight) × (weight < 100)
unfolding canary_weight
found-canary_weight none weight h = cc
found-canary_weight (some n) weight h = elim (Bool-cases (ltb n 1 || ltb 99 n)) [
  | inl out ↦ absurd (cc (rw out at h))
  | inr within ↦ let e : n ≡ weight = ok_injective (rw within at h) in ground arith
]

canary-IsOwned :
    (r : RouteRepository) (deployment_id project_id : String) (existing : RoutePointer)
    (candidate : Deployment) {u : Unit {0}}
    → require_deployment r deployment_id ≡ ok candidate
    → guard (candidate.project_id == project_id) validation ≡ ok u
    → existing.project_id ≡ project_id
    → IsOwned r.deployments existing.project_id candidate.id
unfolding require_deployment
canary-IsOwned r deployment_id project_id existing candidate found same here =
    let (d, f, e) = IsOwned-by r deployment_id project_id candidate found same in
    let (m, t) = find-some (λ x. x.id == deployment_id) r.deployments d f in
    let known = require-ok not_found (find (λ x. x.id == deployment_id) r.deployments) found in
    let id_same : candidate.id ≡ deployment_id =
      eq_of_beq candidate.id deployment_id
        (find-some (λ x. x.id == deployment_id) r.deployments candidate known).1 in
    rw (id_same, here) (d, f, e)

module _ (trimmed : String → String) (max_routes : Option ℕ) (now : String) where
  pub point_route-AllServed :
      (new_id project_id : String) (host_input prefix_input : Text)
      (inputs : Option (List TargetInput)) (fallback : Option String) (r r' : RouteRepository)
      → AllServed r
      → point_route trimmed max_routes now new_id project_id host_input prefix_input inputs fallback
          r
        ≡ ok r'
      → AllServed r'
  unfolding point_route
  point_route-AllServed new_id project_id host_input prefix_input inputs fallback r r' served h =
      let (u, known, h1) = >>=-eq-ok (require_known_project r project_id) _ h in
      let (targets, normal, h2) =
        >>=-eq-ok (normalize_route_targets trimmed inputs fallback) _ h1 in
      let (v, checked, h3) = >>=-eq-ok (check_targets r project_id targets) _ h2 in
      let (host, host_ok, h4) = >>=-eq-ok (normalize_host host_input) _ h3 in
      let (path_prefix, prefix_ok, h5) = >>=-eq-ok (normalize_path_prefix prefix_input) _ h4 in
      let (w, domain_ok, h6) = >>=-eq-ok (enforce_route_custom_domain r project_id host) _ h5 in
      let (x, quota_ok, h7) =
        >>=-eq-ok
          (if is_some (get_route r project_id host path_prefix)
            then ok tt
            else enforce_route_quota max_routes r project_id)
          _ h6 in
      let (weighted, full) =
        normalize_route_targets-weighted trimmed inputs fallback targets normal in
      subst AllServed (ok_injective h7) (
        upsert_route-AllServed _ r
          (record {
            some_target = full;
            weighted = weighted;
            owned = check_targets-IsOwned r project_id targets checked;
            primary = refl;
          })
          served)

  pub start_route_canary-AllServed :
      (project_id : String) (host_input prefix_input : Text) (deployment_id : String)
      (input : Option ℕ) (r r' : RouteRepository)
      → AllServed r
      → start_route_canary trimmed max_routes now project_id host_input prefix_input deployment_id
          input r
        ≡ ok r'
      → AllServed r'
  unfolding start_route_canary
  start_route_canary-AllServed project_id host_input prefix_input deployment_id input r r' served
        h =
      let (u, known, h1) = >>=-eq-ok (require_known_project r project_id) _ h in
      let (host, host_ok, h2) = >>=-eq-ok (normalize_host host_input) _ h1 in
      let (path_prefix, prefix_ok, h3) = >>=-eq-ok (normalize_path_prefix prefix_input) _ h2 in
      let (existing, there, h4) = >>=-eq-ok (require_route r project_id host path_prefix) _ h3 in
      let (candidate, found, h5) = >>=-eq-ok (require_deployment r deployment_id) _ h4 in
      let (g, same, h6) = >>=-eq-ok (guard (candidate.project_id == project_id) validation) _ h5 in
      let stable = first_deployment existing.deployment_id existing.targets in
      let (g', differs, h7) = >>=-eq-ok (guard (not (stable == candidate.id)) validation) _ h6 in
      let (weight, weighed, h8) = >>=-eq-ok (canary_weight input) _ h7 in
      let (old, in_project) = found-IsServed r project_id host path_prefix existing served there in
      let (positive, below) = found-canary_weight input weight weighed in
      let stable_owned : IsOwned r.deployments existing.project_id stable =
        subst (IsOwned r.deployments existing.project_id)
          (first_of "" existing.deployment_id existing.targets old.some_target)
          (first-IsOwned r.deployments existing.project_id existing.targets old.some_target
            old.owned) in
      subst AllServed (ok_injective h8) (
        upsert_route-AllServed _ r
          (record {
            some_target = omega arith;
            weighted = (omega arith, (positive, tt));
            owned = (
              stable_owned,
              (
                canary-IsOwned r deployment_id project_id existing candidate found same in_project,
                tt,
              ),
            );
            primary = refl;
          })
          served)

  pub rollback_route-AllServed :
      (project_id : String) (host_input prefix_input : Text) (wanted : Option String)
      (r r' : RouteRepository)
      → AllServed r
      → rollback_route trimmed max_routes now project_id host_input prefix_input wanted r ≡ ok r'
      → AllServed r'
  unfolding rollback_route
  rollback_route-AllServed project_id host_input prefix_input wanted r r' served h =
      let (u, known, h1) = >>=-eq-ok (require_known_project r project_id) _ h in
      let (host, host_ok, h2) = >>=-eq-ok (normalize_host host_input) _ h1 in
      let (path_prefix, prefix_ok, h3) = >>=-eq-ok (normalize_path_prefix prefix_input) _ h2 in
      let (existing, there, h4) = >>=-eq-ok (require_route r project_id host path_prefix) _ h3 in
      let id = or_else wanted (first_deployment existing.deployment_id existing.targets) in
      let (deployment, found, h5) = >>=-eq-ok (require_deployment r id) _ h4 in
      let (g, same, h6) = >>=-eq-ok (guard (deployment.project_id == project_id) validation) _ h5 in
      let (old, in_project) = found-IsServed r project_id host path_prefix existing served there in
      subst AllServed (ok_injective h6) (
        upsert_route-AllServed _ r
          (record {
            some_target = omega arith;
            weighted = (omega arith, tt);
            owned = (
              subst (λ p. IsOwned r.deployments p id) (sym in_project)
                  (IsOwned-by r id project_id deployment found same),
              tt,
            );
            primary = refl;
          })
          served)
