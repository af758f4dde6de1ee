-- ===== src/ControlPlane/Routes/Limits.antt =====
-- The quota on the routes of a project.
use odenctl.ControlPlane.Errors.{validation, ok_injective, guard-ok, validation}
use odenctl.Prelude.{
  ℕ, ◌+◌, ◌≤◌, ◌<◌, ◌≡◌, refl, subst, inl, inr, String, Bool, Option, some, List, [], ◌∷◌, ◌++◌,
  arith, length, filter, map, ltb, string_eq, ◌==◌, if◌then◌else◌, is_some, Bool-cases, eq_of_beq,
}
use odenctl.Prelude.Text.{Text, text_eq}
use odenctl.ControlPlane.Errors.{ok, >>=-eq-ok}
use odenctl.ControlPlane.Routes.{
  RoutePointer, RouteRepository, TargetInput, is_route, get_route, replaced, upsert_route,
  project_routes, normalize_route_targets, check_targets, normalize_host, normalize_path_prefix,
  enforce_route_custom_domain, enforce_route_quota, require_known_project, point_route,
}
use odenctl.ControlPlane.Quotas.{enforce_limit}

abbrev in_project : String → RoutePointer → Bool
in_project q route = route.project_id == q

replaced-in_project :
    (q : String) (route row : RoutePointer) → in_project q (replaced route row) ≡ in_project q row
unfolding replaced
replaced-in_project q route row =
    elim (Bool-cases (is_route route.project_id route.host route.path_prefix row)) [
      | inl same ↦ rw same refl
      | inr other ↦ rw other refl
    ]

length-replaced :
    (q : String) (route : RoutePointer) (rows : List RoutePointer)
    → length (filter (in_project q) (map (replaced route) rows))
      ≡ length (filter (in_project q) rows)
length-replaced q route [] = refl
length-replaced q route (row ∷ rows) =
    let same = replaced-in_project q route row in
    let rest = length-replaced q route rows in
    elim (Bool-cases (in_project q row)) [
      | inl yes_in ↦ rw (same, yes_in) (omega (arith, rest))
      | inr out ↦ rw (same, out) rest
    ]

length-added :
    (q : String) (route : RoutePointer) (rows : List RoutePointer)
    → length (filter (in_project q) (rows ++ route ∷ []))
      ≡ length (filter (in_project q) rows) + (if in_project q route then 1 else 0)
length-added q route [] = elim (Bool-cases (in_project q route)) [
  | inl y ↦ rw y refl
  | inr n ↦ rw n refl
]
length-added q route (row ∷ rows) = elim (Bool-cases (in_project q row)) [
  | inl y ↦ rw y (omega (arith, length-added q route rows))
  | inr n ↦ rw n (length-added q route rows)
]

quota_left :
    (n : ℕ) (r : RouteRepository) (project_id : String) {u : Unit {0}}
    → enforce_route_quota (some n) r project_id ≡ ok u
    → length (project_routes r project_id) < n
unfolding enforce_route_quota enforce_limit
quota_left n r project_id h =
    let below = guard-ok validation (ltb (length (project_routes r project_id)) n) h in ground arith

upsert-within :
    (n : ℕ) (q : String) (route : RoutePointer) (r : RouteRepository) {u : Unit {0}}
    → (if is_some (get_route r route.project_id route.host route.path_prefix)
        then ok tt
        else enforce_route_quota (some n) r route.project_id)
      ≡ ok u
    → length (project_routes r q) ≤ n
    → length (project_routes (upsert_route route r) q) ≤ n
unfolding upsert_route
upsert-within n q route r h within =
    let one : Bool → ℕ = λ b. if b then 1 else 0 in
    elim (Bool-cases (is_some (get_route r route.project_id route.host route.path_prefix))) [
      | inl old ↦ rw old (omega (arith, length-replaced q route r.routes))
      | inr fresh ↦
          let added = length-added q route r.routes in
          let left : length (project_routes r route.project_id) < n =
            quota_left n r route.project_id (rw fresh at h) in
          rw fresh (elim (Bool-cases (in_project q route)) [
            | inr n_in ↦
                let more : one (in_project q route) ≡ 0 = rw n_in refl in omega (arith, added, more)
            | inl y_in ↦
                let more : one (in_project q route) ≡ 1 = rw y_in refl in
                let here : length (project_routes r q) < n =
                  subst (λ x. length (project_routes r x) < n) (eq_of_beq route.project_id q y_in)
                    left in
                omega (arith, added, more)
          ])
    ]

-- With a quota of n routes, a pointRoute that succeeds leaves every project that had at most n routes
-- with at most n routes.
pub point_route-within :
    (trimmed : String → String) (n : ℕ) (now new_id project_id : String)
    (host_input prefix_input : Text) (inputs : Option (List TargetInput)) (fallback : Option String)
    (r r' : RouteRepository) (q : String)
    → point_route trimmed (some n) now new_id project_id host_input prefix_input inputs fallback r
      ≡ ok r'
    → length (project_routes r q) ≤ n
    → length (project_routes r' q) ≤ n
unfolding point_route
point_route-within trimmed n now new_id project_id host_input prefix_input inputs fallback r r' q h
      within =
    let (u, known, h1) = >>=-eq-ok (require_known_project r project_id) _ h in
    let (targets, normal, h2) = >>=-eq-ok (normalize_route_targets trimmed inputs fallback) _ h1 in
    let (v, checked, h3) = >>=-eq-ok (check_targets r project_id targets) _ h2 in
    let (host, host_ok, h4) = >>=-eq-ok (normalize_host host_input) _ h3 in
    let (path_prefix, prefix_ok, h5) = >>=-eq-ok (normalize_path_prefix prefix_input) _ h4 in
    let (w, domain_ok, h6) = >>=-eq-ok (enforce_route_custom_domain r project_id host) _ h5 in
    let (x, quota_ok, h7) =
      >>=-eq-ok
        (if is_some (get_route r project_id host path_prefix)
          then ok tt
          else enforce_route_quota (some n) r project_id)
        _ h6 in
    subst (λ (s : RouteRepository). length (project_routes s q) ≤ n) (ok_injective h7)
      (upsert-within n q _ r quota_ok within)
