-- ===== src/ControlPlane/Routes/Served.antt =====
-- Every stored route can be served: its targets exist, belong to its project and have a weight.
use odenctl.ControlPlane.Errors.{validation, not_found, ok_injective, require-ok, guard-ok}
use odenctl.Prelude.{
  ℕ, ◌<◌, ◌≡◌, refl, sym, subst, inl, inr, String, Option, none, some, List, [], ◌∷◌, ◌++◌, arith,
  length, find, any, map, ltb, nat_eq, string_eq, ◌==◌, not, is_some, All, Bool-cases, eq_of_beq,
}
use odenctl.Prelude.Text.{text_eq}
use odenctl.ControlPlane.Errors.{validation, ok, guard, >>=-eq-ok}
use odenctl.ControlPlane.Routes.{
  RouteTarget, RoutePointer, Deployment, RouteRepository, TargetInput, non_empty_string,
  positive_integer, normalize_targets, require_deployment, is_route, get_route, replaced,
  upsert_route, check_targets, first_deployment,
}

-- The deployment exists and belongs to the project.
abbrev pub IsOwned : List Deployment → String → String → Type 0
IsOwned deployments project_id id =
    (d : Deployment) × (find (λ x. x.id == id) deployments ≡ some d) × (d.project_id ≡ project_id)

pub record IsServed (deployments : List Deployment) (route : RoutePointer) : Type 0 where
  pub some_target : 0 < length route.targets
  pub weighted : All (λ t. 0 < t.weight) route.targets
  pub owned : All (λ t. IsOwned deployments route.project_id t.deployment_id) route.targets
  pub primary : route.deployment_id ≡ first_deployment "" route.targets

-- all routes of the table
abbrev pub AllServed : RouteRepository → Type 0
AllServed r = All (IsServed r.deployments) r.routes

All-append :
    {A : Type 0} (P : A → Type 0) (xs : List A) (a : A) → All P xs → P a → All P (xs ++ a ∷ [])
All-append P [] a h p = (p, tt)
All-append P (x ∷ xs) a h p = (h.0, All-append P xs a h.1 p)

replaced-IsServed :
    (deployments : List Deployment) (route row : RoutePointer)
    → IsServed deployments route
    → IsServed deployments row
    → IsServed deployments (replaced route row)
unfolding replaced
replaced-IsServed deployments route row new old =
    elim (Bool-cases (is_route route.project_id route.host route.path_prefix row)) [
      | inr other ↦ rw other old
      | inl same ↦
          let here : row.project_id ≡ route.project_id =
            eq_of_beq row.project_id route.project_id (ground arith) in
          rw same (record {
            some_target = new.some_target;
            weighted = new.weighted;
            owned =
                subst
                  (λ (p : String). All (λ t. IsOwned deployments p t.deployment_id) route.targets)
                  (sym here) new.owned;
            primary = new.primary;
          })
    ]

All-map :
    (deployments : List Deployment) (route : RoutePointer) (rows : List RoutePointer)
    → IsServed deployments route
    → All (IsServed deployments) rows
    → All (IsServed deployments) (map (replaced route) rows)
All-map deployments route [] new h = tt
All-map deployments route (row ∷ rows) new h =
    (replaced-IsServed deployments route row new h.0, All-map deployments route rows new h.1)

pub upsert_route-AllServed :
    (route : RoutePointer) (r : RouteRepository)
    → IsServed r.deployments route
    → AllServed r
    → AllServed (upsert_route route r)
unfolding upsert_route
upsert_route-AllServed route r new h =
    elim (Bool-cases (is_some (get_route r route.project_id route.host route.path_prefix))) [
      | inl old ↦ rw old (All-map r.deployments route r.routes new h)
      | inr fresh ↦ rw fresh (All-append (IsServed r.deployments) r.routes route h new)
    ]

pub IsOwned-by :
    (r : RouteRepository) (id project_id : String) (d : Deployment) {u : Unit {0}}
    → require_deployment r id ≡ ok d
    → guard (d.project_id == project_id) validation ≡ ok u
    → IsOwned r.deployments project_id id
unfolding require_deployment
IsOwned-by r id project_id d h g = (
  d,
  require-ok not_found (find (λ x. x.id == id) r.deployments) h,
  eq_of_beq d.project_id project_id (guard-ok validation _ g),
)

pub check_targets-IsOwned :
    (r : RouteRepository) (project_id : String) (targets : List RouteTarget) {u : Unit {0}}
    → check_targets r project_id targets ≡ ok u
    → All (λ t. IsOwned r.deployments project_id t.deployment_id) targets
unfolding check_targets
check_targets-IsOwned r project_id [] h = tt
check_targets-IsOwned r project_id (target ∷ targets) h =
    let (d, found, h1) = >>=-eq-ok (require_deployment r target.deployment_id) _ h in
    let (g, same, h2) = >>=-eq-ok (guard (d.project_id == project_id) validation) _ h1 in
    (
      IsOwned-by r target.deployment_id project_id d found same,
      check_targets-IsOwned r project_id targets h2,
    )

positive_of : (o : Option ℕ) (n : ℕ) → positive_integer o ≡ ok n → 0 < n
unfolding positive_integer
positive_of none n e = cc
positive_of (some k) n e = elim (Bool-cases (ltb 0 k)) [
  | inl more ↦ ground (arith, ok_injective (rw more at e))
  | inr none_left ↦ absurd (cc (rw none_left at e))
]

-- Normalized targets have a weight, and there are as many as in the input.
pub normalize_targets-weighted :
    (trimmed : String → String) (seen : List String) (items : List TargetInput)
    (targets : List RouteTarget)
    → normalize_targets trimmed seen items ≡ ok targets
    → All (λ t. 0 < t.weight) targets × (length targets ≡ length items)
unfolding normalize_targets
normalize_targets-weighted trimmed seen [] targets h = rw (← ok_injective h) (tt, refl)
normalize_targets-weighted trimmed seen (item ∷ items) targets h =
    let (id, named, h1) = >>=-eq-ok (non_empty_string trimmed item.deployment_id) _ h in
    let (g, fresh, h2) = >>=-eq-ok (guard (not (any (λ s. s == id) seen)) validation) _ h1 in
    let (weight, positive, h3) = >>=-eq-ok (positive_integer item.weight) _ h2 in
    let (rest, later, h4) = >>=-eq-ok (normalize_targets trimmed (id ∷ seen) items) _ h3 in
    let (all, same) = normalize_targets-weighted trimmed (id ∷ seen) items rest later in
    rw (← ok_injective h4) ((positive_of item.weight weight positive, all), omega (arith, same))
