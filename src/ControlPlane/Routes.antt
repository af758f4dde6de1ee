-- ===== src/ControlPlane/Routes.antt =====
-- Route pointers: pointRoute, startRouteCanary and rollbackRoute of control-plane/service.ts over the
-- tables of control-plane/repository.ts, and the normalization of hosts, prefixes and targets in
-- control-plane/contracts.ts. The new ids and the clock are arguments; a weight that is not an
-- integer, or below zero, is `none`. Failures of the database and audit events are left out. Of a
-- project, a deployment and a domain there is what the methods read.
use odenctl.Prelude.{
  ℕ, ◌-◌, String, Bool, true, false, ◌&&◌, ◌||◌, Option, none, some, List, [], ◌∷◌, ◌++◌, length,
  filter, find, any, every, map, ltb, leb, nat_eq, string_eq, ◌==◌, not, if◌then◌else◌, is_some,
  or_else,
}
use odenctl.Prelude.Text.{Text, text_eq, trim, to_lower_case, starts_with, ends_with}
use odenctl.ControlPlane.Errors.{
  validation, not_found, Result, ok, err, ◌>>=◌, ◌>>◌, guard, require,
}
use odenctl.ControlPlane.Quotas.{enforce_limit}
pub mod Served
pub mod Keeps
pub mod Runs
pub mod Limits

pub record RouteTarget : Type 0 where
  pub deployment_id : String
  pub weight : ℕ

pub record RoutePointer : Type 0 where
  pub id : String
  pub project_id : String
  pub host : Text
  pub path_prefix : Text
  pub deployment_id : String
  pub targets : List RouteTarget
  pub updated_at : String

pub record Deployment : Type 0 where
  pub id : String
  pub project_id : String

pub record CustomDomain : Type 0 where
  pub host : Text
  pub project_id : String
  pub is_active : Bool

pub record RouteRepository : Type 0 where
  pub projects : List String
  pub deployments : List Deployment
  pub domains : List CustomDomain
  pub routes : List RoutePointer

abbrev pub is_host_char : ℕ → Bool
is_host_char c = (leb b'a' c && leb c b'z') || (leb b'0' c && leb c b'9') || c == b'.' || c == b'-'

unfoldable pub normalize_host : Text → Result Text
unfolding trim to_lower_case starts_with ends_with
normalize_host value =
    let host = to_lower_case (trim value) in
    if ltb 0 (length host)
      && every is_host_char host
      && not (starts_with host (b'.' ∷ []))
      && not (ends_with host b'.')
    then ok host
    else err validation

unfoldable pub normalize_path_prefix : Text → Result Text
unfolding trim starts_with
normalize_path_prefix value =
    if starts_with (trim value) (b'/' ∷ []) then ok (trim value) else err validation

-- a target of the input: its id, not trimmed, and its weight if that is a natural number
pub record TargetInput : Type 0 where
  pub deployment_id : String
  pub weight : Option ℕ

-- `nonEmptyString`, of a string; what it trims is a parameter of the methods
abbrev pub non_empty_string : (String → String) → String → Result String
non_empty_string trimmed value = if trimmed value == "" then err validation else ok (trimmed value)

unfoldable pub positive_integer : Option ℕ → Result ℕ
positive_integer none = err validation
positive_integer (some n) = if ltb 0 n then ok n else err validation

-- the `map` over the targets, with the ids seen so far
unfoldable pub normalize_targets :
    (String → String) → List String → List TargetInput → Result (List RouteTarget)
unfolding positive_integer
normalize_targets trimmed seen [] = ok []
normalize_targets trimmed seen (item ∷ items) = do
  id ← non_empty_string trimmed item.deployment_id
  guard (not (any (λ s. s == id) seen)) validation
  weight ← positive_integer item.weight
  rest ← normalize_targets trimmed (id ∷ seen) items
  ok (record { deployment_id = id; weight = weight } ∷ rest)

unfoldable pub normalize_route_targets :
    (String → String) → Option (List TargetInput) → Option String → Result (List RouteTarget)
unfolding normalize_targets
normalize_route_targets trimmed none none = err validation
normalize_route_targets trimmed none (some fallback) = do
  guard (not (fallback == "")) validation
  id ← non_empty_string trimmed fallback
  ok (record { deployment_id = id; weight = 100 } ∷ [])
normalize_route_targets trimmed (some []) fallback = err validation
normalize_route_targets trimmed (some (item ∷ items)) fallback =
    normalize_targets trimmed [] (item ∷ items)

unfoldable pub require_known_project : RouteRepository → String → Result (Unit {0})
require_known_project r id = guard (any (λ p. p == id) r.projects) not_found

unfoldable pub require_deployment : RouteRepository → String → Result Deployment
require_deployment r id = require (find (λ d. d.id == id) r.deployments) not_found

-- the row of the unique key
abbrev pub is_route : String → Text → Text → RoutePointer → Bool
is_route project_id host path_prefix route =
    route.project_id == project_id && route.host == host && route.path_prefix == path_prefix

unfoldable pub get_route : RouteRepository → String → Text → Text → Option RoutePointer
get_route r project_id host path_prefix = find (is_route project_id host path_prefix) r.routes

unfoldable pub require_route : RouteRepository → String → Text → Text → Result RoutePointer
unfolding get_route
require_route r project_id host path_prefix =
    require (get_route r project_id host path_prefix) not_found

unfoldable pub enforce_route_custom_domain : RouteRepository → String → Text → Result (Unit {0})
enforce_route_custom_domain r project_id host = elim (find (λ d. d.host == host) r.domains) [
  | none ↦ ok tt
  | some domain ↦ guard (domain.project_id == project_id && domain.is_active) validation
]

-- `on conflict(project_id, host, path_prefix) do update`: the id stays
unfoldable pub replaced : RoutePointer → RoutePointer → RoutePointer
replaced route row =
    if is_route route.project_id route.host route.path_prefix row
    then record row {
      deployment_id = route.deployment_id;
      targets = route.targets;
      updated_at = route.updated_at;
    }
    else row

unfoldable pub upsert_route : RoutePointer → RouteRepository → RouteRepository
unfolding get_route replaced
upsert_route route r = record r {
  routes =
      if is_some (get_route r route.project_id route.host route.path_prefix)
      then map (replaced route) r.routes
      else r.routes ++ route ∷ [];
}

abbrev pub project_routes : RouteRepository → String → List RoutePointer
project_routes r project_id = filter (λ route. route.project_id == project_id) r.routes

-- `enforceProjectQuota` for routes; the limit is what `quota_limit` gives
unfoldable pub enforce_route_quota : Option ℕ → RouteRepository → String → Result (Unit {0})
unfolding enforce_limit
enforce_route_quota limit r project_id = enforce_limit limit (length (project_routes r project_id))

-- the loop of `pointRoute` over the targets
unfoldable pub check_targets : RouteRepository → String → List RouteTarget → Result (Unit {0})
unfolding require_deployment
check_targets r project_id [] = ok tt
check_targets r project_id (target ∷ targets) = do
  deployment ← require_deployment r target.deployment_id
  guard (deployment.project_id == project_id) validation
  check_targets r project_id targets

-- `existing.targets[0]?.deploymentId ?? existing.deploymentId`, also `targets[0].deploymentId`
abbrev pub first_deployment : String → List RouteTarget → String
first_deployment fallback [] = fallback
first_deployment fallback (target ∷ targets) = target.deployment_id

unfoldable pub canary_weight : Option ℕ → Result ℕ
canary_weight none = err validation
canary_weight (some n) = if ltb n 1 || ltb 99 n then err validation else ok n

module _ (trimmed : String → String) (max_routes : Option ℕ) (now : String) where
  unfoldable pub point_route :
      String
      → String
      → Text
      → Text
      → Option (List TargetInput)
      → Option String
      → RouteRepository
      → Result RouteRepository
  unfolding require_known_project normalize_route_targets check_targets normalize_host
      normalize_path_prefix enforce_route_custom_domain enforce_route_quota upsert_route get_route
  point_route new_id project_id host_input prefix_input target_inputs deployment_id r = do
    require_known_project r project_id
    targets ← normalize_route_targets trimmed target_inputs deployment_id
    check_targets r project_id targets
    host ← normalize_host host_input
    path_prefix ← normalize_path_prefix prefix_input
    enforce_route_custom_domain r project_id host
    if is_some (get_route r project_id host path_prefix)
        then ok tt
        else enforce_route_quota max_routes r project_id
    ok (
        upsert_route
          (record {
            id = new_id;
            project_id = project_id;
            host = host;
            path_prefix = path_prefix;
            deployment_id = first_deployment "" targets;
            targets = targets;
            updated_at = now;
          })
          r)

  unfoldable pub start_route_canary :
      String → Text → Text → String → Option ℕ → RouteRepository → Result RouteRepository
  unfolding require_known_project normalize_host normalize_path_prefix require_route
      require_deployment canary_weight upsert_route
  start_route_canary project_id host_input prefix_input deployment_id weight_input r = do
    require_known_project r project_id
    host ← normalize_host host_input
    path_prefix ← normalize_path_prefix prefix_input
    existing ← require_route r project_id host path_prefix
    candidate ← require_deployment r deployment_id
    guard (candidate.project_id == project_id) validation
    let stable = first_deployment existing.deployment_id existing.targets
    guard (not (stable == candidate.id)) validation
    weight ← canary_weight weight_input
    ok (
        upsert_route
          (record existing {
            deployment_id = stable;
            targets =
                record { deployment_id = stable; weight = 100 - weight }
                ∷ record { deployment_id = candidate.id; weight = weight }
                ∷ [];
            updated_at = now;
          })
          r)

  unfoldable pub rollback_route :
      String → Text → Text → Option String → RouteRepository → Result RouteRepository
  unfolding require_known_project normalize_host normalize_path_prefix require_route
      require_deployment upsert_route
  rollback_route project_id host_input prefix_input wanted r = do
    require_known_project r project_id
    host ← normalize_host host_input
    path_prefix ← normalize_path_prefix prefix_input
    existing ← require_route r project_id host path_prefix
    let id = or_else wanted (first_deployment existing.deployment_id existing.targets)
    deployment ← require_deployment r id
    guard (deployment.project_id == project_id) validation
    ok (
        upsert_route
          (record existing {
            deployment_id = id;
            targets = record { deployment_id = id; weight = 100 } ∷ [];
            updated_at = now;
          })
          r)
