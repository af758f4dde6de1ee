-- ===== src/ControlPlane/Routes/Runs.antt =====
-- Sequences of route calls, and what a lookup finds after one.
use odenctl.Prelude.{
  ℕ, ◌≡◌, refl, inl, inr, String, Bool, true, false, Option, some, List, [], ◌∷◌, ◌++◌, find, map,
  string_eq, is_some, Bool-cases, beq_refl,
}
use odenctl.Prelude.Text.{Text, text_eq}
use odenctl.ControlPlane.Errors.{Result, ok, err}
use odenctl.ControlPlane.Routes.{
  RoutePointer, RouteRepository, TargetInput, is_route, get_route, replaced, upsert_route,
  point_route, start_route_canary, rollback_route,
}
use odenctl.ControlPlane.Routes.Served.{AllServed}
use odenctl.ControlPlane.Routes.Keeps.{
  point_route-AllServed, start_route_canary-AllServed, rollback_route-AllServed,
}

-- a call with its arguments, the clock first
pub data Command : Type 0 where
  point :
      String → String → String → Text → Text → Option (List TargetInput) → Option String → Command
  canary : String → String → Text → Text → String → Option ℕ → Command
  rollback : String → String → Text → Text → Option String → Command

module _ (trimmed : String → String) (max_routes : Option ℕ) where
  unfoldable pub perform : Command → RouteRepository → Result RouteRepository
  unfolding point_route start_route_canary rollback_route
  perform (point now new_id project_id host prefix targets deployment_id) r =
      point_route trimmed max_routes now new_id project_id host prefix targets deployment_id r
  perform (canary now project_id host prefix deployment_id weight) r =
      start_route_canary trimmed max_routes now project_id host prefix deployment_id weight r
  perform (rollback now project_id host prefix deployment_id) r =
      rollback_route trimmed max_routes now project_id host prefix deployment_id r

  -- a call that throws changes nothing
  abbrev pub after_call : RouteRepository → Result RouteRepository → RouteRepository
  after_call r (ok r') = r'
  after_call r (err code) = r

  unfoldable pub run : RouteRepository → List Command → RouteRepository
  unfolding perform
  run r [] = r
  run r (command ∷ commands) = run (after_call r (perform command r)) commands

  perform-AllServed :
      (command : Command) (r r' : RouteRepository)
      → AllServed r
      → perform command r ≡ ok r'
      → AllServed r'
  unfolding perform
  perform-AllServed (point now new_id project_id host prefix targets deployment_id) r r' served h =
      point_route-AllServed trimmed max_routes now new_id project_id host prefix targets
        deployment_id r r' served h
  perform-AllServed (canary now project_id host prefix deployment_id weight) r r' served h =
      start_route_canary-AllServed trimmed max_routes now project_id host prefix deployment_id
        weight r r' served h
  perform-AllServed (rollback now project_id host prefix deployment_id) r r' served h =
      rollback_route-AllServed trimmed max_routes now project_id host prefix deployment_id r r'
        served h

  after_call-AllServed :
      (r : RouteRepository) (result : Result RouteRepository)
      → AllServed r
      → ((r' : RouteRepository) → result ≡ ok r' → AllServed r')
      → AllServed (after_call r result)
  after_call-AllServed r (ok r') served keeps = keeps r' refl
  after_call-AllServed r (err code) served keeps = served

  -- Any sequence of pointRoute, startRouteCanary and rollbackRoute, failed calls included, keeps every
  -- stored route servable: it has a target, each of its targets has a positive weight and names a
  -- deployment that exists in the project of the route, and its deployment is that of its first
  -- target.
  pub run-AllServed :
      (commands : List Command) (r : RouteRepository) → AllServed r → AllServed (run r commands)
  unfolding run
  run-AllServed [] r served = served
  run-AllServed (command ∷ commands) r served =
      run-AllServed commands (after_call r (perform command r)) (
        after_call-AllServed r (perform command r) served
          (λ r' h. perform-AllServed command r r' served h))

abbrev test : RoutePointer → RoutePointer → Bool
test route = is_route route.project_id route.host route.path_prefix

-- What a lookup finds of an upsert.
abbrev pub IsStored : RoutePointer → RoutePointer → Type 0
IsStored route stored =
    (stored.targets ≡ route.targets)
    × (stored.deployment_id ≡ route.deployment_id)
    × (stored.updated_at ≡ route.updated_at)

find-replaced :
    (route : RoutePointer) (rows : List RoutePointer)
    → is_some (find (test route) rows) ≡ true
    → (stored : RoutePointer) × (find (test route) (map (replaced route) rows) ≡ some stored)
      × IsStored route stored
unfolding replaced
find-replaced route [] h = cc
find-replaced route (row ∷ rows) h = elim (Bool-cases (test route row)) [
  | inl here ↦
      let e : replaced route row ≡ record row {
        deployment_id = route.deployment_id;
        targets = route.targets;
        updated_at = route.updated_at;
      } =
        rw here refl in
      (
        record row {
          deployment_id = route.deployment_id;
          targets = route.targets;
          updated_at = route.updated_at;
        },
        rw e (rw here refl),
        (refl, refl, refl),
      )
  | inr other ↦
      let e : replaced route row ≡ row = rw other refl in
      let (stored, found, is) = find-replaced route rows (rw other at h) in
      (stored, rw e (rw other found), is)
]

find-append :
    (route : RoutePointer) (rows : List RoutePointer)
    → is_some (find (test route) rows) ≡ false
    → test route route ≡ true
    → find (test route) (rows ++ route ∷ []) ≡ some route
find-append route [] h t = rw t refl
find-append route (row ∷ rows) h t = elim (Bool-cases (test route row)) [
  | inl here ↦ cc (rw here at h)
  | inr other ↦ rw other (find-append route rows (rw other at h) t)
]

-- After an upsert a lookup under its key finds a route with its targets, its deployment and its time.
pub upsert_route-get_route :
    (route : RoutePointer) (r : RouteRepository)
    → (stored : RoutePointer) × (get_route
          (upsert_route route r)
          route.project_id
          route.host
          route.path_prefix
        ≡ some stored)
      × IsStored route stored
unfolding upsert_route get_route
upsert_route-get_route route r = elim (Bool-cases (is_some (find (test route) r.routes))) [
  | inl old ↦
      let (stored, found, is) = find-replaced route r.routes old in (stored, rw old found, is)
  | inr fresh ↦
      let self : test route route ≡ true =
        rw (beq_refl route.project_id, beq_refl route.host, beq_refl route.path_prefix) refl in
      (route, rw fresh (find-append route r.routes fresh self), (refl, refl, refl))
]
