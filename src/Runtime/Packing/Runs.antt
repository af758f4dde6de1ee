-- ===== src/Runtime/Packing/Runs.antt =====
-- Whole runs of a supervisor: any interleaving of requests, failing compiles and new snapshots.
use odenctl.Prelude.{
  ℕ, ◌≡◌, refl, ◌∙◌, inl, inr, String, true, Option, none, some, List, [], ◌∷◌, ◌++◌, arith, find,
  Bool-cases, string_eq, ◌==◌,
}
use odenctl.Contracts.{RouteSnapshot}
use odenctl.Runtime.Targets.{CompilableRouteTarget}
use odenctl.Runtime.Packing.{
  Entry, Supervisor, RuntimePackingPolicy, has, touch, initial, evict_idle_deployments,
  enforce_project_limit, enforce_packing_policy, prepare_deployment, compile_failed, load_snapshot,
}
use odenctl.Runtime.Packing.Entries.{find-append_absent}
use odenctl.Runtime.Packing.Bounds.{find-enforce_total, find-enforce_project}
use odenctl.Runtime.Packing.Invariant.{
  IsPacked, prepare_deployment-IsPacked, compile_failed-IsPacked, load_snapshot-IsPacked,
}

pub data Event : Type 0 where
  request : ℕ → ℕ → CompilableRouteTarget → Event
  failure : String → Event
  snapshot : RouteSnapshot → Event

unfoldable pub apply : RuntimePackingPolicy → Supervisor → Event → Supervisor
apply policy s (request idle_now now route) =
    (prepare_deployment (some policy) idle_now now route s).0
apply policy s (failure id) = compile_failed id s
apply policy s (snapshot routes) = load_snapshot routes s

unfoldable pub run : RuntimePackingPolicy → Supervisor → List Event → Supervisor
unfolding apply
run policy s [] = s
run policy s (event ∷ events) = run policy (apply policy s event) events

apply-IsPacked :
    (policy : RuntimePackingPolicy) (event : Event) (s : Supervisor)
    → IsPacked policy s
    → IsPacked policy (apply policy s event)
unfolding apply
apply-IsPacked policy (request idle_now now route) s h =
    prepare_deployment-IsPacked policy idle_now now route s h
apply-IsPacked policy (failure id) s h = compile_failed-IsPacked policy id s h
apply-IsPacked policy (snapshot routes) s h = load_snapshot-IsPacked policy routes s h

run-keeps :
    (policy : RuntimePackingPolicy) (events : List Event) (s : Supervisor)
    → IsPacked policy s
    → IsPacked policy (run policy s events)
unfolding run
run-keeps policy [] s h = h
run-keeps policy (event ∷ events) s h =
    run-keeps policy events (apply policy s event) (apply-IsPacked policy event s h)

initial-IsPacked : (policy : RuntimePackingPolicy) → IsPacked policy initial
initial-IsPacked policy = record {
  distinct = tt;
  total = λ m set. omega arith;
  each_project = λ m id set. omega arith;
  balanced = refl;
}

-- After any sequence of requests, failed compiles and snapshots, from an empty supervisor: no
-- deployment is warm twice, each finite limit of the policy holds, in all and for each project,
-- with one entry allowed where the limit is zero, and the eviction counters add up.
pub run-IsPacked :
    (policy : RuntimePackingPolicy) (events : List Event)
    → IsPacked policy (run policy initial events)
run-IsPacked policy events = run-keeps policy events initial (initial-IsPacked policy)

find-touch :
    (id : String) (now : ℕ) (xs : List Entry)
    → has id xs ≡ true
    → (e : Entry) × (find (λ x. x.deployment_id == id) (touch id now xs) ≡ some e)
      × (e.last_used_ms ≡ now)
find-touch id now [] h = ground arith
find-touch id now (x ∷ xs) h = elim (Bool-cases (x.deployment_id == id)) [
  | inl here ↦ (record x { last_used_ms = now }, rw (here, here), refl)
  | inr other ↦
      let (e, found, used) = find-touch id now xs (ground arith) in
      (e, rw (other, other) found, used)
]

enforce-find :
    (policy : Option RuntimePackingPolicy) (id : String) (s : Supervisor)
    → find (λ x. x.deployment_id == id) (enforce_packing_policy policy id s).prepared
      ≡ find (λ x. x.deployment_id == id) s.prepared
unfolding enforce_packing_policy
enforce-find none id s = refl
enforce-find (some policy) id s =
    find-enforce_total policy.max_warm_deployments id
      (enforce_project_limit policy.max_warm_deployments_per_project id s)
    ∙ find-enforce_project policy.max_warm_deployments_per_project id s

-- A deployment that has just been prepared is warm and carries the current time, whatever the
-- policy: enforcing a limit never evicts the deployment in use.
pub prepare_deployment-warm :
    (policy : Option RuntimePackingPolicy) (idle_now now : ℕ) (route : CompilableRouteTarget)
    (s : Supervisor)
    → (e : Entry) × (find
          (λ x. x.deployment_id == route.deployment_id)
          (prepare_deployment policy idle_now now route s).0.prepared
        ≡ some e)
      × (e.last_used_ms ≡ now)
unfolding prepare_deployment
prepare_deployment-warm policy idle_now now route s =
    let s' = evict_idle_deployments policy idle_now s in
    elim (Bool-cases (has route.deployment_id s'.prepared)) [
      | inl warm ↦ rw warm (find-touch route.deployment_id now s'.prepared warm)
      | inr cold ↦
          let e : Entry = record {
            project_id = route.project_id;
            deployment_id = route.deployment_id;
            last_used_ms = now;
          } in
          (
            e,
            rw cold (
                enforce-find policy route.deployment_id
                  (record s' { prepared = s'.prepared ++ e ∷ [] })
                ∙ find-append_absent s'.prepared e cold),
            refl,
          )
    ]
