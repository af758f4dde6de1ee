-- ===== src/Runtime/Packing.antt =====
-- The warm deployments of runtime/supervisor.ts (`createRuntimeSupervisor`): the map `prepared`, in
-- insertion order, the packing policy and its counters. Compiling happens outside: a `Prepared`
-- entry stands for a compile that has been started, and `compile_failed` is the step that the
-- `catch` of its promise makes later. Each reading of the clock is an argument.
use odenctl.Prelude.{
  ℕ, ◌+◌, ◌-◌, String, Bool, true, false, Option, none, some, List, [], ◌∷◌, ◌++◌, length, filter,
  find, ltb, leb, any, string_eq, ◌==◌, not, if◌then◌else◌,
}
use odenctl.Prelude.Sort.{sort}
use odenctl.Contracts.{RouteSnapshot}
use odenctl.Runtime.Targets.{CompilableRouteTarget, is_active_deployment}
pub mod Entries
pub mod Prunes
pub mod Bounds
pub mod Invariant
pub mod Runs

pub record PreparedDeploymentEntry : Type 0 where
  pub project_id : String
  pub deployment_id : String
  pub last_used_ms : ℕ

-- A limit of the policy: `finite n` is a number from n up to, and not including, n + 1;
-- `unusable` is negative, infinite or NaN.
pub data Limit : Type 0 where
  finite : ℕ → Limit
  unusable : Limit

pub record RuntimePackingPolicy : Type 0 where
  pub max_warm_deployments : Option Limit
  pub max_warm_deployments_per_project : Option Limit
  pub max_idle_deployment_age_ms : Option ℕ

pub record Evictions : Type 0 where
  pub total : ℕ
  pub lru : ℕ
  pub per_project_limit : ℕ
  pub idle_ttl : ℕ

pub data Reason : Type 0 where
  lru per_project_limit idle_ttl : Reason

pub record Supervisor : Type 0 where
  pub prepared : List PreparedDeploymentEntry
  pub evictions : Evictions

abbrev pub Entry : Type 0
Entry = PreparedDeploymentEntry

abbrev pub without : String → List Entry → List Entry
without id = filter (λ entry. not (entry.deployment_id == id))

abbrev pub has : String → List Entry → Bool
has id = any (λ entry. entry.deployment_id == id)

unfoldable pub count_eviction : Reason → Evictions → Evictions
count_eviction lru e = record e { total = e.total + 1; lru = e.lru + 1 }
count_eviction per_project_limit e = record e {
  total = e.total + 1;
  per_project_limit = e.per_project_limit + 1;
}
count_eviction idle_ttl e = record e { total = e.total + 1; idle_ttl = e.idle_ttl + 1 }

unfoldable pub evict_deployment : String → Reason → Supervisor → Supervisor
unfolding count_eviction
evict_deployment id reason s =
    if has id s.prepared
    then record { prepared = without id s.prepared; evictions = count_eviction reason s.evictions }
    else s

-- the loop of `evictIdleDeployments` over the copied values
unfoldable pub evict_older : ℕ → List Entry → Supervisor → Supervisor
unfolding evict_deployment
evict_older cutoff [] s = s
evict_older cutoff (entry ∷ entries) s =
    evict_older cutoff entries
      (if ltb entry.last_used_ms cutoff then evict_deployment entry.deployment_id idle_ttl s else s)

-- A cutoff before the clock's start keeps everything, as the negative cutoff of the source does.
unfoldable pub evict_idle_deployments : Option RuntimePackingPolicy → ℕ → Supervisor → Supervisor
unfolding evict_older
evict_idle_deployments none now s = s
evict_idle_deployments (some policy) now s = elim policy.max_idle_deployment_age_ms [
  | none ↦ s
  | some max_idle ↦ evict_older (now - max_idle) s.prepared s
]

-- the `while` of `evictUntil`: each round takes the first candidate
unfoldable pub evict_loop : Reason → ℕ → List Entry → List Entry → Supervisor → Supervisor
unfolding evict_deployment
evict_loop reason max_entries entries [] s = s
evict_loop reason max_entries entries (candidate ∷ candidates) s =
    let rest =
      evict_loop reason max_entries (without candidate.deployment_id entries) candidates
        (evict_deployment candidate.deployment_id reason s) in
    if ltb max_entries (length entries) then rest else s

abbrev pub used_before : Entry → Entry → Bool
used_before left right = leb left.last_used_ms right.last_used_ms

unfoldable pub evict_until : List Entry → Limit → String → Reason → Supervisor → Supervisor
unfolding evict_loop sort
evict_until entries unusable protected reason s = s
evict_until entries (finite max_entries) protected reason s =
    evict_loop reason max_entries entries
      (sort used_before (filter (λ entry. not (entry.deployment_id == protected)) entries)) s

unfoldable pub deployments_for_project : String → Supervisor → List Entry
deployments_for_project project_id s = filter (λ entry. entry.project_id == project_id) s.prepared

-- the limit for each project, of the project of the protected deployment
unfoldable pub enforce_project_limit : Option Limit → String → Supervisor → Supervisor
unfolding evict_until deployments_for_project
enforce_project_limit none protected s = s
enforce_project_limit (some limit) protected s =
    elim (find (λ entry. entry.deployment_id == protected) s.prepared) [
      | none ↦ s
      | some current ↦
          evict_until (deployments_for_project current.project_id s) limit protected
            per_project_limit s
    ]

unfoldable pub enforce_total_limit : Option Limit → String → Supervisor → Supervisor
unfolding evict_until
enforce_total_limit none protected s = s
enforce_total_limit (some limit) protected s = evict_until s.prepared limit protected lru s

unfoldable pub enforce_packing_policy :
    Option RuntimePackingPolicy → String → Supervisor → Supervisor
unfolding enforce_project_limit enforce_total_limit
enforce_packing_policy none protected s = s
enforce_packing_policy (some policy) protected s =
    enforce_total_limit policy.max_warm_deployments protected
      (enforce_project_limit policy.max_warm_deployments_per_project protected s)

abbrev pub touch : String → ℕ → List Entry → List Entry
touch id now [] = []
touch id now (entry ∷ entries) =
    (if entry.deployment_id == id then record entry { last_used_ms = now } else entry)
    ∷ touch id now entries

-- `prepareDeployment`, up to the promise it returns: the Boolean says that the promise is a new
-- compile. `idle_now` and `now` are the two readings of the clock.
unfoldable pub prepare_deployment :
    Option RuntimePackingPolicy → ℕ → ℕ → CompilableRouteTarget → Supervisor → Supervisor × Bool
unfolding evict_idle_deployments enforce_packing_policy
prepare_deployment policy idle_now now route s =
    let s' = evict_idle_deployments policy idle_now s in
    if has route.deployment_id s'.prepared
    then (record s' { prepared = touch route.deployment_id now s'.prepared }, false)
    else (
      enforce_packing_policy policy route.deployment_id (record s' {
        prepared =
            s'.prepared
            ++ record {
              project_id = route.project_id;
              deployment_id = route.deployment_id;
              last_used_ms = now;
            }
              ∷ [];
      }),
      true,
    )

-- the `catch` of a compile: whatever entry stands under the id is dropped
unfoldable pub compile_failed : String → Supervisor → Supervisor
compile_failed id s = record s { prepared = without id s.prepared }

-- `loadSnapshot`: what the snapshot no longer names is dropped
unfoldable pub load_snapshot : RouteSnapshot → Supervisor → Supervisor
unfolding is_active_deployment
load_snapshot snapshot s = record s {
  prepared = filter (λ entry. is_active_deployment snapshot entry.deployment_id) s.prepared;
}

abbrev pub initial : Supervisor
initial = record {
  prepared = [];
  evictions = record { total = 0; lru = 0; per_project_limit = 0; idle_ttl = 0 };
}
