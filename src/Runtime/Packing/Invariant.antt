-- ===== src/Runtime/Packing/Invariant.antt =====
-- The steps of the supervisor keep the packing policy, the distinct ids and the balanced counters.
use odenctl.Prelude.{
  ℕ, suc, ◌≤◌, max, ◌≡◌, refl, ap, inl, inr, String, Bool, true, false, some, List, [], ◌∷◌, ◌++◌,
  arith, length, filter, Bool-cases, string_eq, ◌==◌, eq_of_beq, length-filter-le,
}
use odenctl.Contracts.{RouteSnapshot}
use odenctl.Runtime.Targets.{CompilableRouteTarget}
use odenctl.Runtime.Packing.{
  Entry, Supervisor, finite, RuntimePackingPolicy, has, touch, evict_idle_deployments,
  enforce_project_limit, enforce_total_limit, enforce_packing_policy, prepare_deployment,
  compile_failed, load_snapshot,
}
use odenctl.Runtime.Packing.Entries.{
  Distinct, Distinct-filter, Distinct-append, filter_all, length-filter-filter, find-append_absent,
  length-filter-append,
}
use odenctl.Runtime.Packing.Prunes.{
  IsBalanced, Prunes, evict_idle-Prunes, enforce_total-Prunes, enforce_project-Prunes,
}
use odenctl.Runtime.Packing.Bounds.{total-bound, project-bound}

abbrev pub in_project : String → Entry → Bool
in_project id entry = entry.project_id == id

-- No deployment is warm twice, the limits hold (a limit below one still lets the deployment in use
-- stay), and the counters add up.
pub record IsPacked (policy : RuntimePackingPolicy) (s : Supervisor) : Type 0 where
  pub distinct : Distinct s.prepared
  pub total : (m : ℕ) → policy.max_warm_deployments ≡ some (finite m) → length s.prepared ≤ max m 1
  pub each_project :
      (m : ℕ) (id : String)
      → policy.max_warm_deployments_per_project ≡ some (finite m)
      → length (filter (in_project id) s.prepared) ≤ max m 1
  pub balanced : IsBalanced s.evictions

length-Prunes : {s s' : Supervisor} → Prunes s s' → length s'.prepared ≤ length s.prepared
length-Prunes {s} {s'} p = omega (
  arith,
  p.fewer (λ e. true),
  ap (length {A = Entry}) (filter_all s.prepared),
  ap (length {A = Entry}) (filter_all s'.prepared),
)

module _ (policy : RuntimePackingPolicy) where
  IsPacked-Prunes : {s s' : Supervisor} → Prunes s s' → IsPacked policy s → IsPacked policy s'
  IsPacked-Prunes {s} {s'} p h = record {
    distinct = p.distinct h.distinct;
    total = λ m set. omega (arith, h.total m set, length-Prunes p);
    each_project = λ m id set. omega (arith, h.each_project m id set, p.fewer (in_project id));
    balanced = p.balanced h.balanced;
  }

  -- the state after a new entry and before the limits are enforced
  abbrev with_entry : Entry → Supervisor → Supervisor
  with_entry e s = record s { prepared = s.prepared ++ e ∷ [] }

  enforce-IsPacked :
      (e : Entry) (s : Supervisor)
      → IsPacked policy s
      → has e.deployment_id s.prepared ≡ false
      → IsPacked policy (enforce_packing_policy (some policy) e.deployment_id (with_entry e s))
  unfolding enforce_packing_policy
  enforce-IsPacked e s h new = record {
    distinct = last.distinct (first.distinct d);
    total = λ m set.
        total-bound policy.max_warm_deployments m e.deployment_id mid set (first.distinct d);
    each_project = λ m id set. omega (arith, last.fewer (in_project id), project m id set);
    balanced = last.balanced (first.balanced h.balanced);
  }
    where
      mid : Supervisor
      mid =
          enforce_project_limit policy.max_warm_deployments_per_project e.deployment_id
            (with_entry e s)

      first : Prunes (with_entry e s) mid
      first =
          enforce_project-Prunes policy.max_warm_deployments_per_project e.deployment_id
            (with_entry e s)

      last : Prunes mid (enforce_total_limit policy.max_warm_deployments e.deployment_id mid)
      last = enforce_total-Prunes policy.max_warm_deployments e.deployment_id mid

      d : Distinct (s.prepared ++ e ∷ [])
      d = Distinct-append s.prepared e h.distinct new

      project :
          (m : ℕ) (id : String)
          → policy.max_warm_deployments_per_project ≡ some (finite m)
          → length (filter (in_project id) mid.prepared) ≤ max m 1
      project m id set = elim (Bool-cases (in_project id e)) [
        | inl own ↦ rw (← eq_of_beq e.project_id id own) (
            project-bound policy.max_warm_deployments_per_project m e.deployment_id e
              (with_entry e s) set (find-append_absent s.prepared e new) d)
        | inr other ↦ omega (
          arith,
          first.fewer (in_project id),
          h.each_project m id set,
          ap (length {A = Entry}) (length-filter-append (in_project id) s.prepared e other),
        )
      ]

  has-touch : (k id : String) (now : ℕ) (xs : List Entry) → has k (touch id now xs) ≡ has k xs
  has-touch k id now [] = refl
  has-touch k id now (x ∷ xs) = ground (arith, has-touch k id now xs)

  touch-Distinct :
      (id : String) (now : ℕ) (xs : List Entry) → Distinct xs → Distinct (touch id now xs)
  touch-Distinct id now [] d = tt
  touch-Distinct id now (x ∷ xs) d =
      (ground (arith, has-touch x.deployment_id id now xs), touch-Distinct id now xs d.1)

  length-touch : (id : String) (now : ℕ) (xs : List Entry) → length (touch id now xs) ≡ length xs
  length-touch id now [] = refl
  length-touch id now (x ∷ xs) = ap suc (length-touch id now xs)

  length-filter-touch :
      (project id : String) (now : ℕ) (xs : List Entry)
      → length (filter (in_project project) (touch id now xs))
        ≡ length (filter (in_project project) xs)
  length-filter-touch project id now [] = refl
  length-filter-touch project id now (x ∷ xs) =
      ground (arith, length-filter-touch project id now xs)

  touch-IsPacked :
      (id : String) (now : ℕ) (s : Supervisor)
      → IsPacked policy s
      → IsPacked policy (record s { prepared = touch id now s.prepared })
  touch-IsPacked id now s h = record {
    distinct = touch-Distinct id now s.prepared h.distinct;
    total = λ m set. rw (length-touch id now s.prepared) (h.total m set);
    each_project = λ m project set.
        rw (length-filter-touch project id now s.prepared) (h.each_project m project set);
    balanced = h.balanced;
  }

  -- Preparing a deployment, warm already or not, keeps the packing invariant.
  pub prepare_deployment-IsPacked :
      (idle_now now : ℕ) (route : CompilableRouteTarget) (s : Supervisor)
      → IsPacked policy s
      → IsPacked policy (prepare_deployment (some policy) idle_now now route s).0
  unfolding prepare_deployment
  prepare_deployment-IsPacked idle_now now route s h =
      let s' = evict_idle_deployments (some policy) idle_now s in
      let h' : IsPacked policy s' =
        IsPacked-Prunes (evict_idle-Prunes (some policy) idle_now s) h in
      elim (Bool-cases (has route.deployment_id s'.prepared)) [
        | inl warm ↦ rw warm (touch-IsPacked route.deployment_id now s' h')
        | inr cold ↦ rw cold (
            enforce-IsPacked
              (record {
                project_id = route.project_id;
                deployment_id = route.deployment_id;
                last_used_ms = now;
              })
              s' h' cold)
      ]

  filter-IsPacked :
      (p : Entry → Bool) (s : Supervisor)
      → IsPacked policy s
      → IsPacked policy (record s { prepared = filter p s.prepared })
  filter-IsPacked p s h = record {
    distinct = Distinct-filter p s.prepared h.distinct;
    total = λ m set. omega (arith, h.total m set, length-filter-le p s.prepared);
    each_project = λ m id set.
        omega (arith, h.each_project m id set, length-filter-filter p (in_project id) s.prepared);
    balanced = h.balanced;
  }

  pub compile_failed-IsPacked :
      (id : String) (s : Supervisor) → IsPacked policy s → IsPacked policy (compile_failed id s)
  unfolding compile_failed
  compile_failed-IsPacked id s h = filter-IsPacked _ s h

  pub load_snapshot-IsPacked :
      (snapshot : RouteSnapshot) (s : Supervisor)
      → IsPacked policy s
      → IsPacked policy (load_snapshot snapshot s)
  unfolding load_snapshot
  load_snapshot-IsPacked snapshot s h = filter-IsPacked _ s h
