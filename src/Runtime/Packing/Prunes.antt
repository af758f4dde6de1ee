-- ===== src/Runtime/Packing/Prunes.antt =====
-- Steps that only drop entries, and count each eviction under one reason.
use odenctl.Prelude.{
  ℕ, ◌+◌, ◌≤◌, ◌≡◌, String, Bool, Option, none, some, List, [], ◌∷◌, arith, length, filter, find,
  Bool-cases, Option-cases, string_eq, ◌==◌, ltb, inl, inr,
}
use odenctl.Runtime.Packing.{
  Entry, Supervisor, Evictions, Reason, lru, per_project_limit, idle_ttl, Limit, finite, unusable,
  RuntimePackingPolicy, without, has, count_eviction, evict_deployment, evict_older,
  evict_idle_deployments, evict_loop, evict_until, deployments_for_project, enforce_project_limit,
  enforce_total_limit,
}
use odenctl.Runtime.Packing.Entries.{
  Distinct, Distinct-filter, length-filter-filter, prepared-evict,
}

-- Each eviction is counted once in the total and once under its reason.
abbrev pub IsBalanced : Evictions → Type 0
IsBalanced e = e.total ≡ e.lru + e.per_project_limit + e.idle_ttl

pub record Prunes (s s' : Supervisor) : Type 0 where
  pub fewer : (q : Entry → Bool) → length (filter q s'.prepared) ≤ length (filter q s.prepared)
  pub distinct : Distinct s.prepared → Distinct s'.prepared
  pub balanced : IsBalanced s.evictions → IsBalanced s'.evictions

pub Prunes-refl : (s : Supervisor) → Prunes s s
Prunes-refl s = record { fewer = λ q. omega arith; distinct = λ d. d; balanced = λ b. b }

pub Prunes-trans : {s t u : Supervisor} → Prunes s t → Prunes t u → Prunes s u
Prunes-trans p q = record {
  fewer = λ f. omega (arith, p.fewer f, q.fewer f);
  distinct = λ d. q.distinct (p.distinct d);
  balanced = λ b. q.balanced (p.balanced b);
}

count-IsBalanced :
    (reason : Reason) (e : Evictions) → IsBalanced e → IsBalanced (count_eviction reason e)
unfolding count_eviction
count-IsBalanced lru e b = omega arith
count-IsBalanced per_project_limit e b = omega arith
count-IsBalanced idle_ttl e b = omega arith

evict-IsBalanced :
    (id : String) (reason : Reason) (s : Supervisor)
    → IsBalanced s.evictions
    → IsBalanced (evict_deployment id reason s).evictions
unfolding evict_deployment
evict-IsBalanced id reason s b = elim (Bool-cases (has id s.prepared)) [
  | inl warm ↦ rw warm (count-IsBalanced reason s.evictions b)
  | inr cold ↦ rw cold b
]

pub evict-Prunes :
    (id : String) (reason : Reason) (s : Supervisor) → Prunes s (evict_deployment id reason s)
evict-Prunes id reason s = record {
  fewer = λ q. rw (prepared-evict id reason s) (length-filter-filter _ q s.prepared);
  distinct = λ d. rw (prepared-evict id reason s) (Distinct-filter _ s.prepared d);
  balanced = evict-IsBalanced id reason s;
}

evict_older-Prunes :
    (cutoff : ℕ) (entries : List Entry) (s : Supervisor) → Prunes s (evict_older cutoff entries s)
unfolding evict_older
evict_older-Prunes cutoff [] s = Prunes-refl s
evict_older-Prunes cutoff (e ∷ es) s = elim (Bool-cases (ltb e.last_used_ms cutoff)) [
  | inl old ↦ rw old (
      Prunes-trans (evict-Prunes e.deployment_id idle_ttl s)
        (evict_older-Prunes cutoff es (evict_deployment e.deployment_id idle_ttl s)))
  | inr young ↦ rw young (evict_older-Prunes cutoff es s)
]

pub evict_idle-Prunes :
    (policy : Option RuntimePackingPolicy) (now : ℕ) (s : Supervisor)
    → Prunes s (evict_idle_deployments policy now s)
unfolding evict_idle_deployments
evict_idle-Prunes none now s = Prunes-refl s
evict_idle-Prunes (some policy) now s = elim (Option-cases policy.max_idle_deployment_age_ms) [
  | inl unset ↦ rw (unset, evict_idle_deployments) (Prunes-refl s)
  | inr (age, set) ↦ rw (set, evict_idle_deployments) (evict_older-Prunes _ s.prepared s)
]

pub evict_loop-Prunes :
    (reason : Reason) (m : ℕ) (entries candidates : List Entry) (s : Supervisor)
    → Prunes s (evict_loop reason m entries candidates s)
unfolding evict_loop
evict_loop-Prunes reason m entries [] s = Prunes-refl s
evict_loop-Prunes reason m entries (c ∷ cs) s = elim (Bool-cases (ltb m (length entries))) [
  | inl over ↦ rw over (
      Prunes-trans (evict-Prunes c.deployment_id reason s) (
        evict_loop-Prunes reason m (without c.deployment_id entries) cs
          (evict_deployment c.deployment_id reason s)))
  | inr fits ↦ rw fits (Prunes-refl s)
]

pub evict_until-Prunes :
    (entries : List Entry) (limit : Limit) (protected : String) (reason : Reason) (s : Supervisor)
    → Prunes s (evict_until entries limit protected reason s)
unfolding evict_until
evict_until-Prunes entries unusable protected reason s = Prunes-refl s
evict_until-Prunes entries (finite m) protected reason s = evict_loop-Prunes reason m entries _ s

pub enforce_total-Prunes :
    (limit : Option Limit) (protected : String) (s : Supervisor)
    → Prunes s (enforce_total_limit limit protected s)
unfolding enforce_total_limit
enforce_total-Prunes none protected s = Prunes-refl s
enforce_total-Prunes (some limit) protected s = evict_until-Prunes s.prepared limit protected lru s

pub enforce_project-Prunes :
    (limit : Option Limit) (protected : String) (s : Supervisor)
    → Prunes s (enforce_project_limit limit protected s)
unfolding enforce_project_limit
enforce_project-Prunes none protected s = Prunes-refl s
enforce_project-Prunes (some limit) protected s =
    elim (Option-cases (find (λ entry. entry.deployment_id == protected) s.prepared)) [
      | inl missing ↦ rw (missing, enforce_project_limit) (Prunes-refl s)
      | inr (current, found) ↦
          rw (found, enforce_project_limit)
            (evict_until-Prunes (deployments_for_project current.project_id s) limit protected
              per_project_limit s)
    ]
