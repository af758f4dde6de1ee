-- ===== src/Runtime/Packing/Bounds.antt =====
-- The packing policy as an invariant of the supervisor: what is warm stays within the limits, and
-- the deployment just prepared is warm.
use odenctl.Prelude.{
  ℕ, ◌≤◌, max, ◌≡◌, ◌≢◌, refl, sym, ◌∙◌, ◌⊎◌, inl, inr, String, Bool, true, Option, none, some,
  List, [], ◌∷◌, arith, length, filter, find, Member, Bool-cases, Option-cases, string_eq, ◌==◌,
  not, eq_of_beq, beq_refl, ne_of_beq, ltb, ltb→ge, Member-filter, Member-filter_of,
}
use odenctl.Prelude.Sort.{sort, sort-Member, Member-sort}
use odenctl.Runtime.Packing.{
  Entry, Supervisor, Reason, lru, per_project_limit, Limit, finite, without, evict_deployment,
  evict_loop, evict_until, deployments_for_project, enforce_project_limit, enforce_total_limit,
  used_before,
}
use odenctl.Runtime.Packing.Entries.{
  Distinct, Distinct-filter, Distinct-one, filter_comm, filter_all, find-without, prepared-evict,
}

-- Each entry is the protected deployment's or one of the candidates.
abbrev Covers : String → List Entry → List Entry → Type 0
Covers protected entries candidates =
    (e : Entry) → Member e entries → (e.deployment_id ≡ protected) ⊎ Member e candidates

Covers-next :
    (protected : String) (entries candidates : List Entry) (c : Entry)
    → Covers protected entries (c ∷ candidates)
    → Covers protected (without c.deployment_id entries) candidates
Covers-next protected entries candidates c h e m =
    let (inside, other) = Member-filter _ entries e m in
    elim (h e inside) [
      | inl p ↦ inl p
      | inr (inl same) ↦
          let self : (e.deployment_id == c.deployment_id) ≡ true =
            rw same (beq_refl c.deployment_id) in
          ground arith
      | inr (inr later) ↦ inr later
    ]

-- With every entry covered, the loop ends within the limit, or with the protected one alone.
evict_loop-bound :
    (q : Entry → Bool) (reason : Reason) (m : ℕ) (protected : String)
    (entries candidates : List Entry) (s : Supervisor)
    → entries ≡ filter q s.prepared
    → Distinct s.prepared
    → Covers protected entries candidates
    → length (filter q (evict_loop reason m entries candidates s).prepared) ≤ max m 1
unfolding evict_loop
evict_loop-bound q reason m protected entries [] s same d covers =
    let alone : length entries ≤ 1 =
      Distinct-one protected entries (rw same (Distinct-filter q s.prepared d))
        (λ e inside. elim (covers e inside) [ inl p ↦ p | inr none_left ↦ absurd none_left ]) in
    rw (← same) (omega arith)
evict_loop-bound q reason m protected entries (c ∷ cs) s same d covers =
    elim (Bool-cases (ltb m (length entries))) [
      | inr fits ↦ rw (fits, ← same) (omega (arith, ltb→ge m (length entries) fits))
      | inl over ↦ rw over (
          evict_loop-bound q reason m protected (without c.deployment_id entries) cs
            (evict_deployment c.deployment_id reason s)
            (rw (same, prepared-evict c.deployment_id reason s, filter_comm q))
            (rw (prepared-evict c.deployment_id reason s) (Distinct-filter _ s.prepared d))
            (Covers-next protected entries cs c covers))
    ]

candidates-cover :
    (protected : String) (entries : List Entry)
    → Covers protected entries
        (sort used_before (filter (λ entry. not (entry.deployment_id == protected)) entries))
candidates-cover protected entries e m = elim (Bool-cases (e.deployment_id == protected)) [
  | inl same ↦ inl (eq_of_beq e.deployment_id protected same)
  | inr other ↦ inr (sort-Member used_before _ e (Member-filter_of _ entries e m (rw other)))
]

evict_until-bound :
    (q : Entry → Bool) (reason : Reason) (m : ℕ) (protected : String) (entries : List Entry)
    (s : Supervisor)
    → entries ≡ filter q s.prepared
    → Distinct s.prepared
    → length (filter q (evict_until entries (finite m) protected reason s).prepared) ≤ max m 1
unfolding evict_until
evict_until-bound q reason m protected entries s same d =
    evict_loop-bound q reason m protected entries _ s same d (candidates-cover protected entries)

pub total-bound :
    (limit : Option Limit) (m : ℕ) (protected : String) (s : Supervisor)
    → limit ≡ some (finite m)
    → Distinct s.prepared
    → length (enforce_total_limit limit protected s).prepared ≤ max m 1
unfolding enforce_total_limit
total-bound limit m protected s set d = rw set (
    rw (filter_all (evict_until s.prepared (finite m) protected lru s).prepared) at
      (evict_until-bound (λ e. true) lru m protected s.prepared s (sym (filter_all s.prepared)) d))

pub project-bound :
    (limit : Option Limit) (m : ℕ) (protected : String) (current : Entry) (s : Supervisor)
    → limit ≡ some (finite m)
    → find (λ entry. entry.deployment_id == protected) s.prepared ≡ some current
    → Distinct s.prepared
    → length (
        filter
          (λ entry. entry.project_id == current.project_id)
          (enforce_project_limit limit protected s).prepared)
      ≤ max m 1
unfolding enforce_project_limit deployments_for_project
project-bound limit m protected current s set found d =
    rw (set, found, enforce_project_limit)
      (evict_until-bound (λ entry. entry.project_id == current.project_id) per_project_limit m
        protected (filter (λ entry. entry.project_id == current.project_id) s.prepared) s refl d)

-- The loop does not touch an id that is no candidate's.
evict_loop-find :
    (reason : Reason) (m : ℕ) (k : String) (entries candidates : List Entry) (s : Supervisor)
    → ((e : Entry) → Member e candidates → e.deployment_id ≢ k)
    → find (λ e. e.deployment_id == k) (evict_loop reason m entries candidates s).prepared
      ≡ find (λ e. e.deployment_id == k) s.prepared
unfolding evict_loop
evict_loop-find reason m k entries [] s h = refl
evict_loop-find reason m k entries (c ∷ cs) s h = elim (Bool-cases (ltb m (length entries))) [
  | inr fits ↦ rw fits
  | inl over ↦ rw over (
      evict_loop-find reason m k (without c.deployment_id entries) cs
        (evict_deployment c.deployment_id reason s) (λ e n. h e (inr n))
      ∙ rw (prepared-evict c.deployment_id reason s)
          (find-without c.deployment_id k s.prepared (h c (inl refl))))
]

candidates-ne :
    (protected : String) (entries : List Entry) (e : Entry)
    → Member e (sort used_before (filter (λ entry. not (entry.deployment_id == protected)) entries))
    → e.deployment_id ≢ protected
candidates-ne protected entries e m =
    let (inside, other) = Member-filter _ entries e (Member-sort used_before _ e m) in
    ne_of_beq e.deployment_id protected (ground arith)

evict_until-find :
    (entries : List Entry) (limit : Limit) (protected : String) (reason : Reason) (s : Supervisor)
    → find
        (λ e. e.deployment_id == protected)
        (evict_until entries limit protected reason s).prepared
      ≡ find (λ e. e.deployment_id == protected) s.prepared
unfolding evict_until
evict_until-find entries Limit.unusable protected reason s = refl
evict_until-find entries (finite m) protected reason s =
    evict_loop-find reason m protected entries _ s (candidates-ne protected entries)

pub find-enforce_total :
    (limit : Option Limit) (protected : String) (s : Supervisor)
    → find (λ e. e.deployment_id == protected) (enforce_total_limit limit protected s).prepared
      ≡ find (λ e. e.deployment_id == protected) s.prepared
unfolding enforce_total_limit
find-enforce_total none protected s = refl
find-enforce_total (some limit) protected s = evict_until-find s.prepared limit protected lru s

pub find-enforce_project :
    (limit : Option Limit) (protected : String) (s : Supervisor)
    → find (λ e. e.deployment_id == protected) (enforce_project_limit limit protected s).prepared
      ≡ find (λ e. e.deployment_id == protected) s.prepared
unfolding enforce_project_limit
find-enforce_project none protected s = refl
find-enforce_project (some limit) protected s =
    elim (Option-cases (find (λ entry. entry.deployment_id == protected) s.prepared)) [
      | inl missing ↦ rw (missing, enforce_project_limit) missing
      | inr (current, found) ↦
          rw (found, enforce_project_limit)
            (evict_until-find (deployments_for_project current.project_id s) limit protected
                per_project_limit s
              ∙ found)
    ]
