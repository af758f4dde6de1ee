-- ===== src/Runtime/Targets/Shares.antt =====
-- How the hash slots are shared between the targets of a route.
use odenctl.Prelude.{
  ℕ, zero, suc, ◌+◌, ◌%◌, ◌≤◌, ◌<◌, ◌≡◌, ◌≢◌, refl, ap, ◌∙◌, inl, inr, String, Bool, false, Option,
  none, some, List, [], ◌∷◌, arith, filter, sum_by, Member, Bool-cases, ltb, lt→ltb, ltb→lt, ltb→ge,
  ◌==◌, nat_eq, string_eq, beq_of_ne, if◌then◌else◌,
}
use odenctl.Contracts.{RouteSnapshotTarget, RouteSnapshotEntry}
use odenctl.Runtime.RouteCache.{RouteMatchInput}
use odenctl.Runtime.Targets.{
  CompilableRouteTarget, of_target, total_weight, pick_from, select_slot, request_hash,
  select_route_target,
}

-- Slots below `start + n` and from `start` on that pass a test.
abbrev pub count_slots : (ℕ → Bool) → ℕ → ℕ → ℕ
count_slots f start zero = 0
count_slots f start (suc n) = (if f start then 1 else 0) + count_slots f (suc start) n

count_slots-split :
    (f : ℕ → Bool) (start m n : ℕ)
    → count_slots f start (m + n) ≡ count_slots f start m + count_slots f (start + m) n
count_slots-split f start zero n = rw (zero_add n, add_zero start) (omega arith)
  where
    zero_add : (k : ℕ) → 0 + k ≡ k
    zero_add k = omega arith

    add_zero : (k : ℕ) → k + 0 ≡ k
    add_zero k = omega arith
count_slots-split f start (suc m) n =
    rw (shift m n, next start m) (omega (arith, count_slots-split f (suc start) m n))
  where
    shift : (a b : ℕ) → suc a + b ≡ suc (a + b)
    shift a b = omega arith

    next : (a b : ℕ) → a + suc b ≡ suc a + b
    next a b = omega arith

-- On a range where the test does not change, all slots or none are counted.
count_slots-const :
    (f : ℕ → Bool) (b : Bool) (start n : ℕ)
    → ((s : ℕ) → start ≤ s → s < start + n → f s ≡ b)
    → count_slots f start n ≡ (if b then n else 0)
count_slots-const f b start zero h = ground arith
count_slots-const f b start (suc n) h = ground (
  arith,
  h start,
  count_slots-const f b (suc start) n (λ s lo hi. h s (omega arith) (omega arith)),
)

count_slots-ext :
    (f g : ℕ → Bool) (start n : ℕ)
    → ((s : ℕ) → start ≤ s → s < start + n → f s ≡ g s)
    → count_slots f start n ≡ count_slots g start n
count_slots-ext f g start zero h = refl
count_slots-ext f g start (suc n) h =
    ground (
      arith,
      h start,
      count_slots-ext f g (suc start) n (λ s lo hi. h s (omega arith) (omega arith)),
    )

-- the slot of a target that the test accepts
abbrev pub picks : (RouteSnapshotTarget → Bool) → Option RouteSnapshotTarget → Bool
picks p none = false
picks p (some target) = p target

pick_first :
    (slot cursor : ℕ) (target : RouteSnapshotTarget) (targets : List RouteSnapshotTarget)
    → slot < cursor + target.weight
    → pick_from slot cursor (target ∷ targets) ≡ some target
unfolding pick_from
pick_first slot cursor target targets h = rw (lt→ltb _ _ h)

pick_later :
    (slot cursor : ℕ) (target : RouteSnapshotTarget) (targets : List RouteSnapshotTarget)
    → cursor + target.weight ≤ slot
    → pick_from slot cursor (target ∷ targets) ≡ pick_from slot (cursor + target.weight) targets
unfolding pick_from
pick_later slot cursor target targets h = ground arith

shares_from :
    (p : RouteSnapshotTarget → Bool) (cursor : ℕ) (targets : List RouteSnapshotTarget)
    → count_slots (λ slot. picks p (pick_from slot cursor targets)) cursor (total_weight targets)
      ≡ sum_by (λ target. target.weight) (filter p targets)
shares_from p cursor [] = refl
shares_from p cursor (target ∷ targets) =
    count_slots-split hit cursor w (total_weight targets)
    ∙ (ap (λ (n : ℕ). n + count_slots hit (cursor + w) (total_weight targets))
          (count_slots-const hit (p target) cursor w (λ s lo hi. first s hi))
        ∙ (ap (λ (n : ℕ). (if p target then w else 0) + n)
              (count_slots-ext hit rest (cursor + w) (total_weight targets) (λ s lo hi. later s lo)
                ∙ shares_from p (cursor + w) targets)
            ∙ total))
  where
    w : ℕ
    w = target.weight

    hit : ℕ → Bool
    hit slot = picks p (pick_from slot cursor (target ∷ targets))

    rest : ℕ → Bool
    rest slot = picks p (pick_from slot (cursor + w) targets)

    first : (s : ℕ) → s < cursor + w → hit s ≡ p target
    first s hi = ap (picks p) (pick_first s cursor target targets hi)

    later : (s : ℕ) → cursor + w ≤ s → hit s ≡ rest s
    later s lo = ap (picks p) (pick_later s cursor target targets lo)

    total :
        (if p target then w else 0) + sum_by (λ t. t.weight) (filter p targets)
        ≡ sum_by (λ t. t.weight) (filter p (target ∷ targets))
    total = ground arith

-- A slot below the end of the weights picks a target, one with a positive weight.
pick_from-some :
    (slot cursor : ℕ) (targets : List RouteSnapshotTarget)
    → cursor ≤ slot
    → slot < cursor + total_weight targets
    → (target : RouteSnapshotTarget) × (pick_from slot cursor targets ≡ some target)
      × Member target targets
      × (0 < target.weight)
pick_from-some slot cursor [] lo hi = absurd (omega arith)
pick_from-some slot cursor (target ∷ targets) lo hi =
    elim (Bool-cases (ltb slot (cursor + target.weight))) [
      | inl here ↦
          let below = ltb→lt _ _ here in
          (target, pick_first slot cursor target targets below, inl refl, omega arith)
      | inr after ↦
          let above = ltb→ge _ _ after in
          let (found, picked, m, positive) =
            pick_from-some slot (cursor + target.weight) targets above (omega arith) in
          (found, pick_later slot cursor target targets above ∙ picked, inr m, positive)
    ]

module _ (route : RouteSnapshotEntry) where
  select_slot-picked :
      (slot : ℕ) (target : RouteSnapshotTarget)
      → pick_from slot 0 route.targets ≡ some target
      → select_slot route slot ≡ of_target route target
  unfolding select_slot
  select_slot-picked slot target e = rw (e, select_slot)

  select_slot-test :
      (slot : ℕ) (target : RouteSnapshotTarget) (id : String)
      → pick_from slot 0 route.targets ≡ some target
      → ((select_slot route slot).deployment_id == id) ≡ (target.deployment_id == id)
  unfolding of_target
  select_slot-test slot target id e =
      ap (λ (t : CompilableRouteTarget). t.deployment_id == id) (select_slot-picked slot target e)

  -- Of the slots below the sum of the weights, a deployment is selected in exactly as many as its
  -- targets weigh.
  pub select_slot-shares :
      (id : String)
      → count_slots
          (λ slot. (select_slot route slot).deployment_id == id)
          0
          (total_weight route.targets)
        ≡ sum_by
            (λ target. target.weight)
            (filter (λ target. target.deployment_id == id) route.targets)
  select_slot-shares id =
      count_slots-ext _ _ 0 (total_weight route.targets) (λ s lo hi. same s hi)
      ∙ shares_from (λ target. target.deployment_id == id) 0 route.targets
    where
      same :
          (s : ℕ)
          → s < 0 + total_weight route.targets
          → ((select_slot route s).deployment_id == id)
            ≡ picks (λ target. target.deployment_id == id) (pick_from s 0 route.targets)
      same s hi =
          let (target, picked, m, positive) =
            pick_from-some s 0 route.targets (omega arith) (omega arith) in
          rw (select_slot-test s target id picked, picked)

  -- A route whose weights do not sum to zero sends every request to one of its targets, one of
  -- positive weight, and hands on that target's own deployment.
  pub select_route_target-Member :
      (input : RouteMatchInput)
      → total_weight route.targets ≢ 0
      → (target : RouteSnapshotTarget) × Member target route.targets
        × (0 < target.weight)
        × (select_route_target route input ≡ of_target route target)
  unfolding select_route_target
  select_route_target-Member input h =
      let slot = request_hash input % total_weight route.targets in
      let (target, picked, m, positive) =
        pick_from-some slot 0 route.targets (omega arith) (omega arith) in
      (target, m, positive, rw (beq_of_ne _ _ h) (select_slot-picked slot target picked))
