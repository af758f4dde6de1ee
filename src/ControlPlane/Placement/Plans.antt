-- ===== src/ControlPlane/Placement/Plans.antt =====
-- What a placement plan sends to which node.
use odenctl.ControlPlane.Errors.{ok_injective}
use odenctl.Prelude.{
  ◌≡◌, refl, sym, ap, subst, ◌∙◌, ◌⊎◌, inl, inr, String, Bool, true, false, none, some, List, [],
  ◌∷◌, arith, length, nat_eq, ◌==◌, if◌then◌else◌, ◌&&◌, not, Member, Bool-cases, Option-cases,
  string_eq,
}
use odenctl.Prelude.Sort.{sort, Member-sort, sort-Member}
use odenctl.Contracts.{RouteSnapshotEntry, RouteSnapshot}
use odenctl.ControlPlane.Errors.{Result, ok, >>=-eq-ok}
use odenctl.ControlPlane.Placement.{
  RuntimeNode, RuntimePlacementRule, RuntimePlacementPolicy, rule_for, isolation_projects,
  is_drained, filter_ok, isolation_node_ids, node_matches_rule, route_visible_to_node,
  route_snapshot_for_runtime_node, snapshot_requires_tenant_drain_publish, plan_nodes,
  plan_runtime_snapshot_placements, sort_by_load, loaded_before,
}
use odenctl.ControlPlane.Placement.Filters.{
  filter_ok-Member, Member-filter_ok, filter_ok-all, snapshot_with_routes_routes,
}

module _ (collates : String → String → Bool) (digest : String → List RouteSnapshotEntry → String)
    (nodes : List RuntimeNode) (policy : RuntimePlacementPolicy) where
  -- The node may see the project: its rule of isolation selects the node, or the project has no such
  -- rule and is not drained.
  abbrev pub IsAllowed : RuntimeNode → String → Type 0
  IsAllowed node project_id =
      ((rule : RuntimePlacementRule) × (rule_for project_id (isolation_projects policy) ≡ some rule)
        × (node_matches_rule collates digest nodes node rule ≡ ok true))
      ⊎ ((rule_for project_id (isolation_projects policy) ≡ none)
          × (is_drained policy project_id ≡ false))

  visible-IsAllowed :
      (node : RuntimeNode) (ids : List String) (project_id : String)
      → route_visible_to_node collates digest nodes policy node ids project_id ≡ ok true
      → IsAllowed node project_id
  unfolding route_visible_to_node
  visible-IsAllowed node ids project_id h =
      elim (Option-cases (rule_for project_id (isolation_projects policy))) [
        | inr (rule, set) ↦ inl (rule, set, rw (set, route_visible_to_node) at h)
        | inl unset ↦ elim (Bool-cases (is_drained policy project_id)) [
          | inl drained ↦ absurd (cc (rw (drained) at (rw (unset, route_visible_to_node) at h)))
          | inr serves ↦ inr (unset, serves)
        ]
      ]

  module _ (snapshot : RouteSnapshot) where
    abbrev sees : RuntimeNode → List String → RouteSnapshotEntry → Result Bool
    sees node ids route =
        route_visible_to_node collates digest nodes policy node ids route.project_id

    -- The routes of the snapshot for a node are those that it may see.
    placed-routes :
        (node : RuntimeNode) (placed : RouteSnapshot)
        → route_snapshot_for_runtime_node collates digest nodes snapshot node (some policy)
          ≡ ok placed
        → (ids : List String) × (isolation_node_ids collates digest nodes
              (isolation_projects policy)
            ≡ ok ids)
          × (filter_ok (sees node ids) snapshot.routes ≡ ok placed.routes)
    unfolding route_snapshot_for_runtime_node
    placed-routes node placed h =
        let (ids, isolated, h1) =
          >>=-eq-ok (isolation_node_ids collates digest nodes (isolation_projects policy)) _ h in
        let (routes, filtered, h2) = >>=-eq-ok (filter_ok (sees node ids) snapshot.routes) _ h1 in
        let e =
          snapshot_with_routes_routes digest collates snapshot routes
            (filter_ok-all (sees node ids) snapshot.routes routes filtered) in
        let same : placed.routes ≡ routes =
          ap (λ (s : RouteSnapshot). s.routes) (sym (ok_injective h2)) ∙ e in
        (ids, isolated, filtered ∙ ap ok (sym same))

    abbrev skips : RouteSnapshot → Bool
    skips placed =
        length placed.routes == 0
        && not (snapshot_requires_tenant_drain_publish snapshot (some policy))
        && not (length snapshot.routes == 0)

    plan_nodes-parts :
        (node : RuntimeNode) (later : List RuntimeNode) (plans : List (RuntimeNode × RouteSnapshot))
        → plan_nodes collates digest nodes snapshot policy (node ∷ later) ≡ ok plans
        → (placed : RouteSnapshot) × (rest : List (RuntimeNode × RouteSnapshot))
          × (route_snapshot_for_runtime_node collates digest nodes snapshot node (some policy)
              ≡ ok placed)
          × (plan_nodes collates digest nodes snapshot policy later ≡ ok rest)
          × (plans ≡ (if skips placed then rest else (node, placed) ∷ rest))
    unfolding plan_nodes
    plan_nodes-parts node later plans h =
        let (placed, here, h1) =
          >>=-eq-ok
            (route_snapshot_for_runtime_node collates digest nodes snapshot node (some policy)) _
            h in
        let (rest, there, h2) =
          >>=-eq-ok (plan_nodes collates digest nodes snapshot policy later) _ h1 in
        (placed, rest, here, there, sym (ok_injective h2))

    plan_nodes_nil :
        (plans : List (RuntimeNode × RouteSnapshot))
        → plan_nodes collates digest nodes snapshot policy [] ≡ ok plans
        → plans ≡ []
    unfolding plan_nodes
    plan_nodes_nil plans h = sym (ok_injective h)

    -- Each entry is the snapshot for its node.
    pub plan_nodes-Member :
        (later : List RuntimeNode) (plans : List (RuntimeNode × RouteSnapshot)) (node : RuntimeNode)
        (placed : RouteSnapshot)
        → plan_nodes collates digest nodes snapshot policy later ≡ ok plans
        → Member (node, placed) plans
        → Member node later
          × (route_snapshot_for_runtime_node collates digest nodes snapshot node (some policy)
              ≡ ok placed)
    plan_nodes-Member [] plans node placed h m =
        absurd (subst (Member (node, placed)) (plan_nodes_nil plans h) m)
    plan_nodes-Member (x ∷ later) plans node placed h m =
        let (p, rest, here, there, e) = plan_nodes-parts x later plans h in
        elim (Bool-cases (skips p)) [
          | inl skipped ↦
              let e' : plans ≡ rest = e ∙ rw skipped refl in
              let (k, s) =
                plan_nodes-Member later rest node placed there
                  (subst (Member (node, placed)) e' m) in
              (inr k, s)
          | inr sent ↦
              let e' : plans ≡ (x, p) ∷ rest = e ∙ rw sent refl in
              let m' : Member (node, placed) ((x, p) ∷ rest) = subst (Member (node, placed)) e' m in
              elim m' [
                | inl same ↦
                    let first : node ≡ x = ap (λ (q : RuntimeNode × RouteSnapshot). q.0) same in
                    let second : placed ≡ p = ap (λ (q : RuntimeNode × RouteSnapshot). q.1) same in
                    (inl first, rw (first, second) here)
                | inr k ↦
                    let (k', s) = plan_nodes-Member later rest node placed there k in (inr k', s)
              ]
        ]

    sent_with :
        (route : RouteSnapshotEntry) (placed : RouteSnapshot)
        → Member route placed.routes
        → skips placed ≡ false
    sent_with route placed m = with_member placed.routes m
      where
        with_member :
            (routes : List RouteSnapshotEntry)
            → Member route routes
            → (length routes == 0
                && not (snapshot_requires_tenant_drain_publish snapshot (some policy))
                && not (length snapshot.routes == 0))
              ≡ false
        with_member [] k = absurd k
        with_member (r ∷ rs) k = ground arith

    plan_nodes-serves :
        (later : List RuntimeNode) (plans : List (RuntimeNode × RouteSnapshot)) (node : RuntimeNode)
        (ids : List String) (route : RouteSnapshotEntry)
        → plan_nodes collates digest nodes snapshot policy later ≡ ok plans
        → isolation_node_ids collates digest nodes (isolation_projects policy) ≡ ok ids
        → Member node later
        → Member route snapshot.routes
        → sees node ids route ≡ ok true
        → (placed : RouteSnapshot) × Member (node, placed) plans × Member route placed.routes
    plan_nodes-serves [] plans node ids route h isolated m inside seen = absurd m
    plan_nodes-serves (x ∷ later) plans node ids route h isolated (inl same) inside seen =
        let (p, rest, here, there, e) = plan_nodes-parts x later plans h in
        let (ids', isolated', filtered) = placed-routes x p here in
        let ids_same : ids ≡ ids' = ok_injective (sym isolated ∙ isolated') in
        let seen' : sees x ids' route ≡ ok true = rw (← same, ← ids_same) seen in
        let kept =
          Member-filter_ok (sees x ids') snapshot.routes p.routes route filtered inside seen' in
        let e' : plans ≡ (x, p) ∷ rest = e ∙ rw (sent_with route p kept) refl in
        (p, subst (Member (node, p)) (sym e') (inl (ap (λ (n : RuntimeNode). (n, p)) same)), kept)
    plan_nodes-serves (x ∷ later) plans node ids route h isolated (inr m) inside seen =
        let (p, rest, here, there, e) = plan_nodes-parts x later plans h in
        let (placed, k, r) =
          plan_nodes-serves later rest node ids route there isolated m inside seen in
        elim (Bool-cases (skips p)) [
          | inl skipped ↦
              let e' : plans ≡ rest = e ∙ rw skipped refl in
              (placed, subst (Member (node, placed)) (sym e') k, r)
          | inr sent ↦
              let e' : plans ≡ (x, p) ∷ rest = e ∙ rw sent refl in
              (placed, subst (Member (node, placed)) (sym e') (inr k), r)
        ]

    -- A plan sends a route only if it is a route of the snapshot, and only to a node of the list that
    -- may see the project of the route: one that the isolation rule of the project selects or, if the
    -- project has no such rule, any while the project is not drained.
    pub plan_runtime_snapshot_placements-IsAllowed :
        (plans : List (RuntimeNode × RouteSnapshot)) (node : RuntimeNode) (placed : RouteSnapshot)
        (route : RouteSnapshotEntry)
        → plan_runtime_snapshot_placements collates digest nodes snapshot (some policy) ≡ ok plans
        → Member (node, placed) plans
        → Member route placed.routes
        → Member node nodes × Member route snapshot.routes × IsAllowed node route.project_id
    unfolding plan_runtime_snapshot_placements sort_by_load
    plan_runtime_snapshot_placements-IsAllowed plans node placed route h m r =
        let (listed, here) =
          plan_nodes-Member (sort (loaded_before collates digest) nodes) plans node placed h m in
        let (ids, isolated, filtered) = placed-routes node placed here in
        let (inside, seen) =
          filter_ok-Member (sees node ids) snapshot.routes placed.routes route filtered r in
        (
          Member-sort (loaded_before collates digest) nodes node listed,
          inside,
          visible-IsAllowed node ids route.project_id seen,
        )

    -- When a plan is made, each route of the snapshot is sent to each node of the list to which it is
    -- visible.
    pub plan_runtime_snapshot_placements-serves :
        (plans : List (RuntimeNode × RouteSnapshot)) (node : RuntimeNode) (ids : List String)
        (route : RouteSnapshotEntry)
        → plan_runtime_snapshot_placements collates digest nodes snapshot (some policy) ≡ ok plans
        → isolation_node_ids collates digest nodes (isolation_projects policy) ≡ ok ids
        → Member node nodes
        → Member route snapshot.routes
        → route_visible_to_node collates digest nodes policy node ids route.project_id ≡ ok true
        → (placed : RouteSnapshot) × Member (node, placed) plans × Member route placed.routes
    unfolding plan_runtime_snapshot_placements sort_by_load
    plan_runtime_snapshot_placements-serves plans node ids route h isolated m inside seen =
        plan_nodes-serves (sort (loaded_before collates digest) nodes) plans node ids route h
          isolated (sort-Member (loaded_before collates digest) nodes node m) inside seen
