-- ===== src/ControlPlane/Placement/Selection.antt =====
-- The nodes that a snapshot is published to: selectRuntimeNodesForSnapshot of
-- control-plane/placement.ts.
use odenctl.ControlPlane.Errors.{ok_injective}
use odenctl.Prelude.{
  ◌≡◌, refl, sym, ap, subst, ◌⊎◌, inl, inr, String, Bool, true, false, Option, none, some, List, [],
  ◌∷◌, any, map, string_eq, ◌==◌, if◌then◌else◌, Member, Bool-cases, Option-cases, length, nat_eq,
}
use odenctl.Prelude.Sort.{sort, Member-sort}
use odenctl.Contracts.{RouteSnapshotEntry, RouteSnapshot}
use odenctl.ControlPlane.Errors.{Result, ok, ◌>>=◌, >>=-eq-ok}
use odenctl.ControlPlane.Placement.{
  RuntimeNode, RuntimePlacementPolicy, project_rule, has_tenant_isolation_policy, sort_by_load,
  loaded_before, select_by_rule, plan_runtime_snapshot_placements,
}
use odenctl.ControlPlane.Placement.Plans.{plan_nodes-Member}
use odenctl.ControlPlane.Placement.Rules.{select_by_rule-IsFrom}

-- `new Set` of the projects of the routes, in the order of their first route
unfoldable pub project_ids : List String → List RouteSnapshotEntry → List String
project_ids seen [] = []
project_ids seen (route ∷ routes) =
    let later = project_ids (route.project_id ∷ seen) routes in
    let skipped = project_ids seen routes in
    if any (λ id. id == route.project_id) seen then skipped else route.project_id ∷ later

-- `Map.set` under the id of the node
unfoldable pub set_node : RuntimeNode → List RuntimeNode → List RuntimeNode
set_node node [] = node ∷ []
set_node node (x ∷ xs) =
    let rest = set_node node xs in if x.id == node.id then node ∷ xs else x ∷ rest

unfoldable pub set_nodes : List RuntimeNode → List RuntimeNode → List RuntimeNode
unfolding set_node
set_nodes [] selected = selected
set_nodes (node ∷ nodes) selected = set_nodes nodes (set_node node selected)

module _ (collates : String → String → Bool)
    (placed_snapshot_id : String → List RouteSnapshotEntry → String) where
  -- the loop over the projects: `includeAll` and the nodes selected so far
  unfoldable pub select_projects :
      List RuntimeNode
      → RuntimePlacementPolicy
      → List String
      → Bool
      → List RuntimeNode
      → Result (Bool × List RuntimeNode)
  unfolding project_rule select_by_rule set_nodes
  select_projects nodes policy [] include_all selected = ok (include_all, selected)
  select_projects nodes policy (id ∷ ids) include_all selected = elim (project_rule policy id) [
    | none ↦ select_projects nodes policy ids true selected
    | some rule ↦ do
      chosen ← select_by_rule collates placed_snapshot_id nodes rule
      select_projects nodes policy ids include_all (set_nodes chosen selected)
  ]

  abbrev pub chosen_nodes : List RuntimeNode → Bool × List RuntimeNode → List RuntimeNode
  chosen_nodes nodes (include_all, selected) = if include_all then nodes else selected

  unfoldable pub select_runtime_nodes_for_snapshot :
      List RuntimeNode → RouteSnapshot → Option RuntimePlacementPolicy → Result (List RuntimeNode)
  unfolding has_tenant_isolation_policy plan_runtime_snapshot_placements project_ids select_projects
      sort_by_load
  select_runtime_nodes_for_snapshot nodes snapshot none = ok nodes
  select_runtime_nodes_for_snapshot nodes snapshot (some policy) =
      if has_tenant_isolation_policy policy
      then (plan_runtime_snapshot_placements collates placed_snapshot_id nodes snapshot
            (some policy)
          >>= λ plans. ok (map (λ plan. plan.0) plans))
      else if length (project_ids [] snapshot.routes) == 0
      then ok nodes
      else (select_projects nodes policy (project_ids [] snapshot.routes) false [] >>= λ found.
          ok (sort_by_load collates placed_snapshot_id (chosen_nodes nodes found)))

set_node-Member :
    (node : RuntimeNode) (xs : List RuntimeNode) (n : RuntimeNode)
    → Member n (set_node node xs)
    → (n ≡ node) ⊎ Member n xs
unfolding set_node
set_node-Member node [] n (inl e) = inl e
set_node-Member node [] n (inr m) = absurd m
set_node-Member node (x ∷ xs) n m = elim (Bool-cases (x.id == node.id)) [
  | inl same ↦
      let e : set_node node (x ∷ xs) ≡ node ∷ xs = rw same refl in
      let m' : Member n (node ∷ xs) = subst (Member n) e m in
      elim m' [ inl here ↦ inl here | inr later ↦ inr (inr later) ]
  | inr other ↦
      let e : set_node node (x ∷ xs) ≡ x ∷ set_node node xs = rw other refl in
      let m' : Member n (x ∷ set_node node xs) = subst (Member n) e m in
      elim m' [
        | inl here ↦ inr (inl here)
        | inr later ↦ elim (set_node-Member node xs n later) [
          | inl new ↦ inl new
          | inr old ↦ inr (inr old)
        ]
      ]
]

set_nodes-Member :
    (nodes selected : List RuntimeNode) (n : RuntimeNode)
    → Member n (set_nodes nodes selected)
    → Member n nodes ⊎ Member n selected
unfolding set_nodes
set_nodes-Member [] selected n m = inr m
set_nodes-Member (node ∷ nodes) selected n m =
    elim (set_nodes-Member nodes (set_node node selected) n m) [
      | inl later ↦ inl (inr later)
      | inr k ↦ elim (set_node-Member node selected n k) [
        | inl here ↦ inl (inl here)
        | inr old ↦ inr old
      ]
    ]

map-Member :
    (plans : List (RuntimeNode × RouteSnapshot)) (n : RuntimeNode)
    → Member n (map (λ plan. plan.0) plans)
    → (placed : RouteSnapshot) × Member (n, placed) plans
map-Member [] n m = absurd m
map-Member ((node, placed) ∷ plans) n (inl e) =
    (placed, inl (ap (λ (x : RuntimeNode). (x, placed)) e))
map-Member (plan ∷ plans) n (inr m) = let (placed, k) = map-Member plans n m in (placed, inr k)

module _ (collates : String → String → Bool) (digest : String → List RouteSnapshotEntry → String)
    (nodes : List RuntimeNode) (policy : RuntimePlacementPolicy) where
  select_projects-Member :
      (ids : List String) (include_all : Bool) (selected : List RuntimeNode)
      (found : Bool × List RuntimeNode)
      → ((n : RuntimeNode) → Member n selected → Member n nodes)
      → select_projects collates digest nodes policy ids include_all selected ≡ ok found
      → (n : RuntimeNode) → Member n found.1
      → Member n nodes
  unfolding select_projects
  select_projects-Member [] include_all selected found known h n m =
      known n (subst (λ (f : Bool × List RuntimeNode). Member n f.1) (sym (ok_injective h)) m)
  select_projects-Member (id ∷ ids) include_all selected found known h n m =
      elim (Option-cases (project_rule policy id)) [
        | inl unruled ↦
            select_projects-Member ids true selected found known
              (rw (unruled, select_projects) at h) n m
        | inr (rule, set) ↦
            let (chosen, here, h1) =
              >>=-eq-ok (select_by_rule collates digest nodes rule) _
                (rw (set, select_projects) at h) in
            select_projects-Member ids include_all (set_nodes chosen selected) found
              (λ k mk. elim (set_nodes-Member chosen selected k mk) [
                | inl new ↦
                    let (tier, listed, from) =
                      select_by_rule-IsFrom collates digest nodes rule chosen k here new in
                    (from.0 k new).0
                | inr old ↦ known k old
              ])
              h1 n m
      ]

  chosen-Member :
      (found : Bool × List RuntimeNode)
      → ((n : RuntimeNode) → Member n found.1 → Member n nodes)
      → (n : RuntimeNode) → Member n (chosen_nodes collates digest nodes found)
      → Member n nodes
  chosen-Member (true, selected) known n m = m
  chosen-Member (false, selected) known n m = known n m

  -- A snapshot is published to registered nodes only: each selected node is one of the list.
  pub select_runtime_nodes_for_snapshot-Member :
      (snapshot : RouteSnapshot) (selected : List RuntimeNode) (n : RuntimeNode)
      → select_runtime_nodes_for_snapshot collates digest nodes snapshot (some policy) ≡ ok selected
      → Member n selected
      → Member n nodes
  unfolding select_runtime_nodes_for_snapshot plan_runtime_snapshot_placements sort_by_load
  select_runtime_nodes_for_snapshot-Member snapshot selected n h m =
      elim (Bool-cases (has_tenant_isolation_policy policy)) [
        | inl isolates ↦
            let (plans, planned, h1) =
              >>=-eq-ok
                (plan_runtime_snapshot_placements collates digest nodes snapshot (some policy)) _
                (rw isolates at h) in
            let (placed, k) = map-Member plans n (subst (Member n) (sym (ok_injective h1)) m) in
            Member-sort (loaded_before collates digest) nodes n
              (plan_nodes-Member collates digest nodes policy snapshot
                (sort (loaded_before collates digest) nodes) plans n placed planned k).0
        | inr plain ↦ elim (Bool-cases (length (project_ids [] snapshot.routes) == 0)) [
          | inl empty ↦ subst (Member n) (sym (ok_injective (rw empty at (rw plain at h)))) m
          | inr routed ↦
              let (found, chosen, h1) =
                >>=-eq-ok
                  (select_projects collates digest nodes policy (project_ids [] snapshot.routes)
                    false [])
                  _ (rw routed at (rw plain at h)) in
              let k =
                Member-sort (loaded_before collates digest)
                  (chosen_nodes collates digest nodes found) n
                  (subst (Member n) (sym (ok_injective h1)) m) in
              chosen-Member found
                (select_projects-Member (project_ids [] snapshot.routes) false [] found
                  (λ x mx. absurd mx) chosen)
                n k
        ]
      ]
