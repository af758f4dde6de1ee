-- ===== src/ControlPlane/Placement/Statics.antt =====
-- What the targets that are not registered nodes serve of a snapshot.
use odenctl.Prelude.{
  ◌≡◌, ◌↔◌, refl, subst, inl, inr, String, Bool, false, ◌||◌, none, some, List, [], ◌∷◌, arith,
  length, filter, any, ltb, not, string_eq, ◌==◌, is_some, Member, Bool-cases, Member-filter,
  Member-filter_of,
}
use odenctl.Contracts.{RouteSnapshotEntry, RouteSnapshot}
use odenctl.ControlPlane.Placement.{
  ProjectRule, RuntimePlacementPolicy, rule_for, isolation_projects, drained_projects, is_set_apart,
  has_tenant_isolation_policy, route_visible_to_static_target, snapshot_with_routes,
  default_route_snapshot_for_tenant_drain, static_route_snapshot_for_placement,
}
use odenctl.ControlPlane.Placement.Filters.{filter-all, snapshot_with_routes_routes}

nothing_apart :
    (policy : RuntimePlacementPolicy) (project_id : String)
    → has_tenant_isolation_policy policy ≡ false
    → is_set_apart policy project_id ≡ false
unfolding has_tenant_isolation_policy rule_for
nothing_apart policy project_id h = none_in (drained_projects policy) (isolation_projects policy) h
  where
    none_in :
        (drained : List String) (rules : List ProjectRule)
        → (ltb 0 (length rules) || ltb 0 (length drained)) ≡ false
        → (any (λ id. id == project_id) drained || is_some (rule_for project_id rules)) ≡ false
    none_in [] [] h = refl
    none_in (d ∷ ds) [] h = ground arith
    none_in drained (r ∷ rs) h = ground arith

module _ (collates : String → String → Bool) (digest : String → List RouteSnapshotEntry → String)
    (snapshot : RouteSnapshot) (policy : RuntimePlacementPolicy) where
  cut_routes :
      (p : RouteSnapshotEntry → Bool)
      → (snapshot_with_routes collates digest snapshot (filter p snapshot.routes)).routes
        ≡ filter p snapshot.routes
  cut_routes p =
      snapshot_with_routes_routes digest collates snapshot (filter p snapshot.routes)
        (filter-all p snapshot.routes)

  -- The default snapshot has exactly the routes of the projects that are neither drained nor given an
  -- isolation rule.
  pub default_route_snapshot_for_tenant_drain_lem :
      (route : RouteSnapshotEntry)
      → Member route
          (default_route_snapshot_for_tenant_drain collates digest snapshot (some policy)).routes
        ↔ (Member route snapshot.routes × (is_set_apart policy route.project_id ≡ false))
  unfolding default_route_snapshot_for_tenant_drain
  default_route_snapshot_for_tenant_drain_lem route =
      elim (Bool-cases (has_tenant_isolation_policy policy)) [
        | inr plain ↦ rw plain (λ m. (m, nothing_apart policy route.project_id plain), λ (m, n). m)
        | inl isolates ↦
            let stays : RouteSnapshotEntry → Bool = λ r. not (is_set_apart policy r.project_id) in
            let e = cut_routes stays in
            rw (isolates, e)
              (
                λ m. let (k, t) = Member-filter stays snapshot.routes route m in (k, ground arith),
                λ (m, n). Member-filter_of stays snapshot.routes route m (ground arith),
              )
      ]

  -- A static target serves only routes of the snapshot whose project has no rule of its own, under a
  -- policy without a default rule, and it serves nothing that the default snapshot leaves out.
  pub static_route_snapshot_for_placement_lem :
      (route : RouteSnapshotEntry)
      → Member route
          (static_route_snapshot_for_placement collates digest snapshot (some policy)).routes
      → Member route
          (default_route_snapshot_for_tenant_drain collates digest snapshot (some policy)).routes
        × (rule_for route.project_id policy.projects ≡ none)
        × (policy.default ≡ none)
  unfolding static_route_snapshot_for_placement route_visible_to_static_target
  static_route_snapshot_for_placement_lem route m =
      let seen : RouteSnapshotEntry → Bool =
        λ r. route_visible_to_static_target policy r.project_id in
      let (k, t) =
        Member-filter seen snapshot.routes route (subst (Member route) (cut_routes seen) m) in
      (
        (default_route_snapshot_for_tenant_drain_lem route).1 (k, ground arith),
        ground arith,
        ground arith,
      )
