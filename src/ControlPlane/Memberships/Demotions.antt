-- ===== src/ControlPlane/Memberships/Demotions.antt =====
-- Adding a member who is already one writes over the row: the call has no check of the owners.
use odenctl.Prelude.{
  map-Member, ◌≡◌, refl, sym, ap, subst, ◌∙◌, ◌⊎◌, inl, inr, String, true, false, none, some, List,
  [], ◌∷◌, ◌++◌, arith, map, any, Member, Bool-cases, string_eq, any_of_Member, beq_refl,
}
use odenctl.ControlPlane.Errors.{ok}
use odenctl.ControlPlane.Memberships.{
  ProjectRole, owner, ProjectMembership, Project, Repository, Context, is_owner, is_row, pending,
  merged_in, create_project_membership, require_project, require_user, record_audit,
  add_project_membership, project_member_added,
}
use odenctl.ControlPlane.Memberships.Owners.{HasOwner, any_status}

Member-snoc : {A : Type 0} (xs : List A) (x b : A) → Member b (xs ++ x ∷ []) → Member b xs ⊎ (b ≡ x)
Member-snoc [] x b m = ground arith
Member-snoc (y ∷ xs) x b (inl e) = inl (inl e)
Member-snoc (y ∷ xs) x b (inr m) = elim (Member-snoc xs x b m) [
  | inl k ↦ inl (inr k)
  | inr e ↦ inr e
]

is_row_refl :
    (m row : ProjectMembership)
    → row.project_id ≡ m.project_id
    → row.user_id ≡ m.user_id
    → is_row m.project_id m.user_id row ≡ true
is_row_refl m row p u = rw (p, u, beq_refl m.project_id, beq_refl m.user_id) refl

abbrev role_of : ProjectMembership → ProjectRole
role_of x = x.role

abbrev project_of : ProjectMembership → String
project_of x = x.project_id

true≢false : true ≡ false → ⊥
true≢false h = cc

-- The upsert of a row that is not an owner's, where only its user owns the project.
upsert-no_owner :
    (m : ProjectMembership) (rows : List ProjectMembership)
    → is_owner m.role ≡ false
    → (only : (x : ProjectMembership)
        → Member x rows
        → x.project_id ≡ m.project_id
        → x.role ≡ owner
        → x.user_id ≡ m.user_id)
    → (row : ProjectMembership) → Member row (create_project_membership m rows)
    → row.project_id ≡ m.project_id
    → row.role ≡ owner
    → ⊥
unfolding create_project_membership
upsert-no_owner m rows plain only row inside project owned =
    elim (Bool-cases (any (is_row m.project_id m.user_id) rows)) [
      | inl found ↦
          let here : Member row (map (merged_in m) rows) =
            subst (Member row) (rw found refl) inside in
          let (x, mx, e) = map-Member (merged_in m) rows row here in
          elim (Bool-cases (is_row m.project_id m.user_id x)) [
            | inl same ↦
                let role : row.role ≡ m.role = ap role_of e ∙ rw same refl in
                true≢false (ap is_owner (sym owned ∙ role) ∙ plain)
            | inr other ↦
                let e' : row ≡ x = e ∙ rw other refl in
                let project' = ap project_of (sym e') ∙ project in
                let user = only x mx project' (ap role_of (sym e') ∙ owned) in
                true≢false (sym (is_row_refl m x project' user) ∙ other)
          ]
      | inr absent ↦
          let here : Member row (rows ++ m ∷ []) = subst (Member row) (rw absent refl) inside in
          elim (Member-snoc rows m row here) [
            | inl old ↦
                let user = only row old project owned in
                let hit =
                  any_of_Member (is_row m.project_id m.user_id) rows row old
                    (is_row_refl m row project user) in
                true≢false (sym hit ∙ absent)
            | inr e ↦ true≢false (ap is_owner (sym owned ∙ ap role_of e) ∙ plain)
          ]
    ]

abbrev new_row : Context → String → String → ProjectRole → ProjectMembership
new_row ctx project_id user_id role = record {
  project_id = project_id;
  user_id = user_id;
  role = role;
  invite_status = pending;
  invited_at = ctx.now;
  accepted_at = none;
  created_at = ctx.now;
}

abbrev added : Context → Project → String → String → ProjectRole → Repository → Repository
added ctx project project_id user_id role r =
    record_audit ctx.audit_id ctx.now project_member_added project user_id (record r {
      memberships = create_project_membership (new_row ctx project_id user_id role) r.memberships;
    })

-- When only one user owns the project, adding that user again under a role that is not owner
-- succeeds and leaves the project without any owner.
pub add_project_membership-no_owner :
    (ctx : Context) (project_id user_id : String) (role : ProjectRole) (project : Project)
    (r : Repository)
    → is_owner role ≡ false
    → require_project r project_id ≡ ok project
    → require_user r user_id ≡ ok tt
    → (only : (x : ProjectMembership)
        → Member x r.memberships
        → x.project_id ≡ project_id
        → x.role ≡ owner
        → x.user_id ≡ user_id)
    → (r' : Repository) × (add_project_membership ctx project_id user_id (some role) r ≡ ok r')
      × (¬ HasOwner any_status project_id r')
unfolding add_project_membership record_audit
add_project_membership-no_owner ctx project_id user_id role project r plain known user only = (
  added ctx project project_id user_id role r,
  rw (known, user) refl,
  λ (row, inside, here, owned, any).
      upsert-no_owner (new_row ctx project_id user_id role) r.memberships plain only row inside here
        owned,
)
