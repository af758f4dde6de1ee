-- ===== src/ControlPlane/Memberships/Owners.antt =====
-- Which membership calls keep the owners of a project, and which do not.
use odenctl.ControlPlane.Errors.{require-ok}
use odenctl.Prelude.{
  Member-map, ◌≡◌, ◌≢◌, refl, sym, ap, subst, ◌∙◌, inl, inr, String, Bool, true, false, Option,
  List, [], ◌∷◌, arith, map, length, filter, any, find, Member, Bool-cases, string_eq, ◌==◌, not,
  Member-filter, Member-filter_of, any-witness, find-some, eq_of_beq, ne_of_beq, beq_of_ne, ltb,
}
use odenctl.ControlPlane.Errors.{validation, not_found, ok, guard, require, >>=-eq-ok}
use odenctl.ControlPlane.Memberships.{
  ProjectRole, owner, developer, viewer, ProjectMembership, Repository, Context, is_owner,
  is_accepted, is_row, require_project, require_user, list_project_memberships,
  require_project_membership, other_owner, assert_project_keeps_owner, owner_check, with_role,
  update_project_membership_role, delete_project_membership, record_audit,
  update_project_membership, remove_project_membership,
}

-- The project has an owner whose membership passes the test.
abbrev pub HasOwner : (ProjectMembership → Bool) → String → Repository → Type 0
HasOwner p project_id r =
    (row : ProjectMembership) × Member row r.memberships
    × (row.project_id ≡ project_id)
    × (row.role ≡ owner)
    × (p row ≡ true)

-- any owner, and an owner who has accepted the invite
abbrev pub any_status : ProjectMembership → Bool
any_status row = true

abbrev pub is_accepted_row : ProjectMembership → Bool
is_accepted_row row = is_accepted row.invite_status

abbrev pub counted : Bool → ProjectMembership → Bool
counted true = is_accepted_row
counted false = any_status

-- The primary key: one row for a project and a user.
abbrev pub HasKey : Repository → Type 0
HasKey r =
    (a b : ProjectMembership)
    → Member a r.memberships
    → Member b r.memberships
    → a.project_id ≡ b.project_id
    → a.user_id ≡ b.user_id
    → a ≡ b

is_owner_role : (role : ProjectRole) → is_owner role ≡ true → role ≡ owner
is_owner_role owner h = refl
is_owner_role developer h = cc
is_owner_role viewer h = cc

-- What the lookup of a membership finds.
pub membership-found :
    (r : Repository) (project_id user_id : String) {current : ProjectMembership}
    → require_project_membership r project_id user_id ≡ ok current
    → Member current r.memberships × (current.project_id ≡ project_id) × (current.user_id ≡ user_id)
unfolding require_project_membership list_project_memberships
membership-found r project_id user_id {current} h =
    let found =
      require-ok not_found
        (find (λ row. row.user_id == user_id)
          (filter (λ row. row.project_id == project_id) r.memberships))
        h in
    let (inside, user) =
      find-some _ (filter (λ row. row.project_id == project_id) r.memberships) current found in
    let (row, project) = Member-filter _ r.memberships current inside in
    (row, eq_of_beq current.project_id project_id project, eq_of_beq current.user_id user_id user)

nonempty-Member : {A : Type 0} (xs : List A) → ltb 0 (length xs) ≡ true → (a : A) × Member a xs
nonempty-Member [] h = ground arith
nonempty-Member (x ∷ xs) h = (x, inl refl)

-- What the guard ensures: another owner of the project stays, an accepted one if the current one is.
pub keeps-owner :
    (r : Repository) (current : ProjectMembership)
    → assert_project_keeps_owner r current ≡ ok tt
    → is_owner current.role ≡ true
    → (row : ProjectMembership) × Member row r.memberships
      × (row.project_id ≡ current.project_id)
      × (row.user_id ≢ current.user_id)
      × (row.role ≡ owner)
      × (is_accepted current.invite_status ≡ true → is_accepted row.invite_status ≡ true)
unfolding assert_project_keeps_owner list_project_memberships
keeps-owner r current h owned = elim (Bool-cases (is_accepted current.invite_status)) [
  | inl joined ↦
      let (row, m, a) =
        any-witness (λ row. is_accepted row.invite_status) others (some_accepted joined) in
      let (row', m', p, u, o) = parts row m in (row, m', p, u, o, λ _. a)
  | inr waiting ↦
      let (row, m) = nonempty-Member others some_other in
      let (row', m', p, u, o) = parts row m in (row, m', p, u, o, λ e. ground arith)
]
  where
    mine : List ProjectMembership
    mine = filter (λ row. row.project_id == current.project_id) r.memberships

    others : List ProjectMembership
    others = filter (other_owner current) mine

    some_other : ltb 0 (length others) ≡ true
    some_other = ground arith

    some_accepted :
        is_accepted current.invite_status ≡ true
        → any (λ row. is_accepted row.invite_status) others ≡ true
    some_accepted joined = ground arith

    parts :
        (row : ProjectMembership)
        → Member row others
        → (x : ProjectMembership) × Member row r.memberships
          × (row.project_id ≡ current.project_id)
          × (row.user_id ≢ current.user_id)
          × (row.role ≡ owner)
    parts row m =
        let (m', test) = Member-filter (other_owner current) mine row m in
        let (m'', p) = Member-filter _ r.memberships row m' in
        (
          row,
          m'',
          eq_of_beq row.project_id current.project_id p,
          ne_of_beq row.user_id current.user_id (ground arith),
          is_owner_role row.role (ground arith),
        )

-- A test on rows that only an accepted invite can be asked for.
abbrev pub IsKept : (ProjectMembership → Bool) → Type 0
IsKept p =
    (a b : ProjectMembership)
    → p a ≡ true
    → (is_accepted a.invite_status ≡ true → is_accepted b.invite_status ≡ true)
    → p b ≡ true

counted-IsKept : (only_accepted : Bool) → IsKept (counted only_accepted)
counted-IsKept true a b h k = k h
counted-IsKept false a b h k = refl

is_row-eq :
    (project_id user_id : String) (row : ProjectMembership)
    → is_row project_id user_id row ≡ true
    → (row.project_id ≡ project_id) × (row.user_id ≡ user_id)
is_row-eq project_id user_id row h = (
  eq_of_beq row.project_id project_id (ground arith),
  eq_of_beq row.user_id user_id (ground arith),
)

is_row-of :
    (project_id user_id : String) (row : ProjectMembership)
    → row.user_id ≢ user_id
    → is_row project_id user_id row ≡ false
is_row-of project_id user_id row h =
    let e : (row.user_id == user_id) ≡ false = beq_of_ne row.user_id user_id h in ground arith

-- The guard leaves an owner of the same kind outside the row of the call.
survivor :
    (p : ProjectMembership → Bool)
    → IsKept p
    → (r : Repository) (project_id user_id q : String) (current : ProjectMembership) → HasKey r
    → Member current r.memberships
    → current.project_id ≡ project_id
    → current.user_id ≡ user_id
    → assert_project_keeps_owner r current ≡ ok tt
    → HasOwner p q r
    → (row : ProjectMembership) × Member row r.memberships
      × (row.project_id ≡ q)
      × (row.role ≡ owner)
      × (p row ≡ true)
      × (is_row project_id user_id row ≡ false)
survivor p kept r project_id user_id q current key inside cp cu guarded (w, mw, wq, wo, wp) =
    elim (Bool-cases (is_row project_id user_id w)) [
      | inr other ↦ (w, mw, wq, wo, wp, other)
      | inl same ↦
          let (ep, eu) = is_row-eq project_id user_id w same in
          let e : w ≡ current = key w current mw inside (ep ∙ sym cp) (eu ∙ sym cu) in
          let owned : is_owner current.role ≡ true =
            ap is_owner (ap (λ (x : ProjectMembership). x.role) (sym e) ∙ wo) in
          let (row, m, rp, ru, ro, ra) = keeps-owner r current guarded owned in
          (
            row,
            m,
            rp ∙ cp ∙ sym ep ∙ wq,
            ro,
            kept w row wp (λ a. ra (ap is_accepted_row (sym e) ∙ a)),
            is_row-of project_id user_id row (λ h. ru (h ∙ sym cu)),
          )
    ]

pub ok-injective {ℓ} : {A : Type ℓ} {a b : A} → ok a ≡ ok b → a ≡ b
ok-injective h = cc

-- Deleting a row of which the guard accepts the removal keeps an owner.
delete-keeps :
    (p : ProjectMembership → Bool)
    → IsKept p
    → (r r' : Repository) (project_id user_id q : String) (current : ProjectMembership) → HasKey r
    → require_project_membership r project_id user_id ≡ ok current
    → assert_project_keeps_owner r current ≡ ok tt
    → delete_project_membership project_id user_id r ≡ ok r'
    → HasOwner p q r
    → HasOwner p q r'
unfolding delete_project_membership
delete-keeps p kept r r' project_id user_id q current key found guarded deleted o =
    let (inside, cp, cu) = membership-found r project_id user_id found in
    let (row, m, rq, ro, ra, out) =
      survivor p kept r project_id user_id q current key inside cp cu guarded o in
    let (u, g, e) =
      >>=-eq-ok (guard (any (is_row project_id user_id) r.memberships) not_found) _ deleted in
    let rows =
      Member-filter_of (λ x. not (is_row project_id user_id x)) r.memberships row m (ap not out) in
    subst (HasOwner p q) (ok-injective e) (row, rows, rq, ro, ra)

unmoved :
    (project_id user_id : String) (role : ProjectRole) (row : ProjectMembership)
    → is_row project_id user_id row ≡ false
    → with_role project_id user_id role row ≡ row
unmoved project_id user_id role row h = rw h refl

promoted :
    (p : ProjectMembership → Bool)
    → IsKept p
    → (project_id user_id : String) (role : ProjectRole) (row : ProjectMembership) → role ≡ owner
    → row.role ≡ owner
    → p row ≡ true
    → ((with_role project_id user_id role row).project_id ≡ row.project_id)
      × ((with_role project_id user_id role row).role ≡ owner)
      × (p (with_role project_id user_id role row) ≡ true)
promoted p kept project_id user_id role row e h t =
    elim (Bool-cases (is_row project_id user_id row)) [
      | inl same ↦
          let same' : with_role project_id user_id role row ≡ record row { role = role } =
            rw same refl in
          (
            ap (λ (x : ProjectMembership). x.project_id) same',
            ap (λ (x : ProjectMembership). x.role) same' ∙ e,
            kept row _ t (λ a. ap is_accepted_row same' ∙ a),
          )
      | inr out ↦
          let same = unmoved project_id user_id role row out in
          (
            ap (λ (x : ProjectMembership). x.project_id) same,
            ap (λ (x : ProjectMembership). x.role) same ∙ h,
            ap p same ∙ t,
          )
    ]

needed :
    (r : Repository) (current : ProjectMembership) (role : ProjectRole)
    → is_owner role ≡ false
    → owner_check current role r ≡ ok tt
    → assert_project_keeps_owner r current ≡ ok tt
unfolding assert_project_keeps_owner
needed r current role h checked = elim (Bool-cases (is_owner current.role)) [
  | inl o ↦ ground arith
  | inr n ↦ rw n refl
]

-- Rows whose role is set to owner, or of which the guard accepts another role.
set_role-keeps :
    (p : ProjectMembership → Bool)
    → IsKept p
    → (r r' : Repository) (project_id user_id q : String) (role : ProjectRole)
      (current : ProjectMembership)
    → HasKey r
    → require_project_membership r project_id user_id ≡ ok current
    → owner_check current role r ≡ ok tt
    → update_project_membership_role project_id user_id role r ≡ ok r'
    → HasOwner p q r
    → HasOwner p q r'
unfolding update_project_membership_role
set_role-keeps p kept r r' project_id user_id q role current key found checked updated
      (w, mw, wq, wo, wp) =
    let (inside, cp, cu) = membership-found r project_id user_id found in
    let (u, g, e) =
      >>=-eq-ok (guard (any (is_row project_id user_id) r.memberships) not_found) _ updated in
    elim (Bool-cases (is_owner role)) [
      | inl still ↦
          let m = Member-map (with_role project_id user_id role) r.memberships w mw in
          let (eq, eo, ep) =
            promoted p kept project_id user_id role w (is_owner_role role still) wo wp in
          subst (HasOwner p q) (ok-injective e)
            (with_role project_id user_id role w, m, eq ∙ wq, eo, ep)
      | inr demoted ↦
          let guarded = needed r current role demoted checked in
          let (row, m, rq, ro, ra, out) =
            survivor p kept r project_id user_id q current key inside cp cu guarded
              (w, mw, wq, wo, wp) in
          let m' = Member-map (with_role project_id user_id role) r.memberships row m in
          let same : with_role project_id user_id role row ≡ row =
            unmoved project_id user_id role row out in
          subst (HasOwner p q) (ok-injective e) (
            row,
            subst (λ x. Member x (map (with_role project_id user_id role) r.memberships)) same m',
            rq,
            ro,
            ra,
          )
    ]

-- Only the rows matter.
moved :
    (p : ProjectMembership → Bool) (s r : Repository) (q : String)
    → s.memberships ≡ r.memberships
    → HasOwner p q s
    → HasOwner p q r
moved p s r q e (row, m, rq, ro, ra) = (row, subst (Member row) e m, rq, ro, ra)

-- A removal that succeeds leaves every project q an owner if it had one, and (only_accepted) an owner
-- who has accepted the invite if it had one. HasKey is the primary key of the table.
pub remove_project_membership-HasOwner :
    (only_accepted : Bool) (ctx : Context) (project_id user_id q : String) (r : Repository)
    {r' : Repository}
    → HasKey r
    → remove_project_membership ctx project_id user_id r ≡ ok r'
    → HasOwner (counted only_accepted) q r
    → HasOwner (counted only_accepted) q r'
unfolding remove_project_membership record_audit
remove_project_membership-HasOwner only_accepted ctx project_id user_id q r {r'} key h o =
    let (u, hu, h1) = >>=-eq-ok (require_project r project_id) _ h in
    let (v, hv, h2) = >>=-eq-ok (require_user r user_id) _ h1 in
    let (current, found, h3) = >>=-eq-ok (require_project_membership r project_id user_id) _ h2 in
    let (w, guarded, h4) = >>=-eq-ok (assert_project_keeps_owner r current) _ h3 in
    let (s, deleted, h5) = >>=-eq-ok (delete_project_membership project_id user_id r) _ h4 in
    let rows : s.memberships ≡ r'.memberships =
      ap (λ (x : Repository). x.memberships) (ok-injective h5) in
    moved (counted only_accepted) s r' q rows (
      delete-keeps (counted only_accepted) (counted-IsKept only_accepted) r s project_id user_id q
        current key found guarded deleted o)

-- A change of role that succeeds leaves every project q an owner if it had
-- one, and (only_accepted) an owner who has accepted the invite if it had one. HasKey is the primary
-- key of the table.
pub update_project_membership-HasOwner :
    (only_accepted : Bool) (ctx : Context) (project_id user_id q : String)
    (role : Option ProjectRole) (r : Repository) {r' : Repository}
    → HasKey r
    → update_project_membership ctx project_id user_id role r ≡ ok r'
    → HasOwner (counted only_accepted) q r
    → HasOwner (counted only_accepted) q r'
unfolding update_project_membership record_audit
update_project_membership-HasOwner only_accepted ctx project_id user_id q role r {r'} key h o =
    let (u, hu, h1) = >>=-eq-ok (require_project r project_id) _ h in
    let (v, hv, h2) = >>=-eq-ok (require_user r user_id) _ h1 in
    let (role', known, h2') = >>=-eq-ok (require role validation) _ h2 in
    let (current, found, h3) = >>=-eq-ok (require_project_membership r project_id user_id) _ h2' in
    let (w, checked, h4) = >>=-eq-ok (owner_check current role' r) _ h3 in
    let (s, updated, h5) =
      >>=-eq-ok (update_project_membership_role project_id user_id role' r) _ h4 in
    let rows : s.memberships ≡ r'.memberships =
      ap (λ (x : Repository). x.memberships) (ok-injective h5) in
    moved (counted only_accepted) s r' q rows (
      set_role-keeps (counted only_accepted) (counted-IsKept only_accepted) r s project_id user_id q
        role' current key found checked updated o)
