-- ===== src/ControlPlane/Memberships.antt =====
-- Project memberships: the methods of control-plane/service.ts over the table of
-- control-plane/repository.ts. The table is a list of rows; a statement that fails for a reason of
-- the database is not modelled. `now` and the id of the audit event are arguments, and a role that
-- `normalizeProjectRole` refuses is `none`. Of an audit event the metadata is left out, and the row
-- that a method returns is the one that the state holds under its key after the call (before it, for
-- a removal).
use odenctl.Prelude.{
  ℕ, String, Bool, true, false, ◌&&◌, ◌||◌, Option, none, some, List, [], ◌∷◌, ◌++◌, map, length,
  filter, any, find, ltb, string_eq, ◌==◌, not, if◌then◌else◌,
}
use odenctl.ControlPlane.Errors.{
  ControlPlaneErrorCode, validation, not_found, Result, ok, err, ◌>>=◌, ◌>>◌, guard, require,
}
pub mod Owners
pub mod Demotions

pub data ProjectRole : Type 0 where
  owner developer viewer : ProjectRole

pub data ProjectMembershipInviteStatus : Type 0 where
  pending accepted : ProjectMembershipInviteStatus

pub record ProjectMembership : Type 0 where
  pub project_id : String
  pub user_id : String
  pub role : ProjectRole
  pub invite_status : ProjectMembershipInviteStatus
  pub invited_at : String
  pub accepted_at : Option String
  pub created_at : String

pub data CustomerAuditAction : Type 0 where
  api_key_created api_key_revoked api_key_rotated : CustomerAuditAction
  project_member_added project_member_accepted : CustomerAuditAction
  project_member_role_updated project_member_removed : CustomerAuditAction
  custom_domain_created custom_domain_deleted : CustomerAuditAction
  billing_invoice_issued deployment_created route_pointed : CustomerAuditAction

pub record CustomerAuditEvent : Type 0 where
  pub id : String
  pub organization_id : Option String
  pub project_id : String
  pub action : CustomerAuditAction
  pub target_type : String
  pub target_id : String
  pub created_at : String

-- of a project, what the methods read
pub record Project : Type 0 where
  pub id : String
  pub organization_id : Option String

-- the rows that the methods read and write
pub record Repository : Type 0 where
  pub projects : List Project
  pub users : List String
  pub memberships : List ProjectMembership
  pub audit : List CustomerAuditEvent

abbrev pub is_owner : ProjectRole → Bool
is_owner owner = true
is_owner developer = false
is_owner viewer = false

abbrev pub is_accepted : ProjectMembershipInviteStatus → Bool
is_accepted accepted = true
is_accepted pending = false

-- the primary key of the table
abbrev pub is_row : String → String → ProjectMembership → Bool
is_row project_id user_id row = row.project_id == project_id && row.user_id == user_id

unfoldable pub require_project : Repository → String → Result Project
require_project r id = require (find (λ project. project.id == id) r.projects) not_found

unfoldable pub require_user : Repository → String → Result (Unit {0})
require_user r id = guard (any (λ u. u == id) r.users) not_found

unfoldable pub list_project_memberships : Repository → String → List ProjectMembership
list_project_memberships r project_id = filter (λ row. row.project_id == project_id) r.memberships

unfoldable pub require_project_membership : Repository → String → String → Result ProjectMembership
unfolding list_project_memberships
require_project_membership r project_id user_id =
    require (find (λ row. row.user_id == user_id) (list_project_memberships r project_id)) not_found

abbrev pub other_owner : ProjectMembership → ProjectMembership → Bool
other_owner current row = not (row.user_id == current.user_id) && is_owner row.role

unfoldable pub assert_project_keeps_owner : Repository → ProjectMembership → Result (Unit {0})
unfolding list_project_memberships
assert_project_keeps_owner r current =
    let other_owners =
      filter (other_owner current) (list_project_memberships r current.project_id) in
    if not (is_owner current.role)
    then ok tt
    else if not (ltb 0 (length other_owners))
    then err validation
    else if is_accepted current.invite_status
        && not (any (λ row. is_accepted row.invite_status) other_owners)
    then err validation
    else ok tt

-- `insert ... on conflict(project_id, user_id) do update`: `created_at` stays
abbrev pub merged : ProjectMembership → ProjectMembership → ProjectMembership
merged row m = record row {
  role = m.role;
  invite_status = m.invite_status;
  invited_at = m.invited_at;
  accepted_at = m.accepted_at;
}

abbrev pub merged_in : ProjectMembership → ProjectMembership → ProjectMembership
merged_in m row = if is_row m.project_id m.user_id row then merged row m else row

unfoldable pub create_project_membership :
    ProjectMembership → List ProjectMembership → List ProjectMembership
create_project_membership m rows =
    if any (is_row m.project_id m.user_id) rows then map (merged_in m) rows else rows ++ m ∷ []

abbrev pub with_role : String → String → ProjectRole → ProjectMembership → ProjectMembership
with_role project_id user_id role row =
    if is_row project_id user_id row then record row { role = role } else row

abbrev pub with_acceptance : String → String → String → ProjectMembership → ProjectMembership
with_acceptance project_id user_id at row =
    if is_row project_id user_id row
    then record row { invite_status = accepted; accepted_at = some at }
    else row

unfoldable pub update_project_membership_role :
    String → String → ProjectRole → Repository → Result Repository
update_project_membership_role project_id user_id role r = do
  guard (any (is_row project_id user_id) r.memberships) not_found
  ok (record r { memberships = map (with_role project_id user_id role) r.memberships })

unfoldable pub delete_project_membership : String → String → Repository → Result Repository
delete_project_membership project_id user_id r = do
  guard (any (is_row project_id user_id) r.memberships) not_found
  ok (record r { memberships = filter (λ row. not (is_row project_id user_id row)) r.memberships })

unfoldable pub accept_membership_row : String → String → String → Repository → Result Repository
accept_membership_row project_id user_id at r = do
  guard (any (is_row project_id user_id) r.memberships) not_found
  ok (record r { memberships = map (with_acceptance project_id user_id at) r.memberships })

unfoldable pub record_audit :
    String → String → CustomerAuditAction → Project → String → Repository → Repository
record_audit id now action project target_id r = record r {
  audit =
      r.audit
      ++ record {
        id = id;
        organization_id = project.organization_id;
        project_id = project.id;
        action = action;
        target_type = "project_member";
        target_id = target_id;
        created_at = now;
      }
        ∷ [];
}

-- Where the call runs: the clock and the id of its audit event.
pub record Context : Type 0 where
  pub now : String
  pub audit_id : String

unfoldable pub add_project_membership :
    Context → String → String → Option ProjectRole → Repository → Result Repository
unfolding require_project require_user create_project_membership record_audit
add_project_membership ctx project_id user_id role r = do
  project ← require_project r project_id
  require_user r user_id
  role' ← require role validation
  let m : ProjectMembership = record {
    project_id = project_id;
    user_id = user_id;
    role = role';
    invite_status = pending;
    invited_at = ctx.now;
    accepted_at = none;
    created_at = ctx.now;
  }
  ok (
      record_audit ctx.audit_id ctx.now project_member_added project user_id
        (record r { memberships = create_project_membership m r.memberships }))

abbrev pub owner_check : ProjectMembership → ProjectRole → Repository → Result (Unit {0})
owner_check current role r =
    if is_owner current.role && not (is_owner role)
    then assert_project_keeps_owner r current
    else ok tt

unfoldable pub update_project_membership :
    Context → String → String → Option ProjectRole → Repository → Result Repository
unfolding require_project require_user require_project_membership assert_project_keeps_owner
    update_project_membership_role record_audit
update_project_membership ctx project_id user_id role r = do
  project ← require_project r project_id
  require_user r user_id
  role' ← require role validation
  current ← require_project_membership r project_id user_id
  owner_check current role' r
  r' ← update_project_membership_role project_id user_id role' r
  ok (record_audit ctx.audit_id ctx.now project_member_role_updated project user_id r')

unfoldable pub remove_project_membership :
    Context → String → String → Repository → Result Repository
unfolding require_project require_user require_project_membership assert_project_keeps_owner
    delete_project_membership record_audit
remove_project_membership ctx project_id user_id r = do
  project ← require_project r project_id
  require_user r user_id
  current ← require_project_membership r project_id user_id
  assert_project_keeps_owner r current
  r' ← delete_project_membership project_id user_id r
  ok (record_audit ctx.audit_id ctx.now project_member_removed project user_id r')

unfoldable pub accept_project_membership_invite :
    Context → String → String → Repository → Result Repository
unfolding require_project require_user accept_membership_row record_audit
accept_project_membership_invite ctx project_id user_id r = do
  project ← require_project r project_id
  require_user r user_id
  r' ← accept_membership_row project_id user_id ctx.now r
  ok (record_audit ctx.audit_id ctx.now project_member_accepted project user_id r')
