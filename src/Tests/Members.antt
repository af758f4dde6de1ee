-- ===== src/Tests/Members.antt =====
-- Runs of the membership calls.
use odenctl.Prelude.{
  ◌≡◌, refl, sym, ap, ◌∙◌, ◌≢◌, inl, inr, String, true, some, List, [], ◌∷◌, Member, ne_of_beq,
  string_eq,
}
use odenctl.ControlPlane.Errors.{ok, err, validation}
use odenctl.ControlPlane.Memberships.{
  ProjectRole, owner, viewer, ProjectMembership, accepted, Project, Repository, Context,
  project_member_removed, project_member_role_updated, require_project, require_user,
  add_project_membership, update_project_membership, remove_project_membership,
}
use odenctl.ControlPlane.Memberships.Owners.{
  HasOwner, HasKey, counted, any_status, remove_project_membership-HasOwner,
}
use odenctl.ControlPlane.Memberships.Demotions.{add_project_membership-no_owner}

abbrev sample_project : Project
sample_project = record { id = "p"; organization_id = some "org" }

abbrev member : String → ProjectRole → ProjectMembership
member user role = record {
  project_id = "p";
  user_id = user;
  role = role;
  invite_status = accepted;
  invited_at = "2026";
  accepted_at = some "2026";
  created_at = "2026";
}

abbrev with_members : List ProjectMembership → Repository
with_members rows = record {
  projects = sample_project ∷ [];
  users = "ann" ∷ "bob" ∷ [];
  memberships = rows;
  audit = [];
}

abbrev alone : Repository
alone = with_members (member "ann" owner ∷ [])

abbrev together : Repository
together = with_members (member "ann" owner ∷ member "bob" owner ∷ [])

abbrev ctx : Context
ctx = record { now = "2027"; audit_id = "aud" }

-- the only owner cannot leave or step down by these calls
alone_refused : remove_project_membership ctx "p" "ann" alone ≡ err validation
unfolding remove_project_membership
alone_refused = refl

alone_kept : update_project_membership ctx "p" "ann" (some viewer) alone ≡ err validation
unfolding update_project_membership
alone_kept = refl

abbrev user : ProjectMembership → String
user x = x.user_id

abbrev ann : String
ann = "ann"

ann≢bob : ann ≢ "bob"
ann≢bob = ne_of_beq ann "bob" refl

alone_project : require_project alone "p" ≡ ok sample_project
unfolding require_project
alone_project = refl

alone_user : require_user alone "ann" ≡ ok tt
unfolding require_user
alone_user = refl

together-HasKey : HasKey together
together-HasKey a b (inl x) (inl y) p u = x ∙ sym y
together-HasKey a b (inl x) (inr (inl y)) p u = absurd (ann≢bob (ap user (sym x) ∙ u ∙ ap user y))
together-HasKey a b (inr (inl x)) (inl y) p u =
    absurd (ann≢bob (ap user (sym y) ∙ sym u ∙ ap user x))
together-HasKey a b (inr (inl x)) (inr (inl y)) p u = x ∙ sym y
together-HasKey a b (inl x) (inr (inr m)) p u = absurd m
together-HasKey a b (inr (inl x)) (inr (inr m)) p u = absurd m
together-HasKey a b (inr (inr m)) n p u = absurd m

together-HasOwner : HasOwner (counted true) "p" together
together-HasOwner = (member "bob" owner, inr (inl refl), refl, refl, refl)

abbrev without_ann : Repository
without_ann = record {
  projects = sample_project ∷ [];
  users = "ann" ∷ "bob" ∷ [];
  memberships = member "bob" owner ∷ [];
  audit =
      record {
        id = "aud";
        organization_id = some "org";
        project_id = "p";
        action = project_member_removed;
        target_type = "project_member";
        target_id = "ann";
        created_at = "2027";
      }
      ∷ [];
}

removed : remove_project_membership ctx "p" "ann" together ≡ ok without_ann
unfolding remove_project_membership
removed = refl

remove_project_membership-HasOwner_example : HasOwner (counted true) "p" without_ann
remove_project_membership-HasOwner_example =
    remove_project_membership-HasOwner true ctx "p" "ann" "p" together together-HasKey removed
      together-HasOwner

abbrev ann_viewer : Repository
ann_viewer = record {
  projects = sample_project ∷ [];
  users = "ann" ∷ "bob" ∷ [];
  memberships = member "ann" viewer ∷ member "bob" owner ∷ [];
  audit =
      record {
        id = "aud";
        organization_id = some "org";
        project_id = "p";
        action = project_member_role_updated;
        target_type = "project_member";
        target_id = "ann";
        created_at = "2027";
      }
      ∷ [];
}

updated : update_project_membership ctx "p" "ann" (some viewer) together ≡ ok ann_viewer
unfolding update_project_membership
updated = refl

ann_only :
    (x : ProjectMembership)
    → Member x alone.memberships
    → x.project_id ≡ "p"
    → x.role ≡ owner
    → x.user_id ≡ "ann"
ann_only x (inl e) p o = ap user e
ann_only x (inr m) p o = absurd m

add_project_membership-no_owner_example :
    (r' : Repository) × (add_project_membership ctx "p" "ann" (some viewer) alone ≡ ok r')
    × (¬ HasOwner any_status "p" r')
add_project_membership-no_owner_example =
    add_project_membership-no_owner ctx "p" "ann" viewer sample_project alone refl alone_project
      alone_user ann_only
