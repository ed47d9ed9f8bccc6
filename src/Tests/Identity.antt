-- ===== src/Tests/Identity.antt =====
-- Directories of users, groups and roles at concrete inputs.
use ansina.Prelude.{◌≡◌, ◌↔◌, refl, none, some, List, [], ◌∷◌, true, false, inr, ok, err, keep}
use ansina.Auth.Policy.{get, post}
use ansina.Auth.Grants.{Grants, Principal, has_role}
use ansina.Auth.Directory.Any.{any}
use ansina.Auth.Directory.{
  SubjectType, Directory, DirectoryError, Role, get_role, get_by_slug, user_exists, role_ids_of,
}
use ansina.Auth.Management.{Request, handle, handle_all, assert_may_assign_role}
use ansina.Auth.Management.Guards.{IsAdministered}
use ansina.Auth.Management.LastAdmin.{AllSpare, handle_all-IsAdministered}
use ansina.Auth.Management.Escalation.{MayHandOut, assert_may_assign_role_iff}
use ansina.Auth.RoleSync.{RoleMapping, Claim, Claims, desired, list_for_provider, sync_mapped_roles}
use ansina.Auth.RoleSync.Provenance.{Synced, sync_mapped_roles-Synced}

-- Two users: the first is admin through a group, the second by an identity provider.
abbrev office : Directory
office = record {
  users =
      record { id = 1; username = "ada"; active = true; deleted = false }
      ∷ record { id = 2; username = "bob"; active = true; deleted = false }
      ∷ [];
  groups = 10 ∷ [];
  memberships = record { user_id = 1; group_id = 10 } ∷ [];
  assignments =
      record { subject_type = SubjectType.group; subject_id = 10; role_id = 7; source = "local" }
      ∷ record { subject_type = SubjectType.user; subject_id = 2; role_id = 8; source = "okta" }
      ∷ [];
  roles = record { id = 7; slug = "admin" } ∷ record { id = 8; slug = "read" } ∷ [];
}

abbrev grants : Grants
grants =
    record { role_id = 8; resource = "heart"; verb = get }
    ∷ record { role_id = 7; resource = "auth.users"; verb = post }
    ∷ []

office-IsAdministered : IsAdministered 7 office
unfolding get_by_slug get_role any
office-IsAdministered = record {
  roles = record { by_slug = refl; by_id = refl };
  admin_id = 1;
  holds = record { lives = refl; reaches = inr refl };
}

last_admin_stays : handle grants (Request.drop_group 10) office ≡ err DirectoryError.last_admin
unfolding handle any
last_admin_stays = refl

-- The first user, with the role of readers by the claims of the provider.
abbrev sign_in : Request
sign_in =
    Request.log_in (record { provider = "okta"; claim = "dept"; value = "ops"; role_id = 8 } ∷ []) 1
      "okta" (("dept", Claim.text "ops") ∷ [])

abbrev requests : List Request
requests =
    Request.drop_group 10
    ∷ sign_in
    ∷ Request.attach none SubjectType.user 2 7
    ∷ Request.leave 10 1
    ∷ Request.delete 2
    ∷ []

requests-AllSpare : AllSpare 7 grants requests office
unfolding AllSpare handle any desired list_for_provider role_ids_of has_role keep sync_mapped_roles
requests-AllSpare = (tt, (refl, (tt, (tt, (tt, tt)))))

handle_all-IsAdministered_example : IsAdministered 7 (handle_all grants requests office)
handle_all-IsAdministered_example =
    handle_all-IsAdministered grants requests 7 office requests-AllSpare office-IsAdministered

-- A directory whose one admin is admin by the provider, who logs in without the claim.
abbrev outside : Directory
outside = record office {
  assignments =
      record { subject_type = SubjectType.user; subject_id = 1; role_id = 7; source = "okta" } ∷ [];
}

login_takes_the_last_admin :
    handle grants (Request.log_in [] 1 "okta" []) outside ≡ ok (record outside { assignments = [] })
unfolding handle any
login_takes_the_last_admin = refl

abbrev reader : Principal
reader = record { role_ids = 8 ∷ []; role_slugs = "read" ∷ []; sudo_active = false }

abbrev admin_role : Role
admin_role = record { id = 7; slug = "admin" }

assert_may_assign_role_iff_example :
    (assert_may_assign_role grants reader admin_role ≡ true) ↔ MayHandOut grants reader admin_role
assert_may_assign_role_iff_example = assert_may_assign_role_iff grants reader admin_role

abbrev mappings : List RoleMapping
mappings = record { provider = "okta"; claim = "groups"; value = "ops"; role_id = 7 } ∷ []

abbrev claims : Claims
claims = ("groups", Claim.texts (none ∷ some "ops" ∷ [])) ∷ []

sync_mapped_roles-Synced_example :
    (d' : Directory) × (sync_mapped_roles mappings 2 "okta" claims office ≡ ok d')
    × Synced 2 "okta" (desired claims (list_for_provider "okta" mappings)) office d'
unfolding user_exists any
sync_mapped_roles-Synced_example = sync_mapped_roles-Synced 2 "okta" mappings claims office refl
