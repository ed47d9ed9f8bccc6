-- ===== src/Auth/Directory.antt =====
-- The tables of users, groups, memberships and role assignments, with the methods of
-- UserRepository, GroupRepository, RoleRepository and RoleAssignmentRepository of
-- src/ansina/auth/repositories.py that read or change who holds a role. An id is the number that
-- its hexadecimal digits write; display names, timestamps and the ids of assignment rows are left out.
pub mod Any
pub mod Holders
pub mod Writes
use ansina.Prelude.{
  ℕ, String, Option, none, some, List, [], ◌∷◌, ◌++◌, Bool, true, false, not, ◌&&◌, ◌||◌, ◌==◌,
  str_eq, if◌then◌else◌, keep, Result, ok, err,
}
use ansina.Auth.Directory.Any.{any}

pub data SubjectType : Type 0 where
  user group : SubjectType

abbrev pub same_type : SubjectType → SubjectType → Bool
same_type user user = true
same_type group group = true
same_type _ _ = false

pub record User : Type 0 where
  pub id : ℕ
  pub username : String
  pub active : Bool
  pub deleted : Bool

pub record Role : Type 0 where
  pub id : ℕ
  pub slug : String

pub record Membership : Type 0 where
  pub user_id : ℕ
  pub group_id : ℕ

pub record RoleAssignment : Type 0 where
  pub subject_type : SubjectType
  pub subject_id : ℕ
  pub role_id : ℕ
  pub source : String

pub record Directory : Type 0 where
  pub users : List User
  pub groups : List ℕ
  pub memberships : List Membership
  pub assignments : List RoleAssignment
  pub roles : List Role

-- What the routes and the guards raise.
pub data DirectoryError : Type 0 where
  not_found last_admin self_escalation unknown_subject integrity_error : DirectoryError

-- `UserRepository.get`
unfoldable pub get_user : ℕ → List User → Option User
get_user id [] = none
get_user id (u ∷ us) = let rest = get_user id us in if u.id == id then some u else rest

-- `RoleRepository.get`
unfoldable pub get_role : ℕ → List Role → Option Role
get_role id [] = none
get_role id (r ∷ rs) = let rest = get_role id rs in if r.id == id then some r else rest

unfoldable pub get_by_slug : String → List Role → Option Role
get_by_slug slug [] = none
get_by_slug slug (r ∷ rs) =
    let rest = get_by_slug slug rs in if str_eq r.slug slug then some r else rest

unfoldable pub group_exists : ℕ → Directory → Bool
group_exists g d = any (λ h. h == g) d.groups

unfoldable pub user_exists : ℕ → Directory → Bool
user_exists u d = any (λ v. v.id == u) d.users

unfoldable pub set_users : (User → User) → ℕ → List User → List User
set_users f id [] = []
set_users f id (u ∷ us) = (if u.id == id then f u else u) ∷ set_users f id us

unfoldable pub set_active : ℕ → Bool → Directory → Directory
unfolding set_users
set_active id flag d = record d { users = set_users (λ u. record u { active = flag }) id d.users }

abbrev pub concerns : SubjectType → ℕ → RoleAssignment → Bool
concerns t id a = same_type a.subject_type t && a.subject_id == id

abbrev pub assigns : SubjectType → ℕ → ℕ → RoleAssignment → Bool
assigns t id role a = concerns t id a && a.role_id == role

-- `soft_delete`, less the credentials and the sudo grants that it deletes.
unfoldable pub soft_delete : ℕ → Directory → Directory
unfolding set_users keep
soft_delete id d = record d {
  users = set_users (λ u. record u { active = false; deleted = true }) id d.users;
  assignments = keep (λ a. not (concerns user id a)) d.assignments;
  memberships = keep (λ m. not (m.user_id == id)) d.memberships;
}

-- `GroupRepository.delete`, with the memberships that the foreign key deletes.
unfoldable pub delete_group_rows : ℕ → Directory → Directory
unfolding keep
delete_group_rows id d = record d {
  groups = keep (λ g. not (g == id)) d.groups;
  assignments = keep (λ a. not (concerns group id a)) d.assignments;
  memberships = keep (λ m. not (m.group_id == id)) d.memberships;
}

-- `GroupRepository.add_member`; the foreign keys refuse what is not there.
unfoldable pub add_member_row : ℕ → ℕ → Directory → Result DirectoryError Directory
unfolding user_exists group_exists
add_member_row g u d =
    if any (λ m. m.user_id == u && m.group_id == g) d.memberships
    then ok d
    else if user_exists u d && group_exists g d
    then ok (record d { memberships = d.memberships ++ record { user_id = u; group_id = g } ∷ [] })
    else err integrity_error

-- `GroupRepository.remove_member`
unfoldable pub remove_member_row : ℕ → ℕ → Directory → Directory
unfolding keep
remove_member_row g u d = record d {
  memberships = keep (λ m. not (m.group_id == g && m.user_id == u)) d.memberships;
}

-- `list_members`, by their ids: the rows of `users` with a membership.
unfoldable pub list_members : ℕ → Directory → List User
unfolding keep
list_members g d = keep (λ u. any (λ m. m.user_id == u.id && m.group_id == g) d.memberships) d.users

unfoldable pub subject_exists : SubjectType → ℕ → Directory → Bool
unfolding user_exists group_exists
subject_exists user id d = user_exists id d
subject_exists group id d = group_exists id d

-- `RoleAssignmentRepository.assign`
unfoldable pub assign : SubjectType → ℕ → ℕ → String → Directory → Result DirectoryError Directory
unfolding subject_exists
assign t id role source d =
    if not (subject_exists t id d)
    then err unknown_subject
    else if any (assigns t id role) d.assignments
    then ok d
    else ok (record d {
      assignments =
          d.assignments
          ++ record { subject_type = t; subject_id = id; role_id = role; source = source } ∷ [];
    })

abbrev pub from_source : Option String → RoleAssignment → Bool
from_source none a = true
from_source (some s) a = str_eq a.source s

-- `RoleAssignmentRepository.unassign`
unfoldable pub unassign : SubjectType → ℕ → ℕ → Option String → Directory → Directory
unfolding keep
unassign t id role source d = record d {
  assignments = keep (λ a. not (assigns t id role a && from_source source a)) d.assignments;
}

-- Whether `list_for_subject` has a role with this slug.
unfoldable pub has_slug : SubjectType → ℕ → String → Directory → Bool
has_slug t id slug d =
    any (λ r. str_eq r.slug slug && any (assigns t id r.id) d.assignments) d.roles

-- The two ways to a role.
abbrev pub direct : ℕ → ℕ → Directory → Bool
direct role id d = any (assigns user id role) d.assignments

abbrev pub through_group : ℕ → ℕ → Directory → Bool
through_group role id d =
    any (λ m. m.user_id == id && any (assigns group m.group_id role) d.assignments) d.memberships

-- The rows that `user_ids_with_role` selects.
unfoldable pub users_with_role : ℕ → Directory → List User
unfolding keep
users_with_role role d =
    keep (λ u. u.active && not u.deleted && (direct role u.id d || through_group role u.id d))
      d.users

-- `role_ids_for_subject`
unfoldable pub role_ids_of : SubjectType → ℕ → String → List RoleAssignment → List ℕ
role_ids_of t id source [] = []
role_ids_of t id source (a ∷ as') =
    let rest = role_ids_of t id source as' in
    if concerns t id a && str_eq a.source source then a.role_id ∷ rest else rest
