-- ===== src/Auth/Management.antt =====
-- The guards of src/ansina/auth/management.py and the bodies of the routes of src/ansina/api/routes
-- (users.py, groups.py, role_assignments.py) that change who holds a role, and the synchronisation of
-- roles at a login by an identity provider, which changes it too. A request is one step here: two
-- requests whose guard and write interleave are not modelled.
pub mod Guards
pub mod LastAdmin
pub mod Login
pub mod Escalation
use ansina.Prelude.{
  ℕ, String, Option, none, some, List, [], ◌∷◌, Bool, true, false, not, ◌&&◌, ◌||◌, str_eq,
  if◌then◌else◌, keep, Result, ok, err,
}
use ansina.Auth.Policy.{Verb, is_sensitive_resource, is_grantable}
use ansina.Auth.Grants.{Grant, Grants, Principal, Resource, has_role, is_admin, verb_eq}
use ansina.Auth.RoleSync.{RoleMapping, Claims, sync_mapped_roles}
use ansina.Auth.Directory.Any.{any}
use ansina.Auth.Directory.{
  SubjectType, User, Role, Directory, DirectoryError, not_found, last_admin, self_escalation,
  get_user, get_role, get_by_slug, group_exists, set_active, soft_delete, delete_group_rows,
  add_member_row, remove_member_row, list_members, assign, unassign, has_slug, users_with_role,
}

unfoldable pub ids : List User → List ℕ
ids [] = []
ids (u ∷ us) = u.id ∷ ids us

-- Whether `assert_admin_remains` returns.
unfoldable pub assert_admin_remains : List ℕ → Directory → Bool
unfolding get_by_slug users_with_role has_role
assert_admin_remains losing d = elim (get_by_slug "admin" d.roles) [
  | none ↦ true
  | some r ↦ any (λ u. not (has_role u.id losing)) (users_with_role r.id d)
]

abbrev pub guard : Bool → Directory → Result DirectoryError Directory
guard passes d = if passes then ok d else err last_admin

-- `_get_live_user`
unfoldable pub get_live_user : ℕ → Directory → Option User
unfolding get_user
get_live_user id d = elim (get_user id d.users) [
  | none ↦ none
  | some u ↦ if u.deleted then none else some u
]

abbrev pub set_if : ℕ → Option Bool → Directory → Directory
set_if id none d = d
set_if id (some flag) d = set_active id flag d

abbrev pub deactivates : Option Bool → Bool
deactivates none = false
deactivates (some flag) = not flag

-- `_update_user`, less the display name.
unfoldable pub update_user : ℕ → Option Bool → Directory → Result DirectoryError Directory
unfolding get_live_user assert_admin_remains set_active
update_user id active d = elim (get_live_user id d) [
  | none ↦ err not_found
  | some u ↦
      guard (not (deactivates active) || assert_admin_remains (id ∷ []) d) (set_if id active d)
]

unfoldable pub delete_user : ℕ → Directory → Result DirectoryError Directory
unfolding get_live_user assert_admin_remains soft_delete
delete_user id d = elim (get_live_user id d) [
  | none ↦ err not_found
  | some u ↦ guard (assert_admin_remains (id ∷ []) d) (soft_delete id d)
]

-- Whether `_guard_admin_group_delete` returns.
abbrev pub guard_admin_group_delete : ℕ → Directory → Bool
guard_admin_group_delete g d =
    not (has_slug SubjectType.group g "admin" d) || assert_admin_remains (ids (list_members g d)) d

unfoldable pub delete_group : ℕ → Directory → Result DirectoryError Directory
unfolding group_exists has_slug assert_admin_remains list_members ids delete_group_rows
delete_group g d =
    if not (group_exists g d)
    then err not_found
    else guard (guard_admin_group_delete g d) (delete_group_rows g d)

unfoldable pub add_member : ℕ → ℕ → Directory → Result DirectoryError Directory
unfolding group_exists add_member_row
add_member g u d = if not (group_exists g d) then err not_found else add_member_row g u d

unfoldable pub remove_member : ℕ → ℕ → Directory → Result DirectoryError Directory
unfolding group_exists has_slug assert_admin_remains remove_member_row
remove_member g u d =
    if not (group_exists g d)
    then err not_found
    else guard (not (has_slug SubjectType.group g "admin" d) || assert_admin_remains (u ∷ []) d)
        (remove_member_row g u d)

-- `_unassign_from_user`
unfoldable pub unassign_from_user : ℕ → ℕ → Directory → Result DirectoryError Directory
unfolding get_role assert_admin_remains unassign
unassign_from_user u role d = elim (get_role role d.roles) [
  | none ↦ err not_found
  | some r ↦
      guard (not (str_eq r.slug "admin") || assert_admin_remains (u ∷ []) d)
        (unassign SubjectType.user u role none d)
]

-- `_unassign_from_group`
unfoldable pub unassign_from_group : ℕ → ℕ → Directory → Result DirectoryError Directory
unfolding get_role assert_admin_remains list_members ids unassign
unassign_from_group g role d = elim (get_role role d.roles) [
  | none ↦ err not_found
  | some r ↦
      guard (not (str_eq r.slug "admin") || assert_admin_remains (ids (list_members g d)) d)
        (unassign SubjectType.group g role none d)
]

-- `grants_for_roles`, each with the role that has it.
unfoldable pub grants_for_roles : List ℕ → Grants → Grants
unfolding keep has_role
grants_for_roles roles = keep (λ g. has_role g.role_id roles)

unfoldable pub has_pair : Grant → Grants → Bool
unfolding verb_eq
has_pair g = any (λ h. str_eq h.resource g.resource && verb_eq h.verb g.verb)

-- Whether `_assert_no_excess_grants` returns.
unfoldable pub assert_no_excess_grants : Grants → Principal → Grants → Bool
unfolding is_admin has_pair grants_for_roles
assert_no_excess_grants gs p grants =
    not (not (is_admin p.role_slugs) && any (λ g. is_sensitive_resource g.resource) grants)
    && not (any (λ g. not (has_pair g (grants_for_roles p.role_ids gs))) grants)

-- Whether `assert_may_assign_role` returns.
unfoldable pub assert_may_assign_role : Grants → Principal → Role → Bool
unfolding is_admin assert_no_excess_grants grants_for_roles
assert_may_assign_role gs p role =
    not (str_eq role.slug "admin" && not (is_admin p.role_slugs))
    && assert_no_excess_grants gs p (grants_for_roles (role.id ∷ []) gs)

-- Whether `assert_may_grant_permissions` returns.
unfoldable pub assert_may_grant_permissions : Grants → Principal → Grants → Bool
unfolding assert_no_excess_grants
assert_may_grant_permissions gs p grants = assert_no_excess_grants gs p grants

unfoldable pub find_resource : String → List Resource → Option Resource
find_resource name [] = none
find_resource name (r ∷ rs) =
    let rest = find_resource name rs in if str_eq r.name name then some r else rest

abbrev serves_verb : Option Resource → Verb → Bool
serves_verb none v = false
serves_verb (some r) v = r.serves v

-- Whether `assert_grants_grantable` returns.
unfoldable pub assert_grants_grantable : List Resource → Grants → Bool
unfolding find_resource
assert_grants_grantable catalog grants = not (
    any
      (λ g. not (is_grantable g.resource && serves_verb (find_resource g.resource catalog) g.verb))
      grants)

abbrev pub may_assign : Grants → Option Principal → Role → Bool
may_assign gs none r = true
may_assign gs (some p) r = assert_may_assign_role gs p r

-- `_assign`; without authentication there is no principal.
unfoldable pub assign_role :
    Grants → Option Principal → SubjectType → ℕ → ℕ → Directory → Result DirectoryError Directory
unfolding get_role assert_may_assign_role assign
assign_role gs p t id role d = elim (get_role role d.roles) [
  | none ↦ err not_found
  | some r ↦ if may_assign gs p r then assign t id role "local" d else err self_escalation
]

-- A request to one of the routes above, as its body sees it, or a login: the mappings, the user, the
-- provider and its claims.
pub data Request : Type 0 where
  update : ℕ → Option Bool → Request
  delete : ℕ → Request
  drop_group : ℕ → Request
  join leave : ℕ → ℕ → Request
  attach : Option Principal → SubjectType → ℕ → ℕ → Request
  detach : SubjectType → ℕ → ℕ → Request
  log_in : List RoleMapping → ℕ → String → Claims → Request

unfoldable pub detach_role : SubjectType → ℕ → ℕ → Directory → Result DirectoryError Directory
unfolding unassign_from_user unassign_from_group
detach_role SubjectType.user id role d = unassign_from_user id role d
detach_role SubjectType.group id role d = unassign_from_group id role d

unfoldable pub handle : Grants → Request → Directory → Result DirectoryError Directory
unfolding update_user delete_user delete_group add_member remove_member assign_role detach_role
    sync_mapped_roles
handle gs (update id active) d = update_user id active d
handle gs (delete id) d = delete_user id d
handle gs (drop_group g) d = delete_group g d
handle gs (join g u) d = add_member g u d
handle gs (leave g u) d = remove_member g u d
handle gs (attach p t id role) d = assign_role gs p t id role d
handle gs (detach t id role) d = detach_role t id role d
handle gs (log_in mappings u provider claims) d = sync_mapped_roles mappings u provider claims d

-- A refused request leaves the tables as they are.
abbrev pub state_after : Directory → Result DirectoryError Directory → Directory
state_after d (ok d') = d'
state_after d (err e) = d

unfoldable pub handle_all : Grants → List Request → Directory → Directory
unfolding handle
handle_all gs [] d = d
handle_all gs (r ∷ rs) d = handle_all gs rs (state_after d (handle gs r d))
