-- ===== src/Auth/Policy.antt =====
-- src/ansina/auth/policy.py: the fixed policy of the builtin roles. A set of verbs is its
-- membership test.
use text.Mathlib.Text.{starts_with}
use ansina.Prelude.{String, Bool, true, false, ◌&&◌, not, if◌then◌else◌, List, [], ◌∷◌}

-- src/ansina/auth/models.py
pub data Verb : Type 0 where
  get post put patch delete : Verb

pub data RoleSlug : Type 0 where
  read write maintain admin : RoleSlug

pub data PolicyClass : Type 0 where
  ordinary auth self : PolicyClass

abbrev pub all_verbs : List Verb
all_verbs = get ∷ post ∷ put ∷ patch ∷ delete ∷ []

-- The role slugs of `BUILTIN_ROLES`, in its order.
abbrev pub builtin_roles : List RoleSlug
builtin_roles = read ∷ write ∷ maintain ∷ admin ∷ []

unfoldable pub is_sensitive_resource : String → Bool
is_sensitive_resource resource = starts_with resource "auth."

unfoldable pub is_self_resource : String → Bool
is_self_resource resource = starts_with resource "me."

unfoldable pub policy_class : String → PolicyClass
policy_class resource =
    if is_self_resource resource
    then self
    else if is_sensitive_resource resource
    then auth
    else ordinary

unfoldable pub is_grantable : String → Bool
is_grantable resource = not (is_self_resource resource)

-- `role not in (RoleSlug.MAINTAIN, RoleSlug.ADMIN)`
abbrev is_basic : RoleSlug → Bool
is_basic read = true
is_basic write = true
is_basic maintain = false
is_basic admin = false

abbrev role_verbs : RoleSlug → Verb → Bool
role_verbs read get = true
role_verbs read _ = false
role_verbs write delete = false
role_verbs write _ = true
role_verbs maintain v = true
role_verbs admin v = true

unfoldable pub permitted_verbs : RoleSlug → String → Verb → Bool
permitted_verbs role resource v =
    if is_self_resource resource
    then true
    else if is_sensitive_resource resource && is_basic role
    then false
    else role_verbs role v
