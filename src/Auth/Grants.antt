-- ===== src/Auth/Grants.antt =====
-- The grants: `RolePermissionRepository` of src/ansina/auth/repositories.py, the reconciliation of
-- src/ansina/auth/reconciler.py and the decision of src/ansina/auth/authorization.py. The rows of
-- `role_permissions` are a set, by their primary key; a role's id is the number that its 32
-- hexadecimal digits write.
pub mod Boot
use ansina.Prelude.{
  ℕ, suc, String, ◌≡◌, ◌↔◌, Option, none, some, List, [], ◌∷◌, ◌++◌, Bool, true, false, not, ◌&&◌,
  ◌||◌, ◌==◌, str_eq, eq_iff, if◌then◌else◌, keep, arith,
}
use ansina.Prelude.Sets.{Eq, contains, insert, remove, reconcile}
use ansina.Auth.Policy.{
  Verb, get, post, put, patch, delete, RoleSlug, read, write, maintain, admin, all_verbs,
  builtin_roles, permitted_verbs,
}

pub record Grant : Type 0 where
  pub role_id : ℕ
  pub resource : String
  pub verb : Verb

abbrev verb_index : Verb → ℕ
verb_index get = 0
verb_index post = 1
verb_index put = 2
verb_index patch = 3
verb_index delete = 4

unfoldable pub verb_eq : Verb → Verb → Bool
verb_eq a b = verb_index a == verb_index b

pub verb_eq_iff : (a b : Verb) → (verb_eq a b ≡ true) ↔ (a ≡ b)
unfolding verb_eq
verb_eq_iff a b = ground arith

unfoldable pub grant_beq : Grant → Grant → Bool
grant_beq a b = a.role_id == b.role_id && str_eq a.resource b.resource && verb_eq a.verb b.verb

pub grant_beq_iff : (a b : Grant) → (grant_beq a b ≡ true) ↔ (a ≡ b)
unfolding grant_beq
grant_beq_iff a b = ground (arith, eq_iff a.resource b.resource, verb_eq_iff a.verb b.verb)

instance abbrev pub grant_eq : Eq Grant
grant_eq = record { beq = grant_beq; beq_iff = grant_beq_iff }

abbrev pub Grants : Type 0
Grants = List Grant

-- `grant` and `revoke`
unfoldable pub grant : ℕ → String → Verb → Grants → Grants
grant id resource v = insert (record { role_id = id; resource = resource; verb = v })

unfoldable pub revoke : ℕ → String → Verb → Grants → Grants
revoke id resource v = remove (record { role_id = id; resource = resource; verb = v })

-- `list_for_role`, less its order.
unfoldable pub list_for_role : ℕ → Grants → Grants
unfolding keep
list_for_role id = keep (λ g. g.role_id == id)

unfoldable pub has_role : ℕ → List ℕ → Bool
has_role id [] = false
has_role id (r ∷ rs) = r == id || has_role id rs

-- `effective_verbs`: whether the verb is granted on the resource to any of the roles.
unfoldable pub effective_verbs : List ℕ → String → Verb → Grants → Bool
unfolding has_role
effective_verbs roles resource v [] = false
effective_verbs roles resource v (g ∷ gs) =
    str_eq g.resource resource && has_role g.role_id roles && verb_eq g.verb v
    || effective_verbs roles resource v gs

-- What `authorize` reads of a principal.
pub record Principal : Type 0 where
  pub role_ids : List ℕ
  pub role_slugs : List String
  pub sudo_active : Bool

pub data AuthError : Type 0 where
  forbidden sudo_required : AuthError

-- `RoleSlug.ADMIN.value in principal.role_slugs`
unfoldable pub is_admin : List String → Bool
is_admin [] = false
is_admin (slug ∷ slugs) = str_eq slug "admin" || is_admin slugs

-- `authorize`; `none` is its return.
unfoldable pub authorize : Grants → Principal → String → Verb → Bool → Option AuthError
authorize gs p resource v sensitive =
    if not (effective_verbs p.role_ids resource v gs)
    then some forbidden
    else if sensitive && not (is_admin p.role_slugs) && not p.sudo_active
    then some sudo_required
    else none

-- A row of `resources`, with the verbs that its routes serve.
pub record Resource : Type 0 where
  pub name : String
  pub serves : Verb → Bool

-- The pairs that `reconcile_builtin_roles` wants for a role, resource by resource.
unfoldable pub wanted_verbs : ℕ → RoleSlug → Resource → List Verb → Grants
wanted_verbs id slug r [] = []
wanted_verbs id slug r (v ∷ vs) =
    let rest = wanted_verbs id slug r vs in
    if permitted_verbs slug r.name v && r.serves v
    then record { role_id = id; resource = r.name; verb = v } ∷ rest
    else rest

unfoldable pub wanted : ℕ → RoleSlug → List Resource → Grants
unfolding wanted_verbs
wanted id slug [] = []
wanted id slug (r ∷ rs) = wanted_verbs id slug r all_verbs ++ wanted id slug rs

unfoldable pub reconcile_role : ℕ → RoleSlug → List Resource → Grants → Grants
reconcile_role id slug catalogued t = reconcile (list_for_role id t) (wanted id slug catalogued) t

-- `reconcile_builtin_roles`, over the roles that it has made sure of.
unfoldable pub reconcile_builtin_roles : List (ℕ × RoleSlug) → List Resource → Grants → Grants
reconcile_builtin_roles [] catalogued t = t
reconcile_builtin_roles ((id, slug) ∷ roles) catalogued t =
    reconcile_builtin_roles roles catalogued (reconcile_role id slug catalogued t)
