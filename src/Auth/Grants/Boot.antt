-- ===== src/Auth/Grants/Boot.antt =====
-- What the grants are after the reconciliation at boot.
use ansina.Prelude.{
  ℕ, String, ◌≡◌, ◌≢◌, refl, none, some, List, [], ◌∷◌, Bool, true, false, not, ◌&&◌, ◌||◌, ◌==◌,
  str_eq, eq_iff, if◌then◌else◌, keep, arith, inl, inr, ◌⊎◌, ◌∙◌, ap, All,
}
use ansina.Prelude.Sets.{contains, contains-append, contains-keep, contains-reconcile}
use ansina.Auth.Policy.{Verb, RoleSlug, get, post, put, patch, delete, all_verbs, permitted_verbs}
use ansina.Auth.Grants.{
  Grant, grant_eq, Grants, list_for_role, Resource, wanted_verbs, wanted, reconcile_role,
  reconcile_builtin_roles, is_admin, authorize, forbidden, sudo_required, effective_verbs, has_role,
  verb_eq, verb_eq_iff, grant_beq,
}

-- The policy's own answer: a catalogued resource of this name serves the verb, and the policy
-- permits it to the role.
pub policy_grants : RoleSlug → List Resource → String → Verb → Bool
policy_grants slug [] name v = false
policy_grants slug (r ∷ rs) name v =
    str_eq r.name name && r.serves v && permitted_verbs slug name v || policy_grants slug rs name v

abbrev pub at_role : ℕ → String → Verb → Grant
at_role id name v = record { role_id = id; resource = name; verb = v }

grant_parts :
    (g : Grant) (id : ℕ) (name : String) (v : Verb)
    → grant_beq g (at_role id name v)
      ≡ (g.role_id == id && str_eq g.resource name && verb_eq g.verb v)
unfolding grant_beq
grant_parts g id name v = refl

verb_in : Verb → List Verb → Bool
verb_in v [] = false
verb_in v (w ∷ ws) = verb_eq v w || verb_in v ws

contains-wanted_verbs :
    (id : ℕ) (slug : RoleSlug) (r : Resource) (g : Grant) (vs : List Verb)
    → contains g (wanted_verbs id slug r vs) ≡ (
        g.role_id == id
        && str_eq r.name g.resource
        && permitted_verbs slug r.name g.verb
        && r.serves g.verb
        && verb_in g.verb vs)
unfolding contains wanted_verbs verb_in
contains-wanted_verbs id slug r g [] = ground arith
contains-wanted_verbs id slug r g (v ∷ vs) = ground (
  arith,
  contains-wanted_verbs id slug r g vs,
  grant_parts g id r.name v,
  verb_eq_iff g.verb v,
  eq_iff g.resource r.name,
  eq_iff r.name g.resource,
)

verb_in-all : (v : Verb) → verb_in v all_verbs ≡ true
unfolding verb_in verb_eq
verb_in-all get = refl
verb_in-all post = refl
verb_in-all put = refl
verb_in-all patch = refl
verb_in-all delete = refl

gather_terms :
    (i n p p' s q : Bool)
    → (n ≡ true → p ≡ p')
    → (i && n && p && s && true || i && q) ≡ (i && (n && s && p' || q))
gather_terms true true p p' s q h = ground arith
gather_terms true false p p' s q h = ground arith
gather_terms false n p p' s q h = refl

contains-nil : (g : Grant) → contains g [] ≡ false
unfolding contains
contains-nil g = refl

none_wanted : (i : Bool) → false ≡ (i && false)
none_wanted true = refl
none_wanted false = refl

contains-wanted :
    (id : ℕ) (slug : RoleSlug) (rs : List Resource) (g : Grant)
    → contains g (wanted id slug rs) ≡ (g.role_id == id && policy_grants slug rs g.resource g.verb)
unfolding wanted policy_grants
contains-wanted id slug [] g = contains-nil g ∙ none_wanted (g.role_id == id)
contains-wanted id slug (r ∷ rs) g =
    rw
      (
        contains-append g (wanted_verbs id slug r all_verbs) (wanted id slug rs),
        contains-wanted_verbs id slug r g all_verbs,
        contains-wanted id slug rs g,
        verb_in-all g.verb,
      )
      (gather_terms (g.role_id == id) (str_eq r.name g.resource) _ _ (r.serves g.verb) _
        (λ e. ap (λ n. permitted_verbs slug n g.verb) ((eq_iff r.name g.resource).0 e)))

settle_terms :
    (i w t : Bool)
    → ((t || (i && w) && not (t && i)) && not ((t && i) && not (i && w))) ≡ (if i then w else t)
settle_terms true true true = refl
settle_terms true true false = refl
settle_terms true false true = refl
settle_terms true false false = refl
settle_terms false w true = refl
settle_terms false w false = refl

-- One role's reconciliation gives that role what the policy grants it, and no other role anything.
contains-reconcile_role :
    (id : ℕ) (slug : RoleSlug) (rs : List Resource) (t : Grants) (g : Grant)
    → contains g (reconcile_role id slug rs t)
      ≡ (if g.role_id == id then policy_grants slug rs g.resource g.verb else contains g t)
unfolding reconcile_role list_for_role
contains-reconcile_role id slug rs t g =
    rw
      (
        contains-reconcile g (keep (λ h. h.role_id == id) t) (wanted id slug rs) t,
        contains-keep g (λ h. h.role_id == id) t,
        contains-wanted id slug rs g,
      )
      (settle_terms (g.role_id == id) (policy_grants slug rs g.resource g.verb) (contains g t))

-- The roles have different ids.
abbrev pub Distinct : List (ℕ × RoleSlug) → Type 0
Distinct [] = Unit
Distinct ((id, slug) ∷ roles) = All (λ r. r.0 ≢ id) roles × Distinct roles

-- A role that is not among the reconciled ones has the grants after the reconciliation that it had
-- before it.
pub reconcile_builtin_roles-others :
    (roles : List (ℕ × RoleSlug)) (rs : List Resource) (t : Grants) (g : Grant)
    → All (λ r. r.0 ≢ g.role_id) roles
    → contains g (reconcile_builtin_roles roles rs t) ≡ contains g t
unfolding reconcile_builtin_roles
reconcile_builtin_roles-others [] rs t g far = refl
reconcile_builtin_roles-others ((id, slug) ∷ roles) rs t g (ne, far) =
    reconcile_builtin_roles-others roles rs (reconcile_role id slug rs t) g far
    ∙ rw (contains-reconcile_role id slug rs t g) (ground arith)

-- The role of this id is among the reconciled ones, under this slug.
abbrev pub Listed : ℕ → RoleSlug → List (ℕ × RoleSlug) → Type 0
Listed id slug [] = ⊥
Listed id slug ((j, other) ∷ roles) = ((id ≡ j) × (slug ≡ other)) ⊎ Listed id slug roles

first_wins : (id : ℕ) (w t : Bool) → (if id == id then w else t) ≡ w
first_wins id w t = ground arith

reconcile_builtin_roles-grants :
    (roles : List (ℕ × RoleSlug)) (rs : List Resource) (t : Grants) (id : ℕ) (slug : RoleSlug)
    (name : String) (v : Verb)
    → Distinct roles
    → Listed id slug roles
    → contains (at_role id name v) (reconcile_builtin_roles roles rs t)
      ≡ policy_grants slug rs name v
unfolding reconcile_builtin_roles
reconcile_builtin_roles-grants [] rs t id slug name v d l = absurd l
reconcile_builtin_roles-grants ((j, other) ∷ roles) rs t id slug name v (far, d) (inl (e, f)) =
    rw (e, f)
      (reconcile_builtin_roles-others roles rs (reconcile_role j other rs t) (at_role j name v) far
        ∙ contains-reconcile_role j other rs t (at_role j name v)
        ∙ first_wins j (policy_grants other rs name v) (contains (at_role j name v) t))
reconcile_builtin_roles-grants ((j, other) ∷ roles) rs t id slug name v (far, d) (inr l) =
    reconcile_builtin_roles-grants roles rs (reconcile_role j other rs t) id slug name v d l

effective_verbs-role :
    (id : ℕ) (name : String) (v : Verb) (t : Grants)
    → effective_verbs (id ∷ []) name v t ≡ contains (at_role id name v) t
unfolding effective_verbs has_role contains
effective_verbs-role id name v [] = refl
effective_verbs-role id name v (g ∷ t) =
    rw (grant_parts (at_role id name v) g.role_id g.resource g.verb) (
      ground (
        arith,
        effective_verbs-role id name v t,
        eq_iff g.resource name,
        eq_iff name g.resource,
        verb_eq_iff g.verb v,
        verb_eq_iff v g.verb,
      ))

-- After the reconciliation at boot of roles with different ids, a caller whose one role is among
-- them is authorized as the fixed policy says for its slug: forbidden where it does not grant the
-- verb on a served resource, in want of a sudo grant on a sensitive route unless it is an admin or
-- holds one, and let through otherwise.
pub authorize-reconcile_builtin_roles :
    (roles : List (ℕ × RoleSlug)) (rs : List Resource) (t : Grants) (id : ℕ) (slug : RoleSlug)
    (slugs : List String) (sudo : Bool) (name : String) (v : Verb) (sensitive : Bool)
    → Distinct roles
    → Listed id slug roles
    → authorize
        (reconcile_builtin_roles roles rs t)
        (record { role_ids = id ∷ []; role_slugs = slugs; sudo_active = sudo })
        name
        v
        sensitive
      ≡ (if policy_grants slug rs name v
          then (if sensitive && not (is_admin slugs) && not sudo then some sudo_required else none)
          else some forbidden)
unfolding authorize
authorize-reconcile_builtin_roles roles rs t id slug slugs sudo name v sensitive d l =
    rw
      (
        effective_verbs-role id name v (reconcile_builtin_roles roles rs t),
        reconcile_builtin_roles-grants roles rs t id slug name v d l,
      )
      (ground arith)
