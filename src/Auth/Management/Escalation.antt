-- ===== src/Auth/Management/Escalation.antt =====
-- A caller hands out no more than it has.
use ansina.Prelude.{
  ℕ, String, ◌≡◌, ◌↔◌, refl, sym, ◌∙◌, List, [], ◌∷◌, Bool, true, false, not, ◌&&◌, str_eq, eq_iff,
  keep, arith, Bool-cases, inl, inr,
}
use ansina.Auth.Policy.{Verb, is_sensitive_resource}
use ansina.Auth.Grants.{
  Grant, Grants, Principal, has_role, is_admin, verb_eq, verb_eq_iff, effective_verbs,
}
use ansina.Auth.Directory.Any.{any, any-member}
use ansina.Auth.Directory.{Role}
use ansina.Auth.Management.{
  grants_for_roles, has_pair, assert_no_excess_grants, assert_may_assign_role,
}

abbrev pair : String → Verb → Grant
pair resource v = record { role_id = 0; resource = resource; verb = v }

effective_verbs-eq-has_pair :
    (roles : List ℕ) (resource : String) (v : Verb) (gs : Grants)
    → effective_verbs roles resource v gs ≡ has_pair (pair resource v) (grants_for_roles roles gs)
unfolding effective_verbs has_pair grants_for_roles any keep
effective_verbs-eq-has_pair roles resource v [] = refl
effective_verbs-eq-has_pair roles resource v (g ∷ gs) =
    let rest = effective_verbs-eq-has_pair roles resource v gs in
    elim (Bool-cases (has_role g.role_id roles)) [
      | inl mine ↦ rw mine (ground (arith, rest))
      | inr other ↦ rw other (ground (arith, rest))
    ]

-- What a role gives that the caller lacks, or may not hand out.
pub record MayHandOut (gs : Grants) (p : Principal) (role : Role) : Type 0 where
  pub admin_only : str_eq role.slug "admin" ≡ true → is_admin p.role_slugs ≡ true
  pub sensitive :
      (resource : String) (v : Verb)
      → effective_verbs (role.id ∷ []) resource v gs ≡ true
      → is_sensitive_resource resource ≡ true
      → is_admin p.role_slugs ≡ true
  pub own :
      (resource : String) (v : Verb)
      → effective_verbs (role.id ∷ []) resource v gs ≡ true
      → effective_verbs p.role_ids resource v gs ≡ true

module _ (gs : Grants) (p : Principal) (role : Role) where
  abbrev given : Grants
  given = grants_for_roles (role.id ∷ []) gs

  abbrev held : Grants
  held = grants_for_roles p.role_ids gs

  given_row :
      (resource : String) (v : Verb)
      → effective_verbs (role.id ∷ []) resource v gs ≡ true
      → (g : Grant) × (g.resource ≡ resource)
        × (g.verb ≡ v)
        × ((f : Grant → Bool) → f g ≡ true → any f given ≡ true)
  unfolding has_pair
  given_row resource v h =
      let there : any (λ g. str_eq g.resource resource && verb_eq g.verb v) given ≡ true =
        sym (effective_verbs-eq-has_pair (role.id ∷ []) resource v gs) ∙ h in
      let (g, hit, find) = any-member _ given there in
      (
        g,
        (eq_iff g.resource resource).0 (ground arith),
        (verb_eq_iff g.verb v).0 (ground arith),
        find,
      )

  row_given :
      (g : Grant)
      → ((f : Grant → Bool) → f g ≡ true → any f given ≡ true)
      → effective_verbs (role.id ∷ []) g.resource g.verb gs ≡ true
  unfolding has_pair
  row_given g find =
      let one = (eq_iff g.resource g.resource).1 refl in
      let two = (verb_eq_iff g.verb g.verb).1 refl in
      effective_verbs-eq-has_pair (role.id ∷ []) g.resource g.verb gs
      ∙ find (λ h. str_eq h.resource g.resource && verb_eq h.verb g.verb) (rw (one, two) refl)

  allowed :
      assert_may_assign_role gs p role ≡ true
      → (any (λ g. not (has_pair g held)) given ≡ false)
        × (not (is_admin p.role_slugs) && any (λ g. is_sensitive_resource g.resource) given ≡ false)
        × (str_eq role.slug "admin" && not (is_admin p.role_slugs) ≡ false)
  unfolding assert_may_assign_role assert_no_excess_grants
  allowed h = (ground arith, ground arith, ground arith)

  may_hand_out : assert_may_assign_role gs p role ≡ true → MayHandOut gs p role
  unfolding has_pair
  may_hand_out h =
      let (no_excess, no_sensitive, no_admin) = allowed h in
      record {
        admin_only = λ e. ground arith;
        sensitive = λ resource v e s.
            let (g, same, _, find) = given_row resource v e in
            let some_sensitive = find (λ g. is_sensitive_resource g.resource) (rw same s) in
            ground arith;
        own = λ resource v e.
            let (g, same, same_verb, find) = given_row resource v e in
            elim (Bool-cases (has_pair g held)) [
              | inr lacks ↦ let bad = find (λ g. not (has_pair g held)) (rw lacks refl) in cc
              | inl has ↦
                  effective_verbs-eq-has_pair p.role_ids resource v gs ∙ rw (same, same_verb) at has
            ];
      }

  assigned : MayHandOut gs p role → assert_may_assign_role gs p role ≡ true
  unfolding assert_may_assign_role assert_no_excess_grants
  assigned m =
      let no_excess : any (λ g. not (has_pair g held)) given ≡ false =
        elim (Bool-cases (any (λ g. not (has_pair g held)) given)) [
          | inr none ↦ none
          | inl some_row ↦
              let (g, lacks, find) = any-member _ given some_row in
              let has =
                sym (effective_verbs-eq-has_pair p.role_ids g.resource g.verb gs)
                ∙ m.own g.resource g.verb (row_given g find) in
              absurd (ground arith)
        ] in
      let no_sensitive : not (is_admin p.role_slugs)
            && any (λ g. is_sensitive_resource g.resource) given
          ≡ false =
        elim (Bool-cases (any (λ g. is_sensitive_resource g.resource) given)) [
          | inr none ↦ rw none (ground arith)
          | inl some_row ↦
              let (g, s, find) = any-member _ given some_row in
              rw (m.sensitive g.resource g.verb (row_given g find) s) (ground arith)
        ] in
      let no_admin : str_eq role.slug "admin" && not (is_admin p.role_slugs) ≡ false =
        elim (Bool-cases (str_eq role.slug "admin")) [
          | inl admin ↦ rw (m.admin_only admin) (ground arith)
          | inr plain ↦ rw plain refl
        ] in
      rw (no_excess, no_sensitive, no_admin) refl

-- The guard of a role assignment returns exactly if the role gives nothing that the caller lacks:
-- no verb on any resource that the caller's own roles do not give it, and, unless the caller is
-- admin, neither the admin role nor anything sensitive.
pub assert_may_assign_role_iff :
    (gs : Grants) (p : Principal) (role : Role)
    → (assert_may_assign_role gs p role ≡ true) ↔ MayHandOut gs p role
assert_may_assign_role_iff gs p role = (may_hand_out gs p role, assigned gs p role)
