-- ===== src/Tests/Access.antt =====
-- The reconciliation and the authorization of src/ansina/auth at concrete inputs.
use ansina.Prelude.{
  ◌+◌, ◌<◌, String, ◌≡◌, refl, ℕ, some, List, [], ◌∷◌, true, false, inl, inr, arith, if◌then◌else◌,
}
use ansina.Auth.Policy.{Verb, RoleSlug}
use ansina.Auth.Grants.{
  is_admin, grant_eq, Grants, Resource, reconcile_builtin_roles, authorize, sudo_required,
  forbidden,
}
use ansina.Auth.Grants.Boot.{at_role, authorize-reconcile_builtin_roles, policy_grants}
use ansina.Auth.Throttle.{Attempt, get, LoginSettings, check}
use ansina.Auth.Throttle.Locks.{fail_all, failed_row, check-failures}

abbrev roles : List (ℕ × RoleSlug)
roles = (1, RoleSlug.read) ∷ (3, RoleSlug.maintain) ∷ []

abbrev catalogue : List Resource
catalogue =
    record { name = "auth.users"; serves = λ v. true }
    ∷ record { name = "ticks"; serves = λ v. true }
    ∷ []

-- A stale grant of a builtin role, and the grant of a custom one.
abbrev before : Grants
before = at_role 1 "auth.users" Verb.delete ∷ at_role 9 "ticks" Verb.get ∷ []

authorize-reconcile_builtin_roles_example :
    authorize
      (reconcile_builtin_roles roles catalogue before)
      (record { role_ids = 3 ∷ []; role_slugs = "maintain" ∷ []; sudo_active = false })
      "auth.users"
      Verb.delete
      true
    ≡ (if policy_grants RoleSlug.maintain catalogue "auth.users" Verb.delete
        then some sudo_required
        else some forbidden)
unfolding is_admin
authorize-reconcile_builtin_roles_example =
    authorize-reconcile_builtin_roles roles catalogue before 3 RoleSlug.maintain ("maintain" ∷ [])
      false "auth.users" Verb.delete true ((omega arith, tt), (tt, tt)) (inr (inl (refl, refl)))

abbrev settings : LoginSettings
settings = record {
  attempt_window = 900000000;
  lockout = 600000000;
  max_failed_attempts_per_username = 2;
  max_failed_attempts_per_ip = 20;
}

abbrev same_case : String → String
same_case name = name

check-failures_example :
    (wait : ℕ) × (check same_case settings 1000150000000 "root" "10.0.0.3" (
        fail_all same_case settings "root"
          ((1000000000000, "10.0.0.1") ∷ (1000100000000, "10.0.0.2") ∷ [])
          [])
      ≡ some wait)
    × (1000100000000 + 600000000 < 1000150000000 + wait + 1000)
unfolding get
check-failures_example =
    check-failures same_case settings 1000000000000 1000150000000 "root" "10.0.0.1" "10.0.0.3"
      ((1000100000000, "10.0.0.2") ∷ []) [] refl (omega arith, omega arith, omega arith, tt)
      (omega arith) (omega arith)

abbrev locked_row : Attempt
locked_row = failed_row same_case settings "root" 1000000000000 1000100000000 2
