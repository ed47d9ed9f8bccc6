-- ===== src/Tests/Oidc.antt =====
-- Logins by an identity provider at concrete inputs.
use ansina.Prelude.{◌≡◌, refl, some, [], ◌∷◌, ok, err, true, false, str_eq, if◌then◌else◌}
use ansina.Auth.Directory.Any.{any}
use ansina.Auth.Directory.{Directory}
use ansina.Auth.RoleSync.{Claim, Claims}
use ansina.Auth.Oidc.{Oidc, OidcError, OidcPort, complete_login}
use ansina.Auth.Oidc.Once.{Step, steps, complete_login-once}
use ansina.Auth.Oidc.Provision.{Outcome, complete_login-Outcome}

abbrev claims : Claims
claims =
    ("sub", Claim.text "u-17")
    ∷ ("preferred_username", Claim.text "")
    ∷ ("email", Claim.text "ada@example.org")
    ∷ ("groups", Claim.texts (some "ops" ∷ []))
    ∷ []

abbrev port : OidcPort
port = record {
  issuer = "https://idp";
  state_ttl = 600000000;
  exchange =
      λ code verifier nonce. if str_eq nonce "n" then ok claims else err OidcError.exchange_failed;
  mappings = record { provider = "https://idp"; claim = "groups"; value = "ops"; role_id = 7 } ∷ [];
}

abbrev office : Directory
office = record {
  users = record { id = 1; username = "ada@example.org"; active = true; deleted = false } ∷ [];
  groups = [];
  memberships = [];
  assignments = [];
  roles = record { id = 7; slug = "admin" } ∷ [];
}

abbrev waiting : Oidc
waiting = record {
  states = record { state = "s"; nonce = "n"; code_verifier = "v"; expires_at = 1000000 } ∷ [];
  identities = [];
  directory = office;
}

linked_by_email : (complete_login port 9 "c" "s" 5000000 waiting).0 ≡ ok 1
unfolding complete_login any
linked_by_email = refl

complete_login-Outcome_example :
    Outcome port "s" "c" 5000000 waiting
      (complete_login port 9 "c" "s" 5000000 waiting).0
      (complete_login port 9 "c" "s" 5000000 waiting).1
complete_login-Outcome_example = complete_login-Outcome port 9 "c" "s" 5000000 waiting

complete_login-once_example :
    complete_login port 11 "d" "s" 8000000 (
      steps port
        (Step.begin "t" "m" "w" 6000000 ∷ Step.finish 10 "c" "s" 7000000 ∷ [])
        (complete_login port 9 "c" "s" 5000000 waiting).1)
    ≡ (
      err OidcError.state_invalid,
      steps port
          (Step.begin "t" "m" "w" 6000000 ∷ Step.finish 10 "c" "s" 7000000 ∷ [])
          (complete_login port 9 "c" "s" 5000000 waiting).1,
    )
complete_login-once_example =
    complete_login-once port 9 11 "c" "d" "s" 5000000 8000000 waiting
      (Step.begin "t" "m" "w" 6000000 ∷ Step.finish 10 "c" "s" 7000000 ∷ []) (refl, tt)
