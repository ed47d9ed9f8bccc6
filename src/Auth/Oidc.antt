-- ===== src/Auth/Oidc.antt =====
-- src/ansina/auth/oidc_login.py: a login by an identity provider, from the state that `start_login`
-- keeps to the user that `complete_login` provisions. The exchange with the provider (oidc.py: the
-- discovery, the redeemed code, the validated token) is a parameter that gives the token's claims
-- for a code, a verifier and a nonce. Random texts and ids are arguments.
pub mod Once
pub mod Provision
use ansina.Prelude.{
  ℕ, ◌+◌, String, Option, none, some, List, [], ◌∷◌, ◌++◌, Bool, true, false, not, ◌&&◌, ◌||◌, leb,
  ◌==◌, str_eq, if◌then◌else◌, keep, Result, ok, err,
}
use ansina.Clock.{iso}
use ansina.Auth.Directory.{User, Directory, DirectoryError, get_user}
use ansina.Auth.RoleSync.{Claim, Claims, RoleMapping, get_claim, sync_mapped_roles}

pub record LoginState : Type 0 where
  pub state : String
  pub nonce : String
  pub code_verifier : String
  pub expires_at : ℕ

pub record ExternalIdentity : Type 0 where
  pub user_id : ℕ
  pub provider : String
  pub subject : String

pub record Oidc : Type 0 where
  pub states : List LoginState
  pub identities : List ExternalIdentity
  pub directory : Directory

pub data OidcError : Type 0 where
  state_invalid exchange_failed token_invalid provisioning_refused unknown_user : OidcError

unfoldable pub find_state : String → List LoginState → Option LoginState
find_state s [] = none
find_state s (r ∷ rs) = let rest = find_state s rs in if str_eq r.state s then some r else rest

-- `OidcLoginStateRepository.take`, with the rows that are left.
unfoldable pub take : String → ℕ → List LoginState → Option LoginState × List LoginState
unfolding find_state keep
take s now states = elim (find_state s states) [
  | none ↦ (none, states)
  | some r ↦
      (if leb r.expires_at now then none else some r, keep (λ q. not (str_eq q.state s)) states)
]

-- `OidcLoginStateRepository.delete_expired`
unfoldable pub delete_expired : ℕ → List LoginState → List LoginState
unfolding keep
delete_expired now = keep (λ r. not (leb r.expires_at now))

unfoldable pub get_by_provider_subject :
    String → String → List ExternalIdentity → Option ExternalIdentity
get_by_provider_subject provider subject [] = none
get_by_provider_subject provider subject (i ∷ is) =
    let rest = get_by_provider_subject provider subject is in
    if str_eq i.provider provider && str_eq i.subject subject then some i else rest

unfoldable pub get_by_username : String → List User → Option User
get_by_username name [] = none
get_by_username name (u ∷ us) =
    let rest = get_by_username name us in if str_eq u.username name then some u else rest

-- `is_bootstrap_identity` of bootstrap.py.
unfoldable pub is_bootstrap_identity : ℕ → List ExternalIdentity → Bool
unfolding get_by_provider_subject
is_bootstrap_identity id is =
    elim (get_by_provider_subject "local-bootstrap" "bootstrap-admin" is) [
      | none ↦ false
      | some i ↦ i.user_id == id
    ]

-- The text of a claim, unless it is empty.
abbrev pub non_empty : Option Claim → Option String
non_empty (some (Claim.text s)) = if str_eq s "" then none else some s
non_empty _ = none

abbrev first_of : Option String → Option String → String → String
first_of (some a) b c = a
first_of none (some b) c = b
first_of none none c = c

-- `_derive_username`
unfoldable pub derive_username : Claims → String → String
unfolding get_claim
derive_username claims subject =
    first_of (non_empty (get_claim "preferred_username" claims))
      (non_empty (get_claim "email" claims)) subject

-- The settings, the exchange with the provider and the mappings.
pub record OidcPort : Type 0 where
  pub issuer : String
  pub state_ttl : ℕ
  pub exchange : String → String → String → Result OidcError Claims
  pub mappings : List RoleMapping

abbrev pub link : ℕ → String → String → Oidc → Oidc
link id provider subject o = record o {
  identities = o.identities ++ record { user_id = id; provider = provider; subject = subject } ∷ [];
}

abbrev pub add_user : ℕ → String → Oidc → Oidc
add_user id username o = record o {
  directory = record o.directory {
    users =
        o.directory.users
        ++ record { id = id; username = username; active = true; deleted = false } ∷ [];
  };
}

module _ (port : OidcPort) where
  -- `start_login`, once the provider has been discovered.
  unfoldable pub start_login : String → String → String → ℕ → Oidc → Oidc
  unfolding delete_expired
  start_login state nonce verifier now o = record o {
    states =
        delete_expired (iso now) o.states
        ++ record {
          state = state;
          nonce = nonce;
          code_verifier = verifier;
          expires_at = iso (now + port.state_ttl);
        }
          ∷ [];
  }

  abbrev pub returning : Option User → Oidc → Result OidcError (ℕ × Oidc)
  returning none o = err provisioning_refused
  returning (some u) o =
      if u.deleted || not u.active then err provisioning_refused else ok (u.id, o)

  abbrev pub linking : ℕ → String → String → Option User → Oidc → Result OidcError (ℕ × Oidc)
  linking fresh username subject (some u) o =
      if u.deleted || not u.active || is_bootstrap_identity u.id o.identities
      then err provisioning_refused
      else ok (u.id, link u.id port.issuer subject o)
  linking fresh username subject none o =
      ok (fresh, link fresh port.issuer subject (add_user fresh username o))

  unfoldable pub provision_user : ℕ → String → Claims → Oidc → Result OidcError (ℕ × Oidc)
  unfolding get_by_provider_subject get_by_username is_bootstrap_identity derive_username get_user
  provision_user fresh subject claims o =
      elim (get_by_provider_subject port.issuer subject o.identities) [
        | some i ↦ returning (get_user i.user_id o.directory.users) o
        | none ↦
            let username = derive_username claims subject in
            linking fresh username subject (get_by_username username o.directory.users) o
      ]

  abbrev pub synced : ℕ → Oidc → Result DirectoryError Directory → Result OidcError ℕ × Oidc
  synced u o (ok d) = (ok u, record o { directory = d })
  synced u o (err e) = (err unknown_user, o)

  abbrev pub provisioned : Oidc → Claims → Result OidcError (ℕ × Oidc) → Result OidcError ℕ × Oidc
  provisioned before claims (err e) = (err e, before)
  provisioned before claims (ok (u, o)) =
      synced u o (sync_mapped_roles port.mappings u port.issuer claims o.directory)

  abbrev pub verified : ℕ → Oidc → Result OidcError Claims → Result OidcError ℕ × Oidc
  verified fresh o (err e) = (err e, o)
  verified fresh o (ok claims) = elim (non_empty (get_claim "sub" claims)) [
    | none ↦ (err token_invalid, o)
    | some subject ↦ provisioned o claims (provision_user fresh subject claims o)
  ]

  -- The user's id is what stands for it here; `fresh` is the id that a new user gets.
  unfoldable pub complete_login : ℕ → String → String → ℕ → Oidc → Result OidcError ℕ × Oidc
  unfolding take provision_user sync_mapped_roles get_claim
  complete_login fresh code state now o =
      let (login_state, states) = take state (iso now) o.states in
      elim login_state [
        | none ↦ (err state_invalid, record o { states = states })
        | some r ↦
            verified fresh (record o { states = states })
              (port.exchange code r.code_verifier r.nonce)
      ]
