-- ===== src/Auth/Sudo.antt =====
-- `SudoService` of src/ansina/auth/sudo.py, over `SudoGrantRepository` and `SudoLockoutRepository`
-- of src/ansina/auth/repositories.py and the token hash of src/ansina/auth/hashing.py. SHA-256 is a
-- parameter. Lengths of time are microseconds; drawn ids, salts and tokens are arguments.
pub mod Grant
use Prim.Native.String.{◌++◌ as str_append}
use ansina.Prelude.{
  ℕ, ◌+◌, ◌-◌, String, Option, none, some, List, [], ◌∷◌, ◌++◌, Bool, true, false, not, ◌&&◌, ltb,
  leb, ◌==◌, str_eq, if◌then◌else◌, keep, Result, ok, err, map,
}
use ansina.Clock.{iso, parse_iso}

pub record SudoGrant : Type 0 where
  pub id : ℕ
  pub user_id : ℕ
  pub hash : String
  pub salt : String
  pub verifier : String
  pub issued_at : ℕ
  pub expires_at : ℕ
  pub revoked_at : Option ℕ

pub record SudoLockout : Type 0 where
  pub user_id : ℕ
  pub failed_count : ℕ
  pub first_failed_at : Option ℕ
  pub locked_until : Option ℕ

-- The two tables.
pub record Sudo : Type 0 where
  pub grants : List SudoGrant
  pub lockouts : List SudoLockout

pub record SudoSettings : Type 0 where
  pub ttl : ℕ
  pub max_failed_attempts : ℕ
  pub attempt_window : ℕ
  pub lockout : ℕ

-- A verifier that the caller is enrolled in, and whether it accepts what was sent.
pub record Factor : Type 0 where
  pub name : String
  pub accepts : Bool

pub record IssuedGrant : Type 0 where
  pub token : String
  pub grant_id : ℕ
  pub verifier : String
  pub expires_at : ℕ

-- The seconds to wait, or the names of the factors that the caller has.
pub data StepUpError : Type 0 where
  sudo_locked_out : ℕ → StepUpError
  step_up_unavailable : List String → StepUpError

unfoldable pub get_lockout : ℕ → List SudoLockout → Option SudoLockout
get_lockout user [] = none
get_lockout user (l ∷ ls) =
    let rest = get_lockout user ls in if l.user_id == user then some l else rest

unfoldable pub set_lockout : SudoLockout → List SudoLockout → List SudoLockout
set_lockout x [] = x ∷ []
set_lockout x (l ∷ ls) =
    let rest = set_lockout x ls in if l.user_id == x.user_id then x ∷ ls else l ∷ rest

unfoldable pub clear_lockout : ℕ → List SudoLockout → List SudoLockout
unfolding keep
clear_lockout user = keep (λ l. not (l.user_id == user))

-- `_active_lockout`, by the time that is left.
unfoldable pub active_lockout : Option SudoLockout → ℕ → Option ℕ
active_lockout none now = none
active_lockout (some l) now = elim l.locked_until [
  | none ↦ none
  | some until ↦ if ltb now (parse_iso until) then some (parse_iso until - now) else none
]

abbrev names : List Factor → List String
names [] = []
names (f ∷ fs) = f.name ∷ names fs

unfoldable pub named : String → List Factor → Option Factor
named name [] = none
named name (f ∷ fs) = let rest = named name fs in if str_eq f.name name then some f else rest

-- The one factor of a caller that names none.
abbrev pub only : List Factor → Option Factor
only [] = none
only (f ∷ []) = some f
only (f ∷ g ∷ fs) = none

-- The factor that is meant, by name or as the only one.
unfoldable pub meant : Option String → List Factor → Option Factor
unfolding named
meant none factors = only factors
meant (some name) factors = if str_eq name "" then only factors else named name factors

abbrev or_unavailable : List Factor → Option Factor → Result StepUpError Factor
or_unavailable factors none = err (step_up_unavailable (names factors))
or_unavailable factors (some f) = ok f

-- `_resolve_factor`; `none` is a payload without a factor's name.
unfoldable pub resolve_factor : Option String → List Factor → Result StepUpError Factor
unfolding meant
resolve_factor requested factors = or_unavailable factors (meant requested factors)

abbrev first_of : ℕ → Option SudoLockout → ℕ
first_of now none = now
first_of now (some l) = elim l.first_failed_at [ none ↦ now | some first ↦ parse_iso first ]

abbrev count_of : Option SudoLockout → ℕ
count_of none = 0
count_of (some l) = l.failed_count

-- `DELETE FROM sudo_grants WHERE user_id = ?`
abbrev pub without_user : ℕ → List SudoGrant → List SudoGrant
without_user user [] = []
without_user user (g ∷ gs) =
    let rest = without_user user gs in if g.user_id == user then rest else g ∷ rest

abbrev is_live : ℕ → ℕ → SudoGrant → Bool
is_live user now g =
    g.user_id == user && elim g.revoked_at [ none ↦ true | some at ↦ false ] && ltb now g.expires_at

-- The row that `find_active` selects.
unfoldable pub live : ℕ → ℕ → List SudoGrant → Option SudoGrant
live user now [] = none
live user now (g ∷ gs) = let rest = live user now gs in if is_live user now g then some g else rest

abbrev revoke : ℕ → SudoGrant → SudoGrant
revoke now g = elim g.revoked_at [ none ↦ record g { revoked_at = some now } | some at ↦ g ]

unfoldable pub revoke_for_user : ℕ → ℕ → Sudo → Sudo
revoke_for_user now user s = record s {
  grants = map (λ g. if g.user_id == user then revoke (iso now) g else g) s.grants;
}

unfoldable pub revoke_all : ℕ → Sudo → Sudo
revoke_all now s = record s { grants = map (λ g. revoke (iso now) g) s.grants }

module _ (sha256 : String → String) (c : SudoSettings) where
  abbrev pub hash_token : String → String → String
  hash_token token salt = sha256 (str_append salt token)

  abbrev verify_token_hash : String → Option SudoGrant → Option SudoGrant
  verify_token_hash token none = none
  verify_token_hash token (some g) =
      if str_eq (hash_token token g.salt) g.hash then some g else none

  -- `resolve`, by `find_active`.
  unfoldable pub resolve : ℕ → ℕ → String → Sudo → Option SudoGrant
  unfolding live
  resolve now user token s = verify_token_hash token (live user (iso now) s.grants)

  -- `_record_failure`
  unfoldable pub record_failure : ℕ → ℕ → List SudoLockout → List SudoLockout
  unfolding get_lockout set_lockout
  record_failure now user t =
      let current = get_lockout user t in
      let stale = ltb c.attempt_window (now - first_of now current) in
      let failed_count = if stale then 1 else count_of current + 1 in
      set_lockout
        (record {
          user_id = user;
          failed_count = failed_count;
          first_failed_at = some (iso (if stale then now else first_of now current));
          locked_until =
              if leb c.max_failed_attempts failed_count then some (iso (now + c.lockout)) else none;
        })
        t

  -- `SudoGrantRepository.create`
  abbrev pub new_grant : ℕ → String → String → ℕ → ℕ → String → SudoGrant
  new_grant id salt token now user verifier = record {
    id = id;
    user_id = user;
    hash = hash_token token salt;
    salt = salt;
    verifier = verifier;
    issued_at = iso now;
    expires_at = iso (now + c.ttl);
    revoked_at = none;
  }

  abbrev verified :
      ℕ → String → String → ℕ → ℕ → Factor → Sudo → Result StepUpError (Option IssuedGrant) × Sudo
  verified id salt token now user f s =
      if f.accepts
      then (
        ok (
            some (record {
              token = token;
              grant_id = id;
              verifier = f.name;
              expires_at = iso (now + c.ttl);
            })),
        record {
          grants = without_user user s.grants ++ new_grant id salt token now user f.name ∷ [];
          lockouts = clear_lockout user s.lockouts;
        },
      )
      else (ok none, record s { lockouts = record_failure now user s.lockouts })

  abbrev resolved :
      ℕ
      → String
      → String
      → ℕ
      → ℕ
      → Result StepUpError Factor
      → Sudo
      → Result StepUpError (Option IssuedGrant) × Sudo
  resolved id salt token now user (err e) s = (err e, s)
  resolved id salt token now user (ok f) s = verified id salt token now user f s

  abbrev unless_locked :
      ℕ
      → String
      → String
      → ℕ
      → ℕ
      → Option String
      → List Factor
      → Option ℕ
      → Sudo
      → Result StepUpError (Option IssuedGrant) × Sudo
  unless_locked id salt token now user requested factors (some wait) s =
      (err (sudo_locked_out wait), s)
  unless_locked id salt token now user requested factors none s =
      resolved id salt token now user (resolve_factor requested factors) s

  -- `step_up`; `ok none` is the return of `None` for what the verifier did not accept.
  unfoldable pub step_up :
      ℕ
      → String
      → String
      → ℕ
      → ℕ
      → Option String
      → List Factor
      → Sudo
      → Result StepUpError (Option IssuedGrant) × Sudo
  unfolding get_lockout active_lockout resolve_factor clear_lockout record_failure
  step_up id salt token now user requested factors s =
      unless_locked id salt token now user requested factors
        (active_lockout (get_lockout user s.lockouts) now) s
