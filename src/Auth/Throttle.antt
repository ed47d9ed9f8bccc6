-- ===== src/Auth/Throttle.antt =====
-- src/ansina/auth/login_throttle.py, over `LoginAttemptRepository` of
-- src/ansina/auth/repositories.py. `casefold` is Python's. Lengths of time are microseconds, and a
-- clock reading is assumed to lie more than a window after the first datetime.
pub mod Rows
pub mod Locks
use ansina.Prelude.{
  ℕ, ◌+◌, ◌-◌, String, Option, none, some, List, [], ◌∷◌, Bool, true, false, not, ◌&&◌, ltb, leb,
  str_eq, if◌then◌else◌, keep,
}
use ansina.Clock.{iso, parse_iso}

pub data Scope : Type 0 where
  username ip : Scope

-- A row of `login_attempts`.
pub record Attempt : Type 0 where
  pub scope : Scope
  pub key : String
  pub failed_count : ℕ
  pub first_failed_at : Option ℕ
  pub locked_until : Option ℕ

abbrev pub scope_eq : Scope → Scope → Bool
scope_eq username username = true
scope_eq username ip = false
scope_eq ip username = false
scope_eq ip ip = true

abbrev pub is_row : Scope → String → Attempt → Bool
is_row s k a = scope_eq a.scope s && str_eq a.key k

unfoldable pub get : Scope → String → List Attempt → Option Attempt
get s k [] = none
get s k (a ∷ as') = let rest = get s k as' in if is_row s k a then some a else rest

-- `clear`
unfoldable pub clear : Scope → String → List Attempt → List Attempt
unfolding keep
clear s k = keep (λ a. not (is_row s k a))

-- `set`, an upsert.
unfoldable pub set : Attempt → List Attempt → List Attempt
set x [] = x ∷ []
set x (a ∷ as') = let rest = set x as' in if is_row x.scope x.key a then x ∷ as' else a ∷ rest

abbrev at_most : Option ℕ → ℕ → Bool
at_most none limit = true
at_most (some t) limit = leb t limit

-- `delete_expired`
unfoldable pub delete_expired : ℕ → ℕ → List Attempt → List Attempt
unfolding keep
delete_expired now before =
    keep (λ a. not (at_most a.locked_until now && at_most a.first_failed_at before))

pub record LoginSettings : Type 0 where
  pub attempt_window : ℕ
  pub lockout : ℕ
  pub max_failed_attempts_per_username : ℕ
  pub max_failed_attempts_per_ip : ℕ

abbrev lock_of : Option Attempt → Option ℕ
lock_of none = none
lock_of (some a) = a.locked_until

-- `_active`: the time left of a lock that is still on.
unfoldable pub remaining : ℕ → Option ℕ → Option ℕ
remaining now none = none
remaining now (some until) =
    if ltb now (parse_iso until) then some (parse_iso until - now) else none

unfoldable pub remaining_lock : ℕ → Option Attempt → Option ℕ
unfolding remaining
remaining_lock now a = remaining now (lock_of a)

-- The longer of the locks that are on.
unfoldable pub longer : Option ℕ → Option ℕ → Option ℕ
longer none b = b
longer (some a) none = some a
longer (some a) (some b) = some (if leb b a then a else b)

-- The streak of failures that `_bump` goes on with: its first failure and its count.
unfoldable pub streak : ℕ → ℕ → Option ℕ → ℕ → ℕ × ℕ
streak window now none count = (now, count + 1)
streak window now (some first) count =
    if ltb window (now - parse_iso first) then (now, 1) else (parse_iso first, count + 1)

abbrev pub first_of_row : Option Attempt → Option ℕ
first_of_row none = none
first_of_row (some a) = a.first_failed_at

abbrev pub count_of_row : Option Attempt → ℕ
count_of_row none = 0
count_of_row (some a) = a.failed_count

module _ (casefold : String → String) (c : LoginSettings) where
  -- `check`: the seconds to wait of `LoginThrottledError`, or `none` for the return.
  unfoldable pub check : ℕ → String → String → List Attempt → Option ℕ
  unfolding get remaining_lock longer
  check now name addr t =
      longer (remaining_lock now (get username (casefold name) t))
        (remaining_lock now (get ip addr t))

  unfoldable pub bump : Scope → String → ℕ → ℕ → List Attempt → List Attempt
  unfolding get set streak
  bump s k now max_failed_attempts t =
      let current = get s k t in
      let (first, count) =
        streak c.attempt_window now (first_of_row current) (count_of_row current) in
      set
        (record {
          scope = s;
          key = k;
          failed_count = count;
          first_failed_at = some (iso first);
          locked_until =
              if leb max_failed_attempts count then some (iso (now + c.lockout)) else none;
        })
        t

  unfoldable pub record_failure : ℕ → String → String → List Attempt → List Attempt
  unfolding delete_expired bump
  record_failure now name addr t = bump ip addr now c.max_failed_attempts_per_ip (
      bump username (casefold name) now c.max_failed_attempts_per_username
        (delete_expired (iso now) (iso (now - c.attempt_window)) t))

  unfoldable pub record_success : String → String → List Attempt → List Attempt
  unfolding clear
  record_success name addr t = clear ip addr (clear username (casefold name) t)
