-- ===== src/Auth/Throttle/Locks.antt =====
-- When the login throttle locks a bucket, and when it opens it.

use ansina.Prelude.{
  ℕ, suc, ◌+◌, ◌-◌, ◌≤◌, ◌<◌, ◌≡◌, ◌∙◌, refl, String, Option, none, some, List, [], ◌∷◌, false,
  ◌&&◌, arith, length, leb, if◌then◌else◌, Bool-cases, inl, inr, str_eq,
}
use ansina.Clock.{iso, parse_iso}
use ansina.Auth.Throttle.{
  Scope, username, ip, Attempt, get, clear, scope_eq, remaining, delete_expired, LoginSettings,
  check, bump, record_failure, record_success, remaining_lock, longer, streak,
}
use ansina.Auth.Throttle.Rows.{
  get-set, get-set_other, get-clear, get-clear_other, get-keep-none, get-keep-some,
}

-- The longer of two locks is no shorter than the first.
longer-left : (a : ℕ) (b : Option ℕ) → (wait : ℕ) × (longer (some a) b ≡ some wait) × (a ≤ wait)
unfolding longer
longer-left a none = (a, refl, omega arith)
longer-left a (some b) = elim (Bool-cases (leb b a)) [
  | inl le ↦ (a, rw le refl, omega arith)
  | inr gt ↦ (b, rw gt refl, ground arith)
]

wait_for :
    (until late : ℕ) (b : Option ℕ)
    → late + 1000 ≤ until
    → (wait : ℕ) × (longer (some (parse_iso (iso until) - late)) b ≡ some wait)
      × (until < late + wait + 1000)
wait_for until late b before =
    let (wait, e, le) = longer-left (parse_iso (iso until) - late) b in (wait, e, omega arith)

module _ (casefold : String → String) (c : LoginSettings) where
  -- A successful login opens both of its buckets: a later check of the same name and address lets
  -- the caller through, whatever was recorded before.
  pub check-record_success :
      (now : ℕ) (name addr : String) (t : List Attempt)
      → check casefold c now name addr (record_success casefold c name addr t) ≡ none
  unfolding check record_success remaining_lock remaining longer
  check-record_success now name addr t =
      rw
        (
          get-clear_other username ip (casefold name) addr (clear username (casefold name) t) refl,
          get-clear username (casefold name) t,
          get-clear ip addr (clear username (casefold name) t),
        )
        refl

  -- A successful login leaves every bucket but its own two as it was.
  pub record_success-others :
      (s : Scope) (k name addr : String) (t : List Attempt)
      → (scope_eq s username && str_eq k (casefold name)) ≡ false
      → (scope_eq s ip && str_eq k addr) ≡ false
      → get s k (record_success casefold c name addr t) ≡ get s k t
  unfolding record_success
  record_success-others s k name addr t ne ne' =
      get-clear_other s ip k addr (clear username (casefold name) t) ne'
      ∙ get-clear_other s username k (casefold name) t ne

  -- One failed login after the other, from any addresses.
  pub fail_all : String → List (ℕ × String) → List Attempt → List Attempt
  fail_all name [] t = t
  fail_all name ((now, addr) ∷ fs) t = fail_all name fs (record_failure casefold c now name addr t)

  -- The failures come in order, within the window that starts with the first one, less the
  -- millisecond that the texts of instants cut off.
  abbrev pub Within : ℕ → ℕ → List (ℕ × String) → Type 0
  Within first last [] = Unit
  Within first last ((now, addr) ∷ fs) =
      (last ≤ now)
      × (c.attempt_window ≤ now)
      × (now + 1000 ≤ first + c.attempt_window)
      × Within first now fs

  abbrev pub last_of : ℕ → List (ℕ × String) → ℕ
  last_of last [] = last
  last_of last ((now, addr) ∷ fs) = last_of now fs

  -- The row of a name that has failed this often.
  abbrev pub failed_row : String → ℕ → ℕ → ℕ → Attempt
  failed_row key first last n = record {
    scope = username;
    key = key;
    failed_count = n;
    first_failed_at = some (iso first);
    locked_until =
        if leb c.max_failed_attempts_per_username n then some (iso (last + c.lockout)) else none;
  }

  in_window :
      (first now : ℕ)
      → c.attempt_window ≤ now
      → now + 1000 ≤ first + c.attempt_window
      → iso (now - c.attempt_window) < iso first
  in_window first now early w = omega arith

  failed_row-kept :
      (first last now n : ℕ) (key : String) (t : List Attempt)
      → c.attempt_window ≤ now
      → now + 1000 ≤ first + c.attempt_window
      → get username key t ≡ some (failed_row key first last n)
      → get username key (delete_expired (iso now) (iso (now - c.attempt_window)) t)
        ≡ some (failed_row key first last n)
  unfolding delete_expired
  failed_row-kept first last now n key t early w e =
      let young = in_window first now early w in
      get-keep-some username key _ t (failed_row key first last n) e (ground arith)

  same_streak :
      (first now n : ℕ)
      → now + 1000 ≤ first + c.attempt_window
      → streak c.attempt_window now (some (iso first)) n ≡ (parse_iso (iso first), n + 1)
  unfolding streak
  same_streak first now n w = ground arith

  iso-parse_iso : (t : ℕ) → iso (parse_iso (iso t)) ≡ iso t
  iso-parse_iso t = omega arith

  bump-failed_row :
      (first last now n : ℕ) (key : String) (t : List Attempt)
      → c.attempt_window ≤ now
      → now + 1000 ≤ first + c.attempt_window
      → get username key t ≡ some (failed_row key first last n)
      → get username key (bump casefold c username key now c.max_failed_attempts_per_username t)
        ≡ some (failed_row key first now (n + 1))
  unfolding bump streak
  bump-failed_row first last now n key t early w e =
      rw (e, same_streak first now n w, iso-parse_iso first)
        (get-set (failed_row key first now (n + 1)) t)

  bump-fresh :
      (now : ℕ) (key : String) (t : List Attempt)
      → get username key t ≡ none
      → get username key (bump casefold c username key now c.max_failed_attempts_per_username t)
        ≡ some (failed_row key now now 1)
  unfolding bump streak
  bump-fresh now key t e = rw e (get-set (failed_row key now now 1) t)

  bump-other :
      (now max : ℕ) (key addr : String) (t : List Attempt)
      → get username key (bump casefold c ip addr now max t) ≡ get username key t
  unfolding bump
  bump-other now max key addr t = get-set_other username key _ t refl

  record_failure-failed_row :
      (first last now n : ℕ) (name addr : String) (t : List Attempt)
      → c.attempt_window ≤ now
      → now + 1000 ≤ first + c.attempt_window
      → get username (casefold name) t ≡ some (failed_row (casefold name) first last n)
      → get username (casefold name) (record_failure casefold c now name addr t)
        ≡ some (failed_row (casefold name) first now (n + 1))
  unfolding record_failure
  record_failure-failed_row first last now n name addr t early w e =
      bump-other now c.max_failed_attempts_per_ip (casefold name) addr _
      ∙ bump-failed_row first last now n (casefold name)
          (delete_expired (iso now) (iso (now - c.attempt_window)) t) early w
          (failed_row-kept first last now n (casefold name) t early w e)

  fresh-failed_row :
      (now : ℕ) (name addr : String) (t : List Attempt)
      → get username (casefold name) t ≡ none
      → get username (casefold name) (record_failure casefold c now name addr t)
        ≡ some (failed_row (casefold name) now now 1)
  unfolding record_failure
  fresh-failed_row now name addr t e =
      bump-other now c.max_failed_attempts_per_ip (casefold name) addr _
      ∙ bump-fresh now (casefold name) (delete_expired (iso now) (iso (now - c.attempt_window)) t)
          (get-keep-none username (casefold name) _ t e)

  fail_all-failed_row :
      (fs : List (ℕ × String)) (first last n : ℕ) (name : String) (t : List Attempt)
      → Within first last fs
      → get username (casefold name) t ≡ some (failed_row (casefold name) first last n)
      → get username (casefold name) (fail_all name fs t)
        ≡ some (failed_row (casefold name) first (last_of last fs) (n + length fs))
  unfolding fail_all
  fail_all-failed_row [] first last n name t w e = let same : n + 0 ≡ n = omega arith in rw same e
  fail_all-failed_row ((now, addr) ∷ fs) first last n name t (o, early, w, rest) e =
      let step = record_failure-failed_row first last now n name addr t early w e in
      let more =
        fail_all-failed_row fs first now (n + 1) name (record_failure casefold c now name addr t)
          rest step in
      let same : n + suc (length fs) ≡ n + 1 + length fs = omega arith in rw same more

  -- Let a name that has no failures on record fail to log in some number of times, from any
  -- addresses, all of them within a window of the first, less the millisecond that is cut off. Then
  -- its bucket holds that number and the instant of the first failure, and it is locked, for
  -- `lockout` from the last failure, exactly when the number has reached the limit for a name.
  pub failures-failed_row :
      (now : ℕ) (name addr : String) (fs : List (ℕ × String)) (t : List Attempt)
      → get username (casefold name) t ≡ none
      → Within now now fs
      → get username (casefold name) (fail_all name ((now, addr) ∷ fs) t)
        ≡ some (failed_row (casefold name) now (last_of now fs) (1 + length fs))
  unfolding fail_all
  failures-failed_row now name addr fs t e w =
      fail_all-failed_row fs now now 1 name (record_failure casefold c now name addr t) w
        (fresh-failed_row now name addr t e)

  remaining_lock-failed_row :
      (key : String) (first last n late : ℕ)
      → c.max_failed_attempts_per_username ≤ n
      → late + 1000 ≤ last + c.lockout
      → remaining_lock late (some (failed_row key first last n))
        ≡ some (parse_iso (iso (last + c.lockout)) - late)
  unfolding remaining_lock remaining
  remaining_lock-failed_row key first last n late limit before = ground arith

  -- Let a name that has no failures on record fail to log in some number of times, from any
  -- addresses, all of them within a window of the first, less the millisecond that is cut off.
  -- Once the number has reached the limit for a name, a check of it is refused from every address,
  -- until the lockout after the last failure is over, to a millisecond; the time to wait that it
  -- reports is never short by a millisecond.
  pub check-failures :
      (now late : ℕ) (name addr from_addr : String) (fs : List (ℕ × String)) (t : List Attempt)
      → get username (casefold name) t ≡ none
      → Within now now fs
      → c.max_failed_attempts_per_username ≤ 1 + length fs
      → late + 1000 ≤ last_of now fs + c.lockout
      → (wait : ℕ) × (check casefold c late name from_addr (fail_all name ((now, addr) ∷ fs) t)
          ≡ some wait)
        × (last_of now fs + c.lockout < late + wait + 1000)
  unfolding check
  check-failures now late name addr from_addr fs t e w limit before =
      rw
        (
          failures-failed_row now name addr fs t e w,
          remaining_lock-failed_row (casefold name) now (last_of now fs) (1 + length fs) late limit
              before,
        )
        (wait_for (last_of now fs + c.lockout) late _ before)
