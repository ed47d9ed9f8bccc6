-- ===== src/Auth/Totp.antt =====
-- src/ansina/auth/totp.py, and `TotpStepUpVerifier.verify` of src/ansina/auth/step_up.py. HMAC-SHA1
-- with the user's secret is a parameter, from a counter to the 20 bytes of the digest. A code is a
-- list of code points. Steps are Unix seconds over `step_seconds`, below 2 ^ 64.
pub mod Window
pub mod Replay
use ansina.Prelude.{
  ℕ, zero, suc, ◌+◌, ◌-◌, ◌*◌, ◌/◌, ◌%◌, Option, none, some, List, [], ◌∷◌, ◌++◌, Bool, true, false,
  ◌&&◌, ltb, leb, ◌==◌, if◌then◌else◌, Result, ok, err,
}

abbrev last_byte : List ℕ → ℕ
last_byte [] = 0
last_byte (b ∷ []) = b
last_byte (b ∷ d ∷ ds) = last_byte (d ∷ ds)

abbrev drop : ℕ → List ℕ → List ℕ
drop zero bs = bs
drop (suc n) [] = []
drop (suc n) (b ∷ bs) = drop n bs

-- `int.from_bytes(mac[:4], "big")`
abbrev four_bytes : List ℕ → ℕ
four_bytes (a ∷ b ∷ d ∷ e ∷ bs) = ((a * 256 + b) * 256 + d) * 256 + e
four_bytes _ = 0

abbrev power_of_ten : ℕ → ℕ
power_of_ten zero = 1
power_of_ten (suc n) = 10 * power_of_ten n

-- `str(n).zfill(digits)` of a number below `10 ** digits`.
abbrev zfill : ℕ → ℕ → List ℕ
zfill zero n = []
zfill (suc digits) n = zfill digits (n / 10) ++ (48 + n % 10) ∷ []

abbrev pub same_code : List ℕ → List ℕ → Bool
same_code [] [] = true
same_code (x ∷ xs) (y ∷ ys) = x == y && same_code xs ys
same_code _ _ = false

abbrev pub is_ascii : List ℕ → Bool
is_ascii [] = true
is_ascii (x ∷ xs) = ltb x 128 && is_ascii xs

-- `hmac.compare_digest` of two strings raises a `TypeError` where one is not ASCII, and
-- `struct.pack` refuses a negative counter.
pub data CodeError : Type 0 where
  not_ascii negative_counter : CodeError

abbrev pub compare_digest : List ℕ → List ℕ → Result CodeError Bool
compare_digest candidate code =
    if is_ascii candidate && is_ascii code then ok (same_code candidate code) else err not_ascii

abbrev pub step_index : ℕ → ℕ → ℕ
step_index at step_seconds = at / step_seconds

-- `not_before_step is not None and candidate_step <= not_before_step`
abbrev pub is_replay : Option ℕ → ℕ → Bool
is_replay none step = false
is_replay (some floor) step = leb step floor

abbrev pub skip_negative : Option ℕ → Result CodeError (Option ℕ) → Result CodeError (Option ℕ)
skip_negative none rest = err negative_counter
skip_negative (some floor) rest = rest

abbrev pub or_next :
    ℕ → Result CodeError Bool → Result CodeError (Option ℕ) → Result CodeError (Option ℕ)
or_next step (err e) rest = err e
or_next step (ok true) rest = ok (some step)
or_next step (ok false) rest = rest

module _ (hmac_sha1 : ℕ → List ℕ) (digits : ℕ) where
  unfoldable pub hotp : ℕ → List ℕ
  hotp counter =
      let mac = hmac_sha1 counter in
      let truncated = four_bytes (drop (last_byte mac % 16) mac) in
      zfill digits (truncated % 2147483648 % power_of_ten digits)

  -- The loop of `find_valid_step` over `n` more candidates, the first of them `pos - window`.
  unfoldable pub find_from : ℕ → ℕ → ℕ → Option ℕ → List ℕ → Result CodeError (Option ℕ)
  unfolding hotp
  find_from zero pos window floor code = ok none
  find_from (suc n) pos window floor code =
      let rest = find_from n (pos + 1) window floor code in
      if ltb pos window
      then skip_negative floor rest
      else if is_replay floor (pos - window)
      then rest
      else or_next (pos - window) (compare_digest (hotp (pos - window)) code) rest

  unfoldable pub find_valid_step : ℕ → ℕ → ℕ → Option ℕ → List ℕ → Result CodeError (Option ℕ)
  unfolding find_from
  find_valid_step at step_seconds window floor code =
      find_from (2 * window + 1) (step_index at step_seconds) window floor code

  -- `verify` of a credential that decrypts: the reply, and the credential's `last_used_at`.
  abbrev pub accepted : Option ℕ → Result CodeError (Option ℕ) → Result CodeError Bool × Option ℕ
  accepted floor (err e) = (err e, floor)
  accepted floor (ok none) = (ok false, floor)
  accepted floor (ok (some step)) = (ok true, some step)

  abbrev is_empty : List ℕ → Bool
  is_empty [] = true
  is_empty (x ∷ xs) = false

  unfoldable pub verify : ℕ → List ℕ → Option ℕ → Result CodeError Bool × Option ℕ
  unfolding find_valid_step
  verify at code floor =
      if is_empty code
      then (ok false, floor)
      else accepted floor (find_valid_step at 30 1 floor code)
