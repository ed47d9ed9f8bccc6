-- ===== src/Auth/Totp/Replay.antt =====
-- No step is accepted twice, and what a code that is not ASCII does.

use ansina.Prelude.{
  ℕ, ◌+◌, ◌≤◌, ◌≡◌, ◌⊎◌, refl, Option, none, some, List, [], ◌∷◌, ◌++◌, Bool, true, false, arith,
  Result, ok, err, inl, inr,
}
use ansina.Auth.Totp.{
  is_ascii, CodeError, not_ascii, step_index, is_replay, find_valid_step, verify, accepted,
}
use ansina.Auth.Totp.Window.{find_valid_step-Matches, find_valid_step-odd}

module _ (hmac_sha1 : ℕ → List ℕ) (digits : ℕ) where
  -- The calls of `verify` one after the other; the result has the steps that were accepted.
  abbrev step_of : Result CodeError Bool × Option ℕ → List ℕ
  step_of (ok true, some step) = step ∷ []
  step_of _ = []

  accepted-cases :
      (at : ℕ) (code : List ℕ) (floor : Option ℕ) (r : Result CodeError (Option ℕ))
      → find_valid_step hmac_sha1 digits at 30 1 floor code ≡ r
      → let r = accepted hmac_sha1 digits floor r in
        ((step_of r ≡ []) × (r.1 ≡ floor))
        ⊎ ((step : ℕ) × (step_of r ≡ step ∷ [])
            × (r.1 ≡ some step)
            × (is_replay floor step ≡ false))
  accepted-cases at code floor (err e) h = inl (refl, refl)
  accepted-cases at code floor (ok none) h = inl (refl, refl)
  accepted-cases at code floor (ok (some step)) h = inr (
    step,
    refl,
    refl,
    (find_valid_step-Matches hmac_sha1 digits at 30 1 floor code step h).unused,
  )

  verify-cases :
      (at : ℕ) (code : List ℕ) (floor : Option ℕ)
      → let r = verify hmac_sha1 digits at code floor in
        ((step_of r ≡ []) × (r.1 ≡ floor))
        ⊎ ((step : ℕ) × (step_of r ≡ step ∷ [])
            × (r.1 ≡ some step)
            × (is_replay floor step ≡ false))
  unfolding verify
  verify-cases at [] floor = inl (refl, refl)
  verify-cases at (x ∷ code) floor =
      accepted-cases at (x ∷ code) floor (find_valid_step hmac_sha1 digits at 30 1 floor (x ∷ code))
        refl

  pub verify_all : List (ℕ × List ℕ) → Option ℕ → List ℕ
  verify_all [] floor = []
  verify_all ((at, code) ∷ tries) floor =
      let r = verify hmac_sha1 digits at code floor in step_of r ++ verify_all tries r.1

  -- Each step is above the floor and above all the steps before it.
  abbrev pub Ascends : Option ℕ → List ℕ → Type 0
  Ascends floor [] = Unit
  Ascends floor (step ∷ steps) = (is_replay floor step ≡ false) × Ascends (some step) steps

  -- Whatever codes are tried at whatever times, each step that is accepted is later than every
  -- step accepted before it, and than the stored one.
  pub verify_all-Ascends :
      (tries : List (ℕ × List ℕ)) (floor : Option ℕ) → Ascends floor (verify_all tries floor)
  unfolding verify_all
  verify_all-Ascends [] floor = tt
  verify_all-Ascends ((at, code) ∷ tries) floor = elim (verify-cases at code floor) [
    | inl (nothing, same) ↦ rw (nothing, same) (verify_all-Ascends tries floor)
    | inr (step, taken, moved, unused) ↦
        rw (taken, moved) (unused, verify_all-Ascends tries (some step))
  ]

  -- From the second step of Unix time on, a code with a character that is not ASCII makes `verify`
  -- raise a `TypeError`, where the last step of the window is above the floor, and the floor stays
  -- as it was.
  pub verify-not_ascii :
      (at : ℕ) (code : List ℕ) (floor : Option ℕ)
      → is_ascii code ≡ false
      → 30 ≤ at
      → is_replay floor (step_index at 30 + 1) ≡ false
      → verify hmac_sha1 digits at code floor ≡ (err not_ascii, floor)
  unfolding verify
  verify-not_ascii at [] floor odd late unused = cc
  verify-not_ascii at (x ∷ code) floor odd late unused =
      rw (find_valid_step-odd hmac_sha1 digits at 30 1 floor (x ∷ code) odd (omega arith) unused)
        refl
