-- ===== src/Auth/Totp/Window.antt =====
-- Which step a code is accepted for.
use native.Mathlib.Decide.{dec_le}
use ansina.Prelude.{
  ℕ, zero, suc, ◌+◌, ◌-◌, ◌*◌, ◌≤◌, ◌<◌, ◌≡◌, ◌⊎◌, ◌&&◌, refl, Option, none, some, List, true,
  false, arith, Result, ok, err, Bool-cases, inl, inr, ltb,
}
use ansina.Auth.Totp.{
  or_next, compare_digest, same_code, is_ascii, CodeError, not_ascii, step_index, is_replay, hotp,
  find_from, find_valid_step,
}

or_next-some :
    (step s : ℕ) (candidate code : List ℕ) (rest : Result CodeError (Option ℕ))
    → or_next step (compare_digest candidate code) rest ≡ ok (some s)
    → ((s ≡ step) × (same_code candidate code ≡ true)) ⊎ (rest ≡ ok (some s))
or_next-some step s candidate code rest e =
    elim (Bool-cases (is_ascii candidate && is_ascii code)) [
      | inl plain ↦ elim (Bool-cases (same_code candidate code)) [
        | inl hit ↦ inl (ground arith, hit)
        | inr miss ↦ inr (rw (plain, miss) at e)
      ]
      | inr odd ↦ let bad : err not_ascii ≡ ok (some s) = rw odd at e in cc
    ]

or_next-none :
    (step : ℕ) (candidate code : List ℕ) (rest : Result CodeError (Option ℕ))
    → or_next step (compare_digest candidate code) rest ≡ ok none
    → (same_code candidate code ≡ false) × (rest ≡ ok none)
or_next-none step candidate code rest e = elim (Bool-cases (is_ascii candidate && is_ascii code)) [
  | inl plain ↦ elim (Bool-cases (same_code candidate code)) [
    | inl hit ↦ let bad : ok (some step) ≡ ok none = rw (plain, hit) at e in cc
    | inr miss ↦ (miss, rw (plain, miss) at e)
  ]
  | inr odd ↦ let bad : err not_ascii ≡ ok none = rw odd at e in cc
]

module _ (hmac_sha1 : ℕ → List ℕ) (digits : ℕ) where
  -- The code is that of this step, which lies above the floor, between the two bounds.
  pub record Matches (low high : ℕ) (floor : Option ℕ) (code : List ℕ) (step : ℕ) : Type 0 where
    pub above : low ≤ step
    pub below : step < high
    pub unused : is_replay floor step ≡ false
    pub equal : same_code (hotp hmac_sha1 digits step) code ≡ true

  widen :
      (low low' high high' : ℕ) (floor : Option ℕ) (code : List ℕ) (step : ℕ)
      → low ≤ low'
      → high' ≤ high
      → Matches low' high' floor code step
      → Matches low high floor code step
  widen low low' high high' floor code step l h v = record {
    above = omega (arith, v.above);
    below = omega (arith, v.below);
    unused = v.unused;
    equal = v.equal;
  }

  find_from-Matches :
      (n pos window : ℕ) (floor : Option ℕ) (code : List ℕ) (step : ℕ)
      → find_from hmac_sha1 digits n pos window floor code ≡ ok (some step)
      → Matches (pos - window) (pos + n - window) floor code step
  unfolding find_from
  find_from-Matches zero pos window floor code step e = ground arith
  find_from-Matches (suc n) pos window floor code step e =
      let more : find_from hmac_sha1 digits n (pos + 1) window floor code ≡ ok (some step)
          → Matches (pos - window) (pos + suc n - window) floor code step =
        λ rest.
          widen (pos - window) (pos + 1 - window) (pos + suc n - window) (pos + 1 + n - window)
            floor code step (omega arith) (omega arith)
            (find_from-Matches n (pos + 1) window floor code step rest) in
      elim (Bool-cases (ltb pos window)) [
        | inl negative ↦ more (ground arith)
        | inr here ↦ elim (Bool-cases (is_replay floor (pos - window))) [
          | inl replay ↦ more (rw (here, replay) at e)
          | inr unused ↦
              elim (or_next-some (pos - window) step (hotp hmac_sha1 digits (pos - window)) code _
                (rw (here, unused) at e)) [
                  | inl (same, hit) ↦ record {
                    above = omega arith;
                    below = ground arith;
                    unused = rw same unused;
                    equal = rw same hit;
                  }
                  | inr rest ↦ more rest
                ]
        ]
      ]

  find_from-next_none :
      (n pos window : ℕ) (floor : Option ℕ) (code : List ℕ)
      → find_from hmac_sha1 digits (suc n) pos window floor code ≡ ok none
      → find_from hmac_sha1 digits n (pos + 1) window floor code ≡ ok none
  unfolding find_from
  find_from-next_none n pos window floor code e = elim (Bool-cases (ltb pos window)) [
    | inl negative ↦ ground arith
    | inr here ↦ elim (Bool-cases (is_replay floor (pos - window))) [
      | inl replay ↦ rw (here, replay) at e
      | inr unused ↦
          (or_next-none (pos - window) (hotp hmac_sha1 digits (pos - window)) code _
            (rw (here, unused) at e)).1
    ]
  ]

  find_from-first_none :
      (n pos window : ℕ) (floor : Option ℕ) (code : List ℕ)
      → find_from hmac_sha1 digits (suc n) pos window floor code ≡ ok none
      → window ≤ pos
      → is_replay floor (pos - window) ≡ false
      → same_code (hotp hmac_sha1 digits (pos - window)) code ≡ false
  unfolding find_from
  find_from-first_none n pos window floor code e here unused =
      let reached : ltb pos window ≡ false = ground arith in
      (or_next-none (pos - window) (hotp hmac_sha1 digits (pos - window)) code _
        (rw (reached, unused) at e)).0

  -- Within the window, no step above the floor has this code.
  find_from-none :
      (n pos window : ℕ) (floor : Option ℕ) (code : List ℕ) (step : ℕ)
      → find_from hmac_sha1 digits n pos window floor code ≡ ok none
      → pos ≤ step + window
      → step + window < pos + n
      → is_replay floor step ≡ false
      → same_code (hotp hmac_sha1 digits step) code ≡ false
  unfolding find_from
  find_from-none zero pos window floor code step e low high unused = absurd (omega arith)
  find_from-none (suc n) pos window floor code step e low high unused =
      elim (dec_le (pos + 1) (step + window)) [
        | yes later ↦
            find_from-none n (pos + 1) window floor code step
              (find_from-next_none n pos window floor code e) later (omega arith) unused
        | no first ↦
            let same : pos - window ≡ step = omega arith in
            let known =
              find_from-first_none n pos window floor code e (omega arith) (rw same unused) in
            rw same at known
      ]

  -- A code that is accepted is that of a step within `window` steps of the present one, above the
  -- floor.
  pub find_valid_step-Matches :
      (at step_seconds window : ℕ) (floor : Option ℕ) (code : List ℕ) (step : ℕ)
      → find_valid_step hmac_sha1 digits at step_seconds window floor code ≡ ok (some step)
      → Matches
          (step_index at step_seconds - window)
          (step_index at step_seconds + window + 1)
          floor
          code
          step
  unfolding find_valid_step
  find_valid_step-Matches at step_seconds window floor code step e =
      let now = step_index at step_seconds in
      widen (now - window) (now - window) (now + window + 1) (now + (2 * window + 1) - window) floor
        code step (omega arith) (omega arith)
        (find_from-Matches (2 * window + 1) now window floor code step e)

  -- A code that is not accepted is that of no step within `window` steps of the present one and
  -- above the floor.
  pub find_valid_step-none :
      (at step_seconds window : ℕ) (floor : Option ℕ) (code : List ℕ) (step : ℕ)
      → find_valid_step hmac_sha1 digits at step_seconds window floor code ≡ ok none
      → step_index at step_seconds ≤ step + window
      → step ≤ step_index at step_seconds + window
      → is_replay floor step ≡ false
      → same_code (hotp hmac_sha1 digits step) code ≡ false
  unfolding find_valid_step
  find_valid_step-none at step_seconds window floor code step e low high unused =
      find_from-none (2 * window + 1) (step_index at step_seconds) window floor code step e low
        (omega arith) unused

  -- What the answer says of the code.
  abbrev pub Found : ℕ → ℕ → Option ℕ → List ℕ → Option ℕ → Type 0
  Found now window floor code (some step) =
      Matches (now - window) (now + window + 1) floor code step
  Found now window floor code none =
      (step : ℕ)
      → now ≤ step + window
      → step ≤ now + window
      → is_replay floor step ≡ false
      → same_code (hotp hmac_sha1 digits step) code ≡ false

  -- A code that is accepted is that of a step within `window` steps of the present one, above the
  -- floor; a code that is not accepted is that of no such step.
  pub find_valid_step-Found :
      (at step_seconds window : ℕ) (floor : Option ℕ) (code : List ℕ) (found : Option ℕ)
      → find_valid_step hmac_sha1 digits at step_seconds window floor code ≡ ok found
      → Found (step_index at step_seconds) window floor code found
  find_valid_step-Found at step_seconds window floor code (some step) e =
      find_valid_step-Matches at step_seconds window floor code step e
  find_valid_step-Found at step_seconds window floor code none e =
      λ step. find_valid_step-none at step_seconds window floor code step e

  compare_digest-odd :
      (candidate code : List ℕ)
      → is_ascii code ≡ false
      → compare_digest candidate code ≡ err not_ascii
  compare_digest-odd candidate code odd = ground (arith, odd)

  find_from-odd :
      (n pos window : ℕ) (floor : Option ℕ) (code : List ℕ)
      → is_ascii code ≡ false
      → window ≤ pos
      → is_replay floor (pos + n - window) ≡ false
      → find_from hmac_sha1 digits (suc n) pos window floor code ≡ err not_ascii
  unfolding find_from
  find_from-odd zero pos window floor code odd far unused =
      let reached : ltb pos window ≡ false = ground arith in
      let first : pos + 0 - window ≡ pos - window = omega arith in
      let fresh : is_replay floor (pos - window) ≡ false = rw first at unused in
      rw (reached, fresh, compare_digest-odd (hotp hmac_sha1 digits (pos - window)) code odd) refl
  find_from-odd (suc n) pos window floor code odd far unused =
      let reached : ltb pos window ≡ false = ground arith in
      elim (Bool-cases (is_replay floor (pos - window))) [
        | inl replay ↦
            let same : pos + suc n - window ≡ pos + 1 + n - window = omega arith in
            rw (reached, replay)
              (find_from-odd n (pos + 1) window floor code odd (omega arith) (rw same at unused))
        | inr fresh ↦
            rw (reached, fresh, compare_digest-odd (hotp hmac_sha1 digits (pos - window)) code odd)
              refl
      ]

  pub find_valid_step-odd :
      (at step_seconds window : ℕ) (floor : Option ℕ) (code : List ℕ)
      → is_ascii code ≡ false
      → window ≤ step_index at step_seconds
      → is_replay floor (step_index at step_seconds + window) ≡ false
      → find_valid_step hmac_sha1 digits at step_seconds window floor code ≡ err not_ascii
  unfolding find_valid_step
  find_valid_step-odd at step_seconds window floor code odd late unused =
      let now = step_index at step_seconds in
      let count : 2 * window + 1 ≡ suc (2 * window) = omega arith in
      let same : now + window ≡ now + 2 * window - window = omega arith in
      rw count (find_from-odd (2 * window) now window floor code odd late (rw same at unused))
