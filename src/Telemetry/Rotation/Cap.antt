-- ===== src/Telemetry/Rotation/Cap.antt =====
-- `_enforce_budget`: what is left fits the cap, and the oldest rotated files go first.
use native.Mathlib.Nat.{zero-add}
use ansina.Prelude.{
  ℕ, ◌+◌, ◌-◌, ◌≤◌, ◌≡◌, refl, ◌∙◌, inl, inr, ◌⊎◌, List, [], ◌∷◌, Bool, true, false, leb, arith,
  keep, All, Bool-cases,
}
use ansina.Telemetry.Rotation.{
  FileName, active, is_active, SpoolFile, exists_named, total_size, survives, insert_oldest,
  by_oldest, cap_loop, RotationSettings, enforce_budget,
}
use ansina.Telemetry.Rotation.Fresh.{Distinct, is_active_iff, name_eq_sym}

abbrev pub IsActive : SpoolFile → Type 0
IsActive f = is_active f.name ≡ true

pub cap_loop-Fits :
    (limit a : ℕ) (fs : List SpoolFile)
    → (a + total_size (cap_loop limit (a + total_size fs) fs) ≤ limit)
      ⊎ All IsActive (cap_loop limit (a + total_size fs) fs)
unfolding cap_loop total_size
cap_loop-Fits limit a [] = inr tt
cap_loop-Fits limit a (f ∷ fs) = elim (Bool-cases (leb (a + (f.size + total_size fs)) limit)) [
  | inl fits ↦ rw fits (inl (ground arith))
  | inr over ↦ elim (Bool-cases (is_active f.name)) [
    | inl is ↦
        let shift : a + (f.size + total_size fs) ≡ a + f.size + total_size fs = omega arith in
        rw (over, is, shift)
          (elim (cap_loop-Fits limit (a + f.size) fs) [
            | inl fits ↦ inl (omega arith)
            | inr all ↦ inr (is, all)
          ])
    | inr not_active ↦
        let shift : a + (f.size + total_size fs) - f.size ≡ a + total_size fs = omega arith in
        rw (over, not_active, shift) (cap_loop-Fits limit a fs)
  ]
]

module _ (limit : ℕ) where
  pub All-cap_loop :
      (P : SpoolFile → Type 0) (total : ℕ) (fs : List SpoolFile)
      → All P fs
      → All P (cap_loop limit total fs)
  unfolding cap_loop
  All-cap_loop P total [] all = tt
  All-cap_loop P total (f ∷ fs) (p, all) = elim (Bool-cases (leb total limit)) [
    | inl fits ↦ rw fits (p, all)
    | inr over ↦ elim (Bool-cases (is_active f.name)) [
      | inl is ↦ rw (over, is) (p, All-cap_loop P total fs all)
      | inr not_active ↦ rw (over, not_active) (All-cap_loop P (total - f.size) fs all)
    ]
  ]

  exists_named-cap_loop :
      (n : FileName) (total : ℕ) (fs : List SpoolFile)
      → exists_named n fs ≡ false
      → exists_named n (cap_loop limit total fs) ≡ false
  unfolding cap_loop exists_named
  exists_named-cap_loop n total [] h = refl
  exists_named-cap_loop n total (f ∷ fs) h =
      ground (arith, exists_named-cap_loop n total fs, exists_named-cap_loop n (total - f.size) fs)

  Distinct-cap_loop :
      (total : ℕ) (fs : List SpoolFile) → Distinct fs → Distinct (cap_loop limit total fs)
  unfolding cap_loop
  Distinct-cap_loop total [] d = tt
  Distinct-cap_loop total (f ∷ fs) (fresh, d) = elim (Bool-cases (leb total limit)) [
    | inl fits ↦ rw fits (fresh, d)
    | inr over ↦ elim (Bool-cases (is_active f.name)) [
      | inl is ↦
          rw (over, is) (exists_named-cap_loop f.name total fs fresh, Distinct-cap_loop total fs d)
      | inr not_active ↦ rw (over, not_active) (Distinct-cap_loop (total - f.size) fs d)
    ]
  ]

  -- The loop never takes the active file away.
  exists_active-cap_loop :
      (total : ℕ) (fs : List SpoolFile)
      → exists_named active fs ≡ true
      → exists_named active (cap_loop limit total fs) ≡ true
  unfolding cap_loop exists_named
  exists_active-cap_loop total [] h = h
  exists_active-cap_loop total (f ∷ fs) h = ground (
    arith,
    is_active_iff f.name,
    exists_active-cap_loop total fs,
    exists_active-cap_loop (total - f.size) fs,
  )

module _ (P : SpoolFile → Type 0) where
  pub All-insert_oldest :
      (x : SpoolFile) (fs : List SpoolFile) → P x → All P fs → All P (insert_oldest x fs)
  unfolding insert_oldest
  All-insert_oldest x [] p all = (p, tt)
  All-insert_oldest x (y ∷ ys) p (q, all) = elim (Bool-cases (leb x.mtime y.mtime)) [
    | inl before ↦ rw before (p, (q, all))
    | inr behind ↦ rw behind (q, All-insert_oldest x ys p all)
  ]

  pub All-by_oldest : (fs : List SpoolFile) → All P fs → All P (by_oldest fs)
  unfolding by_oldest
  All-by_oldest [] all = tt
  All-by_oldest (f ∷ fs) (p, all) = All-insert_oldest f (by_oldest fs) p (All-by_oldest fs all)

All-keep :
    (P : SpoolFile → Type 0) (p : SpoolFile → Bool) (fs : List SpoolFile)
    → All P fs
    → All P (keep p fs)
unfolding keep
All-keep P p [] all = tt
All-keep P p (f ∷ fs) (q, all) = elim (Bool-cases (p f)) [
  | inl kept ↦ rw kept (q, All-keep P p fs all)
  | inr gone ↦ rw gone (All-keep P p fs all)
]

All-survives : (p : SpoolFile → Bool) (fs : List SpoolFile) → All (λ f. p f ≡ true) (keep p fs)
unfolding keep
All-survives p [] = tt
All-survives p (f ∷ fs) = elim (Bool-cases (p f)) [
  | inl kept ↦ rw kept (kept, All-survives p fs)
  | inr gone ↦ rw gone (All-survives p fs)
]

exists_named-insert_oldest :
    (n : FileName) (x : SpoolFile) (fs : List SpoolFile)
    → exists_named n (insert_oldest x fs) ≡ exists_named n (x ∷ fs)
unfolding insert_oldest exists_named
exists_named-insert_oldest n x [] = refl
exists_named-insert_oldest n x (y ∷ ys) = ground (arith, exists_named-insert_oldest n x ys)

pub exists_named-by_oldest :
    (n : FileName) (fs : List SpoolFile) → exists_named n (by_oldest fs) ≡ exists_named n fs
unfolding by_oldest exists_named
exists_named-by_oldest n [] = refl
exists_named-by_oldest n (f ∷ fs) =
    ground (arith, exists_named-insert_oldest n f (by_oldest fs), exists_named-by_oldest n fs)

Distinct-insert_oldest :
    (x : SpoolFile) (fs : List SpoolFile)
    → exists_named x.name fs ≡ false
    → Distinct fs
    → Distinct (insert_oldest x fs)
unfolding insert_oldest exists_named
Distinct-insert_oldest x [] fresh d = (refl, tt)
Distinct-insert_oldest x (y ∷ ys) fresh (new, d) = elim (Bool-cases (leb x.mtime y.mtime)) [
  | inl before ↦ rw before (fresh, (new, d))
  | inr behind ↦ rw behind (
    ground (arith, exists_named-insert_oldest y.name x ys, name_eq_sym x.name y.name),
    Distinct-insert_oldest x ys (ground arith) d,
  )
]

Distinct-by_oldest : (fs : List SpoolFile) → Distinct fs → Distinct (by_oldest fs)
unfolding by_oldest
Distinct-by_oldest [] d = tt
Distinct-by_oldest (f ∷ fs) (fresh, d) =
    Distinct-insert_oldest f (by_oldest fs) (exists_named-by_oldest f.name fs ∙ fresh)
      (Distinct-by_oldest fs d)

exists_named-keep :
    (n : FileName) (p : SpoolFile → Bool) (fs : List SpoolFile)
    → exists_named n fs ≡ false
    → exists_named n (keep p fs) ≡ false
unfolding exists_named keep
exists_named-keep n p [] h = refl
exists_named-keep n p (f ∷ fs) h = ground (arith, exists_named-keep n p fs)

Distinct-keep : (p : SpoolFile → Bool) (fs : List SpoolFile) → Distinct fs → Distinct (keep p fs)
unfolding keep
Distinct-keep p [] d = tt
Distinct-keep p (f ∷ fs) (fresh, d) = elim (Bool-cases (p f)) [
  | inl kept ↦ rw kept (exists_named-keep f.name p fs fresh, Distinct-keep p fs d)
  | inr gone ↦ rw gone (Distinct-keep p fs d)
]

exists_active-keep :
    (retention now : ℕ) (fs : List SpoolFile)
    → exists_named active fs ≡ true
    → exists_named active (keep (survives retention now) fs) ≡ true
unfolding exists_named keep
exists_active-keep retention now [] h = h
exists_active-keep retention now (f ∷ fs) h =
    ground (arith, is_active_iff f.name, exists_active-keep retention now fs)

cap_loop-total :
    (limit : ℕ) (fs : List SpoolFile)
    → (total_size (cap_loop limit (total_size fs) fs) ≤ limit)
      ⊎ All IsActive (cap_loop limit (total_size fs) fs)
cap_loop-total limit fs = simp zero-add at (cap_loop-Fits limit 0 fs)

-- What a budget leaves: the cap is met, or the active file is all that is left; nothing is too old;
-- the names stay distinct; the active file stays.
pub record IsCapped (c : RotationSettings) (now : ℕ) (before after : List SpoolFile) : Type 0 where
  pub fits : (total_size after ≤ c.max_spool_bytes) ⊎ All IsActive after
  pub young : All (λ f. survives c.retention now f ≡ true) after
  pub distinct : Distinct after
  pub keeps_active : exists_named active before ≡ true → exists_named active after ≡ true

pub enforce_budget-IsCapped :
    (c : RotationSettings) (now : ℕ) (files : List SpoolFile)
    → Distinct files
    → IsCapped c now files (enforce_budget c now files)
unfolding enforce_budget
enforce_budget-IsCapped c now files d =
    let kept = keep (survives c.retention now) files in
    record {
      fits = cap_loop-total c.max_spool_bytes (by_oldest kept);
      young =
          All-cap_loop c.max_spool_bytes (λ f. survives c.retention now f ≡ true)
            (total_size (by_oldest kept)) (by_oldest kept)
            (All-by_oldest (λ f. survives c.retention now f ≡ true) kept
              (All-survives (survives c.retention now) files));
      distinct =
          Distinct-cap_loop c.max_spool_bytes (total_size (by_oldest kept)) (by_oldest kept)
            (Distinct-by_oldest kept (Distinct-keep (survives c.retention now) files d));
      keeps_active = λ h.
          exists_active-cap_loop c.max_spool_bytes (total_size (by_oldest kept)) (by_oldest kept)
            (exists_named-by_oldest active kept ∙ exists_active-keep c.retention now files h);
    }

module _ (c : RotationSettings) (now : ℕ) where
  pub All-enforce_budget :
      (P : SpoolFile → Type 0) (files : List SpoolFile)
      → All P files
      → All P (enforce_budget c now files)
  unfolding enforce_budget
  All-enforce_budget P files all =
      let kept = keep (survives c.retention now) files in
      All-cap_loop c.max_spool_bytes P (total_size (by_oldest kept)) (by_oldest kept)
        (All-by_oldest P kept (All-keep P (survives c.retention now) files all))
