-- ===== src/Telemetry/Rotation/Fresh.antt =====
-- `_rotate` ends, and never takes a name that a file has.
use ansina.Prelude.{
  ℕ, zero, suc, ◌≤◌, ◌<◌, ◌≡◌, refl, sym, ap, ◌∙◌, inl, inr, some, List, [], ◌∷◌, Bool, true, false,
  length, leb, if◌then◌else◌, arith, Bool-cases,
}
use ansina.Heart.Decision.{same}
use ansina.Telemetry.Rotation.{
  FileName, active, rotated, foreign, is_active, name_eq, SpoolFile, exists_named, stamp_of,
  free_target, rename_active, rotate, total_size,
}

-- No two files have one name.
abbrev pub Distinct : List SpoolFile → Type 0
Distinct [] = Unit {0}
Distinct (f ∷ fs) = (exists_named f.name fs ≡ false) × Distinct fs

same_sym : (xs ys : List ℕ) → same xs ys ≡ same ys xs
same_sym [] [] = refl
same_sym [] (y ∷ ys) = refl
same_sym (x ∷ xs) [] = refl
same_sym (x ∷ xs) (y ∷ ys) = ground (arith, same_sym xs ys)

pub name_eq_sym : (m n : FileName) → name_eq m n ≡ name_eq n m
name_eq_sym active active = refl
name_eq_sym active (rotated t l) = refl
name_eq_sym active (foreign t) = refl
name_eq_sym (rotated s k) active = refl
name_eq_sym (rotated s k) (rotated t l) = ground arith
name_eq_sym (rotated s k) (foreign t) = refl
name_eq_sym (foreign s) active = refl
name_eq_sym (foreign s) (rotated t l) = refl
name_eq_sym (foreign s) (foreign t) = same_sym s t

abbrev numbered_from : ℕ → FileName → Bool
numbered_from k active = false
numbered_from k (rotated stamp counter) = leb k counter
numbered_from k (foreign text) = false

-- How many files have a counter of `k` or more.
abbrev count_from : ℕ → List SpoolFile → ℕ
count_from k [] = 0
count_from k (f ∷ fs) = if numbered_from k f.name then suc (count_from k fs) else count_from k fs

count_from-le-length : (k : ℕ) (fs : List SpoolFile) → count_from k fs ≤ length fs
count_from-le-length k [] = omega arith
count_from-le-length k (f ∷ fs) = ground (arith, count_from-le-length k fs)

numbered_later : (k : ℕ) (n : FileName) → numbered_from (suc k) n ≡ true → numbered_from k n ≡ true
numbered_later k active h = h
numbered_later k (rotated stamp counter) h = ground arith
numbered_later k (foreign text) h = h

numbered_here :
    (s k : ℕ) (n : FileName)
    → name_eq n (rotated s k) ≡ true
    → (numbered_from k n ≡ true) × (numbered_from (suc k) n ≡ false)
numbered_here s k active h = cc
numbered_here s k (rotated t l) h = ground arith
numbered_here s k (foreign text) h = cc

count_from-suc : (k : ℕ) (fs : List SpoolFile) → count_from (suc k) fs ≤ count_from k fs
count_from-suc k [] = omega arith
count_from-suc k (f ∷ fs) = ground (arith, numbered_later k f.name, count_from-suc k fs)

-- A file that has the counter `k` is not counted from `suc k` on.
count_from_taken :
    (s k : ℕ) (fs : List SpoolFile)
    → exists_named (rotated s k) fs ≡ true
    → count_from (suc k) fs < count_from k fs
unfolding exists_named
count_from_taken s k [] h = cc
count_from_taken s k (f ∷ fs) h = elim (Bool-cases (name_eq f.name (rotated s k))) [
  | inl here ↦ ground (arith, numbered_here s k f.name here, count_from-suc k fs)
  | inr there ↦ ground (arith, numbered_later k f.name, count_from_taken s k fs)
]

free_target-fresh :
    (fuel : ℕ) (clock : ℕ → ℕ) (k : ℕ) (fs : List SpoolFile)
    → count_from k fs < fuel
    → (s : ℕ) × (j : ℕ) × (free_target fuel clock k fs ≡ some (rotated s j))
      × (exists_named (rotated s j) fs ≡ false)
unfolding free_target
free_target-fresh zero clock k fs h = absurd (omega arith)
free_target-fresh (suc fuel) clock k fs h =
    elim (Bool-cases (exists_named (rotated (stamp_of (clock k)) k) fs)) [
      | inl taken ↦ rw taken (
          free_target-fresh fuel clock (suc k) fs
            (omega (arith, count_from_taken (stamp_of (clock k)) k fs taken)))
      | inr free ↦ (stamp_of (clock k), k, rw free refl, free)
    ]

pub total_size-rename_active :
    (t : FileName) (fs : List SpoolFile) → total_size (rename_active t fs) ≡ total_size fs
unfolding total_size rename_active
total_size-rename_active t [] = refl
total_size-rename_active t (f ∷ fs) = ground (arith, total_size-rename_active t fs)

pub is_active_iff : (n : FileName) → is_active n ≡ name_eq n active
is_active_iff active = refl
is_active_iff (rotated s k) = refl
is_active_iff (foreign text) = refl

exists_named-rename_active :
    (n t : FileName) (fs : List SpoolFile)
    → name_eq t n ≡ false
    → exists_named n fs ≡ false
    → exists_named n (rename_active t fs) ≡ false
unfolding exists_named rename_active
exists_named-rename_active n t [] apart h = refl
exists_named-rename_active n t (f ∷ fs) apart h = ground (arith, exists_named-rename_active n t fs)

-- Without an active file nothing is renamed.
rename_active_none :
    (t : FileName) (fs : List SpoolFile) → exists_named active fs ≡ false → rename_active t fs ≡ fs
unfolding exists_named rename_active
rename_active_none t [] h = refl
rename_active_none t (f ∷ fs) h = ground (arith, is_active_iff f.name, rename_active_none t fs)

is_active-eq : (n : FileName) → is_active n ≡ true → n ≡ active
is_active-eq active h = refl
is_active-eq (rotated s k) h = cc
is_active-eq (foreign text) h = cc

rename_active-Distinct :
    (t : FileName) (fs : List SpoolFile)
    → exists_named t fs ≡ false
    → Distinct fs
    → Distinct (rename_active t fs)
unfolding exists_named rename_active
rename_active-Distinct t [] free d = tt
rename_active-Distinct t (f ∷ fs) free (fresh, d) = elim (Bool-cases (is_active f.name)) [
  | inl is ↦
      let gone : exists_named active fs ≡ false =
        ap (λ n. exists_named n fs) (sym (is_active-eq f.name is)) ∙ fresh in
      rw (is, rename_active_none t fs gone) (ground arith, d)
  | inr not_active ↦ rw not_active (
    exists_named-rename_active f.name t fs (name_eq_sym t f.name ∙ ground arith) fresh,
    rename_active-Distinct t fs (ground arith) d,
  )
]

no_active-rename_active :
    (s k : ℕ) (fs : List SpoolFile) → exists_named active (rename_active (rotated s k) fs) ≡ false
unfolding exists_named rename_active
no_active-rename_active s k [] = refl
no_active-rename_active s k (f ∷ fs) =
    ground (arith, is_active_iff f.name, no_active-rename_active s k fs)

-- Whatever files there are and whatever the clock reads, the loop over the counters ends: `rotate`
-- gives the active file a name that no file has. It loses no file and no byte: the names stay
-- distinct and the total size is the same. Afterwards there is no active file.
pub rotate-fresh :
    (clock : ℕ → ℕ) (files : List SpoolFile)
    → Distinct files
    → ((s : ℕ) × (k : ℕ) × (rotate clock files ≡ rename_active (rotated s k) files)
        × (exists_named (rotated s k) files ≡ false))
      × Distinct (rotate clock files)
      × (total_size (rotate clock files) ≡ total_size files)
      × (exists_named active (rotate clock files) ≡ false)
unfolding rotate
rotate-fresh clock files d =
    let (s, k, found, free) =
      free_target-fresh (suc (length files)) clock 0 files
        (omega (arith, count_from-le-length 0 files)) in
    rw found (
      (s, k, refl, free),
      rename_active-Distinct (rotated s k) files free d,
      total_size-rename_active (rotated s k) files,
      no_active-rename_active s k files,
    )
