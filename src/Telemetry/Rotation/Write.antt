-- ===== src/Telemetry/Rotation/Write.antt =====
-- `write_line`: rotation, the write and the budget together.
use ansina.Prelude.{
  ℕ, ◌+◌, ◌≤◌, ◌≡◌, refl, sym, ap, ◌∙◌, inl, inr, none, List, [], ◌∷◌, ◌++◌, true, false, ◌||◌,
  length, if◌then◌else◌, arith, All, Bool-cases, ok,
}
use ansina.Opencode.Events.{encode}
use ansina.Telemetry.Rotation.{
  FileName, active, is_active, name_eq, SpoolFile, exists_named, total_size, is_full, rotate,
  grow_active, grown, append_bytes, RotationSettings, enforce_budget, write_line,
}
use ansina.Telemetry.Rotation.Fresh.{Distinct, is_active_iff, name_eq_sym, rotate-fresh}
use ansina.Telemetry.Rotation.Cap.{IsCapped, All-enforce_budget, enforce_budget-IsCapped}

exists_named-grow_active :
    (n : FileName) (at bytes : ℕ) (fs : List SpoolFile)
    → exists_named n (grow_active at bytes fs) ≡ exists_named n fs
unfolding exists_named grow_active
exists_named-grow_active n at bytes [] = refl
exists_named-grow_active n at bytes (f ∷ fs) =
    ground (arith, exists_named-grow_active n at bytes fs)

exists_named-snoc :
    (n : FileName) (f : SpoolFile) (fs : List SpoolFile)
    → exists_named n (fs ++ f ∷ []) ≡ exists_named n fs || name_eq f.name n
unfolding exists_named
exists_named-snoc n f [] = ground arith
exists_named-snoc n f (g ∷ gs) = ground (arith, exists_named-snoc n f gs)

Distinct-grow_active :
    (at bytes : ℕ) (fs : List SpoolFile) → Distinct fs → Distinct (grow_active at bytes fs)
unfolding grow_active
Distinct-grow_active at bytes [] d = tt
Distinct-grow_active at bytes (f ∷ fs) (fresh, d) = (
  ground (
    arith,
    exists_named-grow_active f.name at bytes fs,
    exists_named-grow_active (grown at bytes f).name at bytes fs,
  ),
  Distinct-grow_active at bytes fs d,
)

Distinct-snoc :
    (f : SpoolFile) (fs : List SpoolFile)
    → exists_named f.name fs ≡ false
    → Distinct fs
    → Distinct (fs ++ f ∷ [])
unfolding exists_named
Distinct-snoc f [] fresh d = (refl, tt)
Distinct-snoc f (g ∷ gs) fresh (new, d) = (
  ground (arith, exists_named-snoc g.name f gs, name_eq_sym f.name g.name),
  Distinct-snoc f gs (ground arith) d,
)

total_size-snoc :
    (f : SpoolFile) (fs : List SpoolFile) → total_size (fs ++ f ∷ []) ≡ total_size fs + f.size
unfolding total_size
total_size-snoc f [] = omega arith
total_size-snoc f (g ∷ gs) = omega (arith, total_size-snoc f gs)

-- Without an active file nothing grows.
grow_active_none :
    (at bytes : ℕ) (fs : List SpoolFile)
    → exists_named active fs ≡ false
    → grow_active at bytes fs ≡ fs
unfolding exists_named grow_active
grow_active_none at bytes [] h = refl
grow_active_none at bytes (f ∷ fs) h =
    ground (arith, is_active_iff f.name, grow_active_none at bytes fs)

is_active-eq : (n : FileName) → is_active n ≡ true → n ≡ active
is_active-eq FileName.active h = refl
is_active-eq (FileName.rotated s k) h = cc
is_active-eq (FileName.foreign text) h = cc

total_size-grow_active :
    (at bytes : ℕ) (fs : List SpoolFile)
    → Distinct fs
    → exists_named active fs ≡ true
    → total_size (grow_active at bytes fs) ≡ total_size fs + bytes
unfolding total_size grow_active exists_named
total_size-grow_active at bytes [] d h = cc
total_size-grow_active at bytes (f ∷ fs) (fresh, d) h = elim (Bool-cases (is_active f.name)) [
  | inl is ↦
      let gone : exists_named active fs ≡ false =
        ap (λ n. exists_named n fs) (sym (is_active-eq f.name is)) ∙ fresh in
      rw (is, grow_active_none at bytes fs gone) (omega arith)
  | inr not_active ↦ ground (arith, is_active_iff f.name, total_size-grow_active at bytes fs d)
]

-- The active file is shorter than the limit.
abbrev Below : ℕ → List SpoolFile → Type 0
Below limit = All (λ f. is_active f.name ≡ true → f.size ≤ limit)

not_full-Below : (limit : ℕ) (fs : List SpoolFile) → is_full limit fs ≡ false → Below limit fs
unfolding is_full
not_full-Below limit [] h = tt
not_full-Below limit (f ∷ fs) h = (λ is. ground arith, not_full-Below limit fs (ground arith))

no_active-Below :
    (limit : ℕ) (fs : List SpoolFile) → exists_named active fs ≡ false → Below limit fs
unfolding exists_named
no_active-Below limit [] h = tt
no_active-Below limit (f ∷ fs) h =
    (λ is. ground (arith, is_active_iff f.name), no_active-Below limit fs (ground arith))

Below-grow_active :
    (limit at bytes : ℕ) (fs : List SpoolFile)
    → Below limit fs
    → Below (limit + bytes) (grow_active at bytes fs)
unfolding grow_active
Below-grow_active limit at bytes [] all = tt
Below-grow_active limit at bytes (f ∷ fs) (below, all) = (
  elim (Bool-cases (is_active f.name)) [
    | inl is ↦ rw is (λ h. omega (arith, below is))
    | inr not_active ↦ rw not_active (λ h. cc)
  ],
  Below-grow_active limit at bytes fs all,
)

Below-snoc :
    (limit : ℕ) (f : SpoolFile) (fs : List SpoolFile)
    → f.size ≤ limit
    → Below limit fs
    → Below limit (fs ++ f ∷ [])
Below-snoc limit f [] h all = (λ is. h, tt)
Below-snoc limit f (g ∷ gs) h (below, all) = (below, Below-snoc limit f gs h all)

-- The files after the rotation, if one is due.
abbrev pub rotated_if_full : RotationSettings → (ℕ → ℕ) → List SpoolFile → List SpoolFile
rotated_if_full c clock files = if is_full c.max_file_bytes files then rotate clock files else files

rotated_if_full_lem :
    (c : RotationSettings) (clock : ℕ → ℕ) (files : List SpoolFile)
    → Distinct files
    → Distinct (rotated_if_full c clock files)
      × (total_size (rotated_if_full c clock files) ≡ total_size files)
      × Below c.max_file_bytes (rotated_if_full c clock files)
rotated_if_full_lem c clock files d = elim (Bool-cases (is_full c.max_file_bytes files)) [
  | inl full ↦
      let (_, distinct, total, gone) = rotate-fresh clock files d in
      rw full (distinct, total, no_active-Below c.max_file_bytes (rotate clock files) gone)
  | inr room ↦ rw room (d, refl, not_full-Below c.max_file_bytes files room)
]

append_bytes_lem :
    (limit at bytes : ℕ) (files : List SpoolFile)
    → Distinct files
    → Below limit files
    → Distinct (append_bytes at bytes files)
      × (total_size (append_bytes at bytes files) ≡ total_size files + bytes)
      × Below (limit + bytes) (append_bytes at bytes files)
      × (exists_named active (append_bytes at bytes files) ≡ true)
unfolding append_bytes
append_bytes_lem limit at bytes files d below = elim (Bool-cases (exists_named active files)) [
  | inl old ↦ rw old (
    Distinct-grow_active at bytes files d,
    total_size-grow_active at bytes files d old,
    Below-grow_active limit at bytes files below,
    exists_named-grow_active active at bytes files ∙ old,
  )
  | inr new ↦
      let f : SpoolFile = record { name = active; mtime = at; size = bytes } in
      rw new (
        Distinct-snoc f files new d,
        total_size-snoc f files,
        Below-snoc (limit + bytes) f files (omega arith) (Below-more limit bytes files below),
        exists_named-snoc active f files ∙ ground arith,
      )
]
  where
    Below-more : (limit bytes : ℕ) (fs : List SpoolFile) → Below limit fs → Below (limit + bytes) fs
    Below-more limit bytes [] all = tt
    Below-more limit bytes (f ∷ fs) (h, all) =
        (λ is. omega (arith, h is), Below-more limit bytes fs all)

-- A line that encodes is written, whatever the clocks read, into files with distinct names. The
-- write itself loses nothing: before the budget, the files hold as many bytes as they did and those
-- of the line with its newline, whether or not the active file was rotated away. After the
-- budget the active file is there and no longer than `max_file_bytes` and this line, the family is
-- within `max_spool_bytes` or has no file but the active one, no rotated file is too old, and the
-- names are distinct again.
pub write_line-IsCapped :
    (c : RotationSettings) (clock : ℕ → ℕ) (at now : ℕ) (line bytes : List ℕ)
    (files : List SpoolFile)
    → Distinct files
    → encode line ≡ ok bytes
    → (before : List SpoolFile) × (after : List SpoolFile) × (write_line c clock at now line files
        ≡ (after, none))
      × (after ≡ enforce_budget c now before)
      × (total_size before ≡ total_size files + (length bytes + 1))
      × (exists_named active after ≡ true)
      × All (λ f. is_active f.name ≡ true → f.size ≤ c.max_file_bytes + (length bytes + 1)) after
      × IsCapped c now before after
unfolding write_line
write_line-IsCapped c clock at now line bytes files d encodes =
    let (distinct, total, below) = rotated_if_full_lem c clock files d in
    let (distinct_after, total_after, below_after, there) =
      append_bytes_lem c.max_file_bytes at (length bytes + 1) (rotated_if_full c clock files)
        distinct below in
    let before = append_bytes at (length bytes + 1) (rotated_if_full c clock files) in
    let capped = enforce_budget-IsCapped c now before distinct_after in
    (
      before,
      enforce_budget c now before,
      rw encodes refl,
      refl,
      total_after ∙ rw total refl,
      capped.keeps_active there,
      All-enforce_budget c now
          (λ f. is_active f.name ≡ true → f.size ≤ c.max_file_bytes + (length bytes + 1)) before
          below_after,
      capped,
    )
