-- ===== src/Telemetry/Rotation.antt =====
-- src/ansina/telemetry/rotation.py: `SpooledRotatingWriter` over the files of its family, those that
-- its glob finds, in any order. A rotated file's name is read as its two numbers, the milliseconds
-- and the counter, 0 where the name has none; a name with other text is foreign. Instants are
-- microseconds. The clock, and the file system's time of a write, are arguments.
pub mod Fresh
pub mod Cap
pub mod Write
pub mod Oldest
use ansina.Prelude.{
  ℕ, zero, suc, ◌+◌, ◌-◌, ◌/◌, Option, none, some, List, [], ◌∷◌, ◌++◌, Bool, true, false, not,
  ◌&&◌, ◌||◌, length, ltb, leb, ◌==◌, if◌then◌else◌, Result, ok, err, keep,
}
use ansina.Heart.Decision.{same}
use ansina.Opencode.Events.{EncodeError, encode}

pub data FileName : Type 0 where
  active : FileName
  rotated : ℕ → ℕ → FileName
  foreign : List ℕ → FileName

abbrev pub is_active : FileName → Bool
is_active active = true
is_active (rotated stamp counter) = false
is_active (foreign text) = false

abbrev pub name_eq : FileName → FileName → Bool
name_eq active active = true
name_eq (rotated s k) (rotated t l) = s == t && k == l
name_eq (foreign s) (foreign t) = same s t
name_eq _ _ = false

pub record SpoolFile : Type 0 where
  pub name : FileName
  pub mtime : ℕ
  pub size : ℕ

pub record RotationSettings : Type 0 where
  pub max_file_bytes : ℕ
  pub max_spool_bytes : ℕ
  pub retention : ℕ

unfoldable pub exists_named : FileName → List SpoolFile → Bool
exists_named n [] = false
exists_named n (f ∷ fs) = name_eq f.name n || exists_named n fs

-- `_rotation_suffix`
abbrev pub stamp_of : ℕ → ℕ
stamp_of now = now / 1000

-- The loop of `_rotate`, whose clock is read again for each counter.
unfoldable pub free_target : ℕ → (ℕ → ℕ) → ℕ → List SpoolFile → Option FileName
unfolding exists_named
free_target zero clock counter files = none
free_target (suc fuel) clock counter files =
    let target = rotated (stamp_of (clock counter)) counter in
    let rest = free_target fuel clock (suc counter) files in
    if exists_named target files then rest else some target

-- `active.rename(target)`
unfoldable pub rename_active : FileName → List SpoolFile → List SpoolFile
rename_active target [] = []
rename_active target (f ∷ fs) =
    (if is_active f.name then record f { name = target } else f) ∷ rename_active target fs

abbrev renamed : List SpoolFile → Option FileName → List SpoolFile
renamed files none = files
renamed files (some target) = rename_active target files

unfoldable pub rotate : (ℕ → ℕ) → List SpoolFile → List SpoolFile
unfolding free_target rename_active
rotate clock files = renamed files (free_target (suc (length files)) clock 0 files)

unfoldable pub total_size : List SpoolFile → ℕ
total_size [] = 0
total_size (f ∷ fs) = f.size + total_size fs

-- `active.exists() and active.stat().st_size >= max_file_bytes`
unfoldable pub is_full : ℕ → List SpoolFile → Bool
is_full limit [] = false
is_full limit (f ∷ fs) = is_active f.name && leb limit f.size || is_full limit fs

abbrev pub grown : ℕ → ℕ → SpoolFile → SpoolFile
grown at bytes f = if is_active f.name then record f { mtime = at; size = f.size + bytes } else f

unfoldable pub grow_active : ℕ → ℕ → List SpoolFile → List SpoolFile
grow_active at bytes [] = []
grow_active at bytes (f ∷ fs) = grown at bytes f ∷ grow_active at bytes fs

-- The file that is opened for appending, and created if it is missing.
unfoldable pub append_bytes : ℕ → ℕ → List SpoolFile → List SpoolFile
unfolding exists_named grow_active
append_bytes at bytes files =
    if exists_named active files
    then grow_active at bytes files
    else files ++ record { name = active; mtime = at; size = bytes } ∷ []

abbrev pub survives : ℕ → ℕ → SpoolFile → Bool
survives retention now f = is_active f.name || not (ltb (f.mtime + retention) now)

-- `survivors.sort(key=mtime)`, which is stable.
unfoldable pub insert_oldest : SpoolFile → List SpoolFile → List SpoolFile
insert_oldest x [] = x ∷ []
insert_oldest x (y ∷ ys) =
    let rest = insert_oldest x ys in if leb x.mtime y.mtime then x ∷ y ∷ ys else y ∷ rest

unfoldable pub by_oldest : List SpoolFile → List SpoolFile
unfolding insert_oldest
by_oldest [] = []
by_oldest (x ∷ xs) = insert_oldest x (by_oldest xs)

-- What the loop over the survivors leaves on disk.
unfoldable pub cap_loop : ℕ → ℕ → List SpoolFile → List SpoolFile
cap_loop limit total [] = []
cap_loop limit total (f ∷ fs) =
    let below = cap_loop limit total fs in
    let after = cap_loop limit (total - f.size) fs in
    if leb total limit then f ∷ fs else if is_active f.name then f ∷ below else after

module _ (c : RotationSettings) where
  -- `_enforce_budget`
  unfoldable pub enforce_budget : ℕ → List SpoolFile → List SpoolFile
  unfolding keep by_oldest total_size cap_loop
  enforce_budget now files =
      let survivors = by_oldest (keep (survives c.retention now) files) in
      cap_loop c.max_spool_bytes (total_size survivors) survivors

  abbrev write_encoded :
      ℕ → ℕ → Result EncodeError (List ℕ) → List SpoolFile → List SpoolFile × Option EncodeError
  write_encoded at now (err e) files = (append_bytes at 0 files, some e)
  write_encoded at now (ok bytes) files =
      (enforce_budget now (append_bytes at (length bytes + 1) files), none)

  -- `write_line`, with the clock's readings for the targets of a rotation, the file system's time of
  -- the write, and the clock's reading for the budget.
  unfoldable pub write_line :
      (ℕ → ℕ) → ℕ → ℕ → List ℕ → List SpoolFile → List SpoolFile × Option EncodeError
  unfolding is_full rotate append_bytes enforce_budget encode
  write_line clock at now line files =
      write_encoded at now (encode line)
        (if is_full c.max_file_bytes files then rotate clock files else files)
