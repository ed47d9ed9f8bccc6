-- ===== src/Tests/Telemetry.antt =====
-- The spool's files at concrete inputs.
use ansina.Prelude.{ℕ, ◌+◌, ◌≤◌, ◌≡◌, refl, none, List, [], ◌∷◌, true, false, All}
use ansina.Heart.Decision.{codes}
use ansina.Opencode.Events.{encode}
use ansina.Telemetry.Rotation.{
  FileName, active, rotated, is_active, SpoolFile, RotationSettings, exists_named, total_size,
  rename_active, rotate, enforce_budget, write_line,
}
use ansina.Telemetry.Rotation.Fresh.{Distinct, rotate-fresh}
use ansina.Telemetry.Rotation.Cap.{IsCapped}
use ansina.Telemetry.Rotation.Write.{write_line-IsCapped}

abbrev file : FileName → ℕ → ℕ → SpoolFile
file name mtime size = record { name = name; mtime = mtime; size = size }

-- The active file is full, and a file has the name of this millisecond.
abbrev files : List SpoolFile
files = file (rotated 7 0) 5000 60 ∷ file active 6000 100 ∷ file (rotated 3 0) 3000 50 ∷ []

files-Distinct : Distinct files
unfolding exists_named
files-Distinct = (refl, (refl, (refl, tt)))

abbrev settings : RotationSettings
settings = record { max_file_bytes = 100; max_spool_bytes = 160; retention = 1000000 }

abbrev stopped : ℕ → ℕ
stopped reading = 7500

collision_is_counted :
    rotate stopped files
    ≡ file (rotated 7 0) 5000 60 ∷ file (rotated 7 1) 6000 100 ∷ file (rotated 3 0) 3000 50 ∷ []
unfolding rotate
collision_is_counted = refl

rotate-fresh_example :
    ((s : ℕ) × (k : ℕ) × (rotate stopped files ≡ rename_active (rotated s k) files)
      × (exists_named (rotated s k) files ≡ false))
    × Distinct (rotate stopped files)
    × (total_size (rotate stopped files) ≡ total_size files)
    × (exists_named active (rotate stopped files) ≡ false)
rotate-fresh_example = rotate-fresh stopped files files-Distinct

-- The two oldest rotated files go.
oldest_go_first :
    write_line settings stopped 8000 9000 (codes "{}") files
    ≡ (file (rotated 7 1) 6000 100 ∷ file active 8000 3 ∷ [], none)
unfolding write_line
oldest_go_first = refl

write_line-IsCapped_example :
    (before : List SpoolFile) × (after : List SpoolFile) × (write_line settings stopped 8000 9000
        (codes "{}")
        files
      ≡ (after, none))
    × (after ≡ enforce_budget settings 9000 before)
    × (total_size before ≡ total_size files + 3)
    × (exists_named active after ≡ true)
    × All (λ f. is_active f.name ≡ true → f.size ≤ 103) after
    × IsCapped settings 9000 before after
unfolding encode
write_line-IsCapped_example =
    write_line-IsCapped settings stopped 8000 9000 (codes "{}") (codes "{}") files files-Distinct
      refl
