-- ===== src/Tests/Storage.antt =====
-- Runs of the migrations at concrete inputs. A schema is the texts of the scripts that ran.
use ansina.Prelude.{
  ℕ, ◌-◌, ◌≡◌, refl, Option, none, some, List, [], ◌∷◌, ◌++◌, ◌&&◌, leb, true, if◌then◌else◌, ok,
}
use ansina.Heart.Decision.{codes}
use ansina.Storage.Migrator.{
  Migration, Entry, Database, MigrationError, run_migrations, discover_migrations, rows,
}

abbrev ascii_digit : ℕ → Option ℕ
ascii_digit c = if leb 48 c && leb c 57 then some (c - 48) else none

-- A script that is empty fails.
abbrev execute : List ℕ → Database (List (List ℕ)) → Option (Database (List (List ℕ)))
execute [] db = none
execute (c ∷ cs) db =
    some (record { schema = db.schema ++ (c ∷ cs) ∷ []; versions = some (rows db.versions) })

abbrev files : List Entry
files =
    record { is_file = true; name = codes "0002_rbac.sql"; text = codes "b" }
    ∷ record { is_file = true; name = codes "notes.txt"; text = [] }
    ∷ record { is_file = true; name = codes "0001_init.sql"; text = codes "a" }
    ∷ record { is_file = true; name = codes "0003_bad.sql"; text = [] }
    ∷ []

abbrev bundled : List Migration
bundled =
    record { version = 1; name = codes "init"; sql = codes "a" }
    ∷ record { version = 2; name = codes "rbac"; sql = codes "b" }
    ∷ record { version = 3; name = codes "bad"; sql = [] }
    ∷ []

discovered : discover_migrations ascii_digit files ≡ ok bundled
unfolding discover_migrations
discovered = refl

abbrev brand_new : Database (List (List ℕ))
brand_new = record { schema = []; versions = none }

abbrev two_applied : Database (List (List ℕ))
two_applied = record {
  schema = codes "a" ∷ codes "b" ∷ [];
  versions = some (
      record { version = 1; name = codes "init" }
      ∷ record { version = 2; name = codes "rbac" }
      ∷ []);
}

third_fails :
    run_migrations execute ascii_digit files brand_new
    ≡ (two_applied, some (MigrationError.failed 3))
unfolding run_migrations
third_fails = refl
