-- ===== src/Storage/Migrator/Order.antt =====
-- Migrations are applied in order, from the first one that a database lacks, without a gap.
use ansina.Prelude.{ℕ, ◌+◌, ◌≡◌, Option, none, some, List, [], ◌∷◌, ◌++◌, true, length}
use ansina.Storage.Migrator.{
  Migration, Applied, Database, MigrationError, contiguous, rows, applied_versions, pending,
}

module _ {S : Type 0} (execute : List ℕ → Database S → Option (Database S)) where
  -- A script does not touch the rows of `schema_version`; one that runs leaves the table there.
  unfoldable pub LeavesVersions : Migration → Type 0
  LeavesVersions m =
      (db db' : Database S) → execute m.sql db ≡ some db' → db'.versions ≡ some (rows db.versions)

  -- How many migrations the database has had.
  abbrev pub depth : Database S → ℕ
  depth db = length (applied_versions db)

  -- The row that a migration leaves.
  abbrev pub row_of : Migration → Applied
  row_of m = record { version = m.version; name = m.name }

  -- Migrations that have run one after the other: the schema is what their scripts made of it, and each
  -- has left its row.
  pub data Ran : Database S → List Migration → Database S → Type 0 where
    nothing : {db : Database S} → Ran db [] db
    one_more :
        {db mid last : Database S} {m : Migration} {ms : List Migration}
        → execute m.sql db ≡ some mid
        → Ran (record mid { versions = some (rows db.versions ++ row_of m ∷ []) }) ms last
        → Ran db (m ∷ ms) last

  -- How a run ends, with the migrations that are left: none, or the first of them failed on the
  -- database that it leaves behind.
  abbrev pub Ends : Database S → Option MigrationError → List Migration → Type 0
  Ends db e [] = e ≡ none
  Ends db e (m ∷ ms) = (e ≡ some (MigrationError.failed m.version)) × (execute m.sql db ≡ none)

  -- What a run makes of a database whose migrations are without a gap.
  pub record Advances (ms : List Migration) (db : Database S)
      (r : Database S × Option MigrationError) : Type 0 where
    pub run : List Migration
    pub left : List Migration
    pub split : pending (depth db) ms ≡ run ++ left
    pub ran : Ran db run r.0
    pub ends : Ends r.0 r.1 left
    pub gapless : contiguous 1 (applied_versions r.0) ≡ true
    pub depth_now : depth r.0 + length left ≡ length ms

  -- The same, for the migrations that are still to run.
  record Runs (ms : List Migration) (db : Database S) (r : Database S × Option MigrationError)
      : Type 0 where
    pub run : List Migration
    pub left : List Migration
    pub split : ms ≡ run ++ left
    pub ran : Ran db run r.0
    pub ends : Ends r.0 r.1 left
    pub gapless : contiguous 1 (applied_versions r.0) ≡ true
    pub depth_now : depth r.0 + length left ≡ depth db + length ms
