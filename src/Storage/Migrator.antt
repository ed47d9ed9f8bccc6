-- ===== src/Storage/Migrator.antt =====
-- src/ansina/storage/migrator.py: which migrations a database has had, and the run that applies the
-- others, each in a transaction. A schema is what the scripts change; what SQLite makes of a script
-- is a parameter, `none` for an error. A file's name and text are lists of code points.
pub mod Order
pub mod Numbers
use ansina.Prelude.{
  ℕ, zero, suc, ◌+◌, ◌*◌, Option, none, some, List, [], ◌∷◌, ◌++◌, Bool, true, false, not, ◌&&◌,
  ◌||◌, ltb, leb, ◌==◌, if◌then◌else◌, length, keep, Result, ok, err,
}
use ansina.Heart.Decision.{codes, same}

pub record Migration : Type 0 where
  pub version : ℕ
  pub name : List ℕ
  pub sql : List ℕ

-- What `root.iterdir()` yields.
pub record Entry : Type 0 where
  pub is_file : Bool
  pub name : List ℕ
  pub text : List ℕ

-- A row of `schema_version`.
pub record Applied : Type 0 where
  pub version : ℕ
  pub name : List ℕ

-- `versions` is `none` as long as there is no table `schema_version`.
pub record Database (S : Type 0) : Type 0 where
  pub schema : S
  pub versions : Option (List Applied)

pub data MigrationError : Type 0 where
  duplicate_version not_contiguous applied_not_contiguous newer_schema : MigrationError
  failed : ℕ → MigrationError

abbrev lower_case : ℕ → Bool
lower_case c = (leb 97 c && leb c 122) || (leb 48 c && leb c 57) || c == 95

-- `[a-z0-9_]+` as far as it goes, and the rest.
unfoldable pub span : List ℕ → List ℕ × List ℕ
span [] = ([], [])
span (c ∷ cs) =
    let (word, rest) = span cs in if lower_case c then (c ∷ word, rest) else ([], c ∷ cs)

abbrev ends : List ℕ → Bool
ends rest = same rest (codes ".sql") || same rest (codes ".sql\n")

abbrev named : List ℕ × List ℕ → Option (List ℕ)
named ([], rest) = none
named (c ∷ word, rest) = if ends rest then some (c ∷ word) else none

abbrev numbered : Option ℕ → Option ℕ → Option ℕ → Option ℕ → Option (List ℕ) → Option (ℕ × List ℕ)
numbered (some a) (some b) (some c) (some d) (some word) =
    some (((a * 10 + b) * 10 + c) * 10 + d, word)
numbered _ _ _ _ _ = none

-- `_MIGRATION_PATTERN.match`, for what `\d` is.
unfoldable pub match_name : (ℕ → Option ℕ) → List ℕ → Option (ℕ × List ℕ)
unfolding span
match_name digit (a ∷ b ∷ c ∷ d ∷ e ∷ rest) =
    if e == 95 then numbered (digit a) (digit b) (digit c) (digit d) (named (span rest)) else none
match_name digit _ = none

unfoldable pub has_version : ℕ → List Migration → Bool
has_version v [] = false
has_version v (m ∷ ms) = m.version == v || has_version v ms

-- The loop over the entries, with the migrations that are found so far.
unfoldable pub found :
    (ℕ → Option ℕ) → List Migration → List Entry → Result MigrationError (List Migration)
unfolding match_name has_version
found digit ms [] = ok ms
found digit ms (e ∷ es) = elim (if e.is_file then match_name digit e.name else none) [
  | none ↦ found digit ms es
  | some (v, word) ↦
      let rest = found digit (record { version = v; name = word; sql = e.text } ∷ ms) es in
      if has_version v ms then err duplicate_version else rest
]

unfoldable pub insert_version : Migration → List Migration → List Migration
insert_version m [] = m ∷ []
insert_version m (n ∷ ns) =
    let rest = insert_version m ns in if leb n.version m.version then n ∷ rest else m ∷ n ∷ ns

unfoldable pub sort_versions : List Migration → List Migration
unfolding insert_version
sort_versions [] = []
sort_versions (m ∷ ms) = insert_version m (sort_versions ms)

-- Whether the numbers are n, n + 1, … in their order.
unfoldable pub contiguous : ℕ → List ℕ → Bool
contiguous n [] = true
contiguous n (v ∷ vs) = v == n && contiguous (suc n) vs

unfoldable pub versions_of : List Migration → List ℕ
versions_of [] = []
versions_of (m ∷ ms) = m.version ∷ versions_of ms

abbrev pub checked : Result MigrationError (List Migration) → Result MigrationError (List Migration)
checked (err e) = err e
checked (ok ms) =
    let sorted = sort_versions ms in
    if contiguous 1 (versions_of sorted) then ok sorted else err not_contiguous

unfoldable pub discover_migrations :
    (ℕ → Option ℕ) → List Entry → Result MigrationError (List Migration)
unfolding found sort_versions contiguous versions_of
discover_migrations digit es = checked (found digit [] es)

abbrev pub behind : Applied → Option (List Applied) → Option (List Applied)
behind r none = none
behind r (some rs) = some (r ∷ rs)

-- `INSERT INTO schema_version`: the rows stand in the order of their primary key.
unfoldable pub insert_row : Applied → List Applied → Option (List Applied)
insert_row a [] = some (a ∷ [])
insert_row a (r ∷ rs) =
    let rest = insert_row a rs in
    if a.version == r.version
    then none
    else if ltb a.version r.version
    then some (a ∷ r ∷ rs)
    else behind r rest

unfoldable pub numbers : List Applied → List ℕ
numbers [] = []
numbers (a ∷ as') = a.version ∷ numbers as'

abbrev pub rows : Option (List Applied) → List Applied
rows none = []
rows (some as') = as'

-- `applied[-1]`, or 0.
unfoldable pub last_version : List ℕ → ℕ
last_version [] = 0
last_version (v ∷ []) = v
last_version (v ∷ w ∷ vs) = last_version (w ∷ vs)

abbrev pub pending : ℕ → List Migration → List Migration
pending current = keep (λ m. ltb current m.version)

module _ {S : Type 0} where
  -- `_applied_versions`
  unfoldable pub applied_versions : Database S → List ℕ
  unfolding numbers
  applied_versions db = numbers (rows db.versions)

  abbrev recorded : Database S → Option (List Applied) → Option (Database S)
  recorded db none = none
  recorded db (some as') = some (record db { versions = some as' })

  -- The insertion fails as long as the table does not exist.
  unfoldable pub record_version : Migration → Database S → Option (Database S)
  unfolding insert_row
  record_version m db = elim db.versions [
    | none ↦ none
    | some as' ↦ recorded db (insert_row (record { version = m.version; name = m.name }) as')
  ]

  module _ (execute : List ℕ → Database S → Option (Database S)) where
    -- One transaction: `none` is its rollback, which the exception follows.
    unfoldable pub apply : Migration → Database S → Option (Database S)
    unfolding record_version
    apply m db = elim (execute m.sql db) [ none ↦ none | some db' ↦ record_version m db' ]

    unfoldable pub apply_all : List Migration → Database S → Database S × Option MigrationError
    unfolding apply
    apply_all [] db = (db, none)
    apply_all (m ∷ ms) db = elim (apply m db) [
      | none ↦ (db, some (failed m.version))
      | some db' ↦ apply_all ms db'
    ]

    -- `run_migrations` behind the discovery.
    unfoldable pub run_discovered : List Migration → Database S → Database S × Option MigrationError
    unfolding applied_versions contiguous last_version versions_of apply_all keep
    run_discovered ms db =
        if not (contiguous 1 (applied_versions db))
        then (db, some applied_not_contiguous)
        else if ltb (last_version (versions_of ms)) (last_version (applied_versions db))
        then (db, some newer_schema)
        else apply_all (pending (last_version (applied_versions db)) ms) db

    unfoldable pub run_migrations :
        (ℕ → Option ℕ) → List Entry → Database S → Database S × Option MigrationError
    unfolding discover_migrations run_discovered
    run_migrations digit es db = elim (discover_migrations digit es) [
      | err e ↦ (db, some e)
      | ok ms ↦ run_discovered ms db
    ]
