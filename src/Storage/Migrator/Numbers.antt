-- ===== src/Storage/Migrator/Numbers.antt =====
-- The numbers of the migrations, and the rows that they leave, have no gap.
use ansina.Prelude.{
  ℕ, suc, ◌+◌, ◌≤◌, ◌<◌, ◌≡◌, refl, ap, ◌∙◌, some, List, [], ◌∷◌, ◌++◌, true, false, ltb, ◌==◌,
  length, keep, arith, Bool-cases, inl, inr, Result, ok, err,
}
use ansina.Storage.Migrator.{
  Migration, Applied, MigrationError, contiguous, versions_of, insert_row, numbers, last_version,
  pending, checked, sort_versions,
}

pub contiguous-snoc :
    (n : ℕ) (vs : List ℕ)
    → contiguous n vs ≡ true
    → contiguous n (vs ++ (n + length vs) ∷ []) ≡ true
unfolding contiguous
contiguous-snoc n [] h = ground arith
contiguous-snoc n (v ∷ vs) h =
    let rest : contiguous (suc n) vs ≡ true = ground arith in
    let moved : suc n + length vs ≡ n + suc (length vs) = omega arith in
    let step = contiguous-snoc (suc n) vs rest in
    let later : contiguous (suc n) (vs ++ (n + suc (length vs)) ∷ []) ≡ true = rw (← moved) step in
    rw later (ground arith)

last_version-contiguous :
    (n : ℕ) (vs : List ℕ) → contiguous (suc n) vs ≡ true → last_version (n ∷ vs) ≡ n + length vs
unfolding contiguous last_version
last_version-contiguous n [] h = omega arith
last_version-contiguous n (v ∷ vs) h =
    let same : v ≡ suc n = ground arith in
    let rest : contiguous (suc (suc n)) vs ≡ true = ground arith in
    let tail : last_version (v ∷ vs) ≡ suc n + length vs =
      ap (λ x. last_version (x ∷ vs)) same ∙ last_version-contiguous (suc n) vs rest in
    omega (arith, tail)

pub last_version-length : (vs : List ℕ) → contiguous 1 vs ≡ true → last_version vs ≡ length vs
unfolding contiguous last_version
last_version-length [] h = refl
last_version-length (v ∷ vs) h =
    let same : v ≡ 1 = ground arith in
    let rest : contiguous 2 vs ≡ true = ground arith in
    let all : last_version (v ∷ vs) ≡ 1 + length vs =
      ap (λ x. last_version (x ∷ vs)) same ∙ last_version-contiguous 1 vs rest in
    omega (arith, all)

pub length-versions_of : (ms : List Migration) → length (versions_of ms) ≡ length ms
unfolding versions_of
length-versions_of [] = refl
length-versions_of (m ∷ ms) = ap suc (length-versions_of ms)

-- The next number goes to the end of the table.
pub numbers-insert_row :
    (n : ℕ) (a : Applied) (as' : List Applied)
    → contiguous n (numbers as') ≡ true
    → a.version ≡ n + length (numbers as')
    → (insert_row a as' ≡ some (as' ++ a ∷ []))
      × (numbers (as' ++ a ∷ []) ≡ numbers as' ++ a.version ∷ [])
unfolding contiguous numbers insert_row
numbers-insert_row n a [] h e = (refl, refl)
numbers-insert_row n a (r ∷ rs) h e =
    let rest : contiguous (suc n) (numbers rs) ≡ true = ground arith in
    let first : r.version ≡ n = ground arith in
    let (there, same) = numbers-insert_row (suc n) a rs rest (omega arith) in
    let differs : (a.version == r.version) ≡ false = ground arith in
    let above : ltb a.version r.version ≡ false = ground arith in
    (rw (differs, above, there) refl, rw same refl)

-- What is pending follows what is applied.
pending-all :
    (c n : ℕ) (ms : List Migration)
    → contiguous n (versions_of ms) ≡ true
    → c < n
    → pending c ms ≡ ms
unfolding contiguous versions_of keep
pending-all c n [] h l = refl
pending-all c n (m ∷ ms) h l =
    let rest : contiguous (suc n) (versions_of ms) ≡ true = ground arith in
    let newer : ltb c m.version ≡ true = ground arith in
    rw (newer, pending-all c (suc n) ms rest (omega arith)) refl

pub pending-contiguous :
    (c n : ℕ) (ms : List Migration)
    → contiguous n (versions_of ms) ≡ true
    → n ≤ suc c
    → suc c ≤ n + length ms
    → (contiguous (suc c) (versions_of (pending c ms)) ≡ true)
      × (suc c + length (pending c ms) ≡ n + length ms)
unfolding contiguous versions_of keep
pending-contiguous c n [] h l k = (refl, omega arith)
pending-contiguous c n (m ∷ ms) h l k =
    let rest : contiguous (suc n) (versions_of ms) ≡ true = ground arith in
    let first : m.version ≡ n = ground arith in
    elim (Bool-cases (ltb c m.version)) [
      | inl newer ↦
          let same : n ≡ suc c = ground arith in
          rw (newer, pending-all c (suc n) ms rest (omega arith)) (rw (← same) h, omega arith)
      | inr older ↦
          let (a, b) = pending-contiguous c (suc n) ms rest (ground arith) (omega arith) in
          rw older (a, omega arith)
    ]

pub checked-contiguous :
    (r : Result MigrationError (List Migration)) (ms : List Migration)
    → checked r ≡ ok ms
    → contiguous 1 (versions_of ms) ≡ true
checked-contiguous (err e) ms h = cc
checked-contiguous (ok all) ms h =
    elim (Bool-cases (contiguous 1 (versions_of (sort_versions all)))) [
      | inl fine ↦
          let kept : ok (sort_versions all) ≡ ok ms = rw fine at h in
          let same : sort_versions all ≡ ms = ground arith in rw (← same) fine
      | inr gap ↦ let bad : err MigrationError.not_contiguous ≡ ok ms = rw gap at h in cc
    ]
