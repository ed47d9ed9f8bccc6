-- ===== src/Opencode/Repository/Laws.antt =====
-- The laws of the `opencode_runs` table.
use ansina.Prelude.{
  ℕ, ◌≡◌, ◌≢◌, refl, Option, none, some, [], ◌∷◌, ◌++◌, Bool, true, false, ◌==◌, if◌then◌else◌,
  arith, Bool-cases, Option-cases, inl, inr,
}
use ansina.Opencode.Run.{Status, OpencodeRun, Changes, is_terminal}
use ansina.Opencode.Repository.{
  Table, with_changes, update_where, count_where, get, is_open, update_status,
}

-- The primary key: no two rows have one id.
abbrev pub Unique : Table → Type 0
Unique [] = Unit
Unique (r ∷ t) = (get r.id t ≡ none) × Unique t

abbrev pub update_found : Bool → (OpencodeRun → OpencodeRun) → OpencodeRun → OpencodeRun
update_found b f r = if b then f r else r

abbrev pub map_found : (OpencodeRun → OpencodeRun) → Option OpencodeRun → Option OpencodeRun
map_found f none = none
map_found f (some r) = some (f r)

-- A replacement of rows that leaves ids alone acts on each row that `get` finds.
pub get-update_where :
    (test : OpencodeRun → Bool) (f : OpencodeRun → OpencodeRun) (id : ℕ) (t : Table)
    → ((r : OpencodeRun) → (f r).id ≡ r.id)
    → get id (update_where test f t) ≡ map_found (λ r. if test r then f r else r) (get id t)
unfolding get update_where
get-update_where test f id [] same = refl
get-update_where test f id (r ∷ t) same = ground (arith, same r, get-update_where test f id t same)

pub update_where-Unique :
    (test : OpencodeRun → Bool) (f : OpencodeRun → OpencodeRun) (t : Table)
    → ((r : OpencodeRun) → (f r).id ≡ r.id)
    → Unique t
    → Unique (update_where test f t)
unfolding update_where
update_where-Unique test f [] same u = tt
update_where-Unique test f (r ∷ t) same u =
    let kept : (update_found (test r) f r).id ≡ r.id = ground (arith, same r) in
    (
      rw (kept, get-update_where test f r.id t same, u.0) refl,
      update_where-Unique test f t same u.1,
    )

pub get-append :
    (id : ℕ) (t : Table) (r : OpencodeRun)
    → get id t ≡ none
    → get id (t ++ r ∷ []) ≡ (if r.id == id then some r else none)
unfolding get
get-append id [] r e = refl
get-append id (x ∷ t) r e = ground (arith, get-append id t r)

pub get-append_old :
    (id : ℕ) (t : Table) (x r : OpencodeRun) → get id t ≡ some x → get id (t ++ r ∷ []) ≡ some x
unfolding get
get-append_old id [] x r e = cc
get-append_old id (y ∷ t) x r e = ground (arith, get-append_old id t x r)

pub get-id : (id : ℕ) (t : Table) (r : OpencodeRun) → get id t ≡ some r → r.id ≡ id
unfolding get
get-id id [] r e = cc
get-id id (x ∷ t) r e = ground (arith, get-id id t r)

count-none : (id : ℕ) (t : Table) → get id t ≡ none → count_where (is_open id) t ≡ 0
unfolding get count_where
count-none id [] e = refl
count-none id (r ∷ t) e = ground (arith, count-none id t)

pub count-found :
    (id : ℕ) (t : Table) (r : OpencodeRun)
    → Unique t
    → get id t ≡ some r
    → count_where (is_open id) t ≡ (if is_terminal r.status then 0 else 1)
unfolding get count_where
count-found id [] r u e = cc
count-found id (x ∷ t) r u e = elim (Bool-cases (x.id == id)) [
  | inl here ↦
      let same : x.id ≡ id = ground arith in
      let rest : count_where (is_open id) t ≡ 0 = count-none id t (rw same at u.0) in
      let row : x ≡ r = ground arith in rw (here, rest, row) (ground arith)
  | inr there ↦ rw there (count-found id t r u.1 (ground arith))
]

with_changes-id : (s : Status) (c : Changes) (r : OpencodeRun) → (with_changes s c r).id ≡ r.id
unfolding with_changes
with_changes-id s c r = refl

with_changes-status : (s : Status) (c : Changes) (r : OpencodeRun) → (with_changes s c r).status ≡ s
unfolding with_changes
with_changes-status s c r = refl

updated_row :
    (id : ℕ) (s : Status) (c : Changes) (t : Table) (r : OpencodeRun)
    → get id t ≡ some r
    → is_terminal r.status ≡ false
    → get id (update_where (is_open id) (with_changes s c) t) ≡ some (with_changes s c r)
updated_row id s c t r e op =
    rw (get-update_where (is_open id) (with_changes s c) id t (with_changes-id s c), e)
      (ground (arith, get-id id t r e))

other_row :
    (id : ℕ) (s : Status) (c : Changes) (t : Table) (j : ℕ)
    → j ≢ id
    → get j (update_where (is_open id) (with_changes s c) t) ≡ get j t
other_row id s c t j ne =
    rw (get-update_where (is_open id) (with_changes s c) j t (with_changes-id s c))
      (elim (Option-cases (get j t)) [
        | inl missing ↦ rw missing refl
        | inr (r, e) ↦ rw e (ground (arith, get-id j t r e))
      ])

-- In a table whose ids are unique, `update_status` of a row that is not terminal succeeds: it gives
-- that row the new status and the columns that were passed, and leaves every other row as it is.
pub update_status-open :
    (id : ℕ) (s : Status) (c : Changes) (t : Table) (r : OpencodeRun)
    → Unique t
    → get id t ≡ some r
    → is_terminal r.status ≡ false
    → (u : Table) × (update_status id s c t ≡ some u)
      × (get id u ≡ some (with_changes s c r))
      × ((j : ℕ) → j ≢ id → get j u ≡ get j t)
unfolding update_status
update_status-open id s c t r unique e op = (
  update_where (is_open id) (with_changes s c) t,
  rw (count-found id t r unique e, op) refl,
  updated_row id s c t r e op,
  λ j ne. other_row id s c t j ne,
)

-- In a table whose ids are unique, `update_status` of a row with a terminal status, or of an id
-- without a row, is refused.
pub update_status-closed :
    (id : ℕ) (s : Status) (c : Changes) (t : Table)
    → Unique t
    → ((r : OpencodeRun) → get id t ≡ some r → is_terminal r.status ≡ true)
    → update_status id s c t ≡ none
unfolding update_status
update_status-closed id s c t unique closed = elim (Option-cases (get id t)) [
  | inl missing ↦ rw (count-none id t missing) refl
  | inr (r, e) ↦ rw (count-found id t r unique e, closed r e) refl
]
