-- ===== src/Heart/Journal/Newest.antt =====
-- Which rows the subselect of `sweep` finds: those with fewer than `LIMIT` newer rows.
use ansina.Prelude.{
  ℕ, zero, suc, ◌≡◌, refl, ap, ◌∙◌, inl, inr, List, [], ◌∷◌, true, false, ltb, ◌==◌, if◌then◌else◌,
  arith, All, In, All-In, Bool-cases,
}
use ansina.Heart.Journal.{JournalEntry, newer, insert_entry, by_newest, take, id_among}

-- How many rows are newer than `e`.
abbrev pub count_newer : JournalEntry → List JournalEntry → ℕ
count_newer e [] = 0
count_newer e (x ∷ xs) = if newer x e then suc (count_newer e xs) else count_newer e xs

-- No two rows have one id.
abbrev pub Distinct : List JournalEntry → Type 0
Distinct [] = Unit {0}
Distinct (x ∷ xs) = (id_among x.id xs ≡ false) × Distinct xs

abbrev pub Newer : JournalEntry → JournalEntry → Type 0
Newer x y = newer x y ≡ true

-- The newest row stands first, and no two rows are as new.
abbrev pub Sorted : List JournalEntry → Type 0
Sorted [] = Unit {0}
Sorted (x ∷ xs) = All (Newer x) xs × Sorted xs

Newer-trans : (x y z : JournalEntry) → Newer x y → Newer y z → Newer x z
Newer-trans x y z p q = ground arith

newer_total : (x y : JournalEntry) → (x.id == y.id) ≡ false → newer x y ≡ false → Newer y x
newer_total x y apart h = ground arith

newer_asym : (x y : JournalEntry) → Newer x y → newer y x ≡ false
newer_asym x y h = ground arith

All-Newer :
    (x y : JournalEntry) (xs : List JournalEntry) → Newer x y → All (Newer y) xs → All (Newer x) xs
All-Newer x y [] h all = tt
All-Newer x y (z ∷ zs) h (first, rest) = (Newer-trans x y z h first, All-Newer x y zs h rest)

module _ (P : JournalEntry → Type 0) where
  pub All-insert_entry :
      (x : JournalEntry) (xs : List JournalEntry) → P x → All P xs → All P (insert_entry x xs)
  unfolding insert_entry
  All-insert_entry x [] p all = (p, tt)
  All-insert_entry x (y ∷ ys) p (q, all) = elim (Bool-cases (newer x y)) [
    | inl before ↦ rw before (p, (q, all))
    | inr behind ↦ rw behind (q, All-insert_entry x ys p all)
  ]

  pub All-by_newest : (xs : List JournalEntry) → All P xs → All P (by_newest xs)
  unfolding by_newest
  All-by_newest [] all = tt
  All-by_newest (x ∷ xs) (p, all) = All-insert_entry x (by_newest xs) p (All-by_newest xs all)

pub id_among-insert_entry :
    (n : ℕ) (x : JournalEntry) (xs : List JournalEntry)
    → id_among n (insert_entry x xs) ≡ id_among n (x ∷ xs)
unfolding insert_entry id_among
id_among-insert_entry n x [] = refl
id_among-insert_entry n x (y ∷ ys) = ground (arith, id_among-insert_entry n x ys)

pub id_among-by_newest :
    (n : ℕ) (xs : List JournalEntry) → id_among n (by_newest xs) ≡ id_among n xs
unfolding by_newest id_among
id_among-by_newest n [] = refl
id_among-by_newest n (x ∷ xs) =
    ground (arith, id_among-insert_entry n x (by_newest xs), id_among-by_newest n xs)

insert_entry-Sorted :
    (x : JournalEntry) (xs : List JournalEntry)
    → id_among x.id xs ≡ false
    → Sorted xs
    → Sorted (insert_entry x xs)
unfolding insert_entry id_among
insert_entry-Sorted x [] fresh s = (tt, tt)
insert_entry-Sorted x (y ∷ ys) fresh (first, s) = elim (Bool-cases (newer x y)) [
  | inl before ↦ rw before ((before, All-Newer x y ys before first), (first, s))
  | inr behind ↦ rw behind (
    All-insert_entry (Newer y) x ys (newer_total x y (ground arith) behind) first,
    insert_entry-Sorted x ys (ground arith) s,
  )
]

pub by_newest-Sorted : (xs : List JournalEntry) → Distinct xs → Sorted (by_newest xs)
unfolding by_newest
by_newest-Sorted [] d = tt
by_newest-Sorted (x ∷ xs) (fresh, d) =
    insert_entry-Sorted x (by_newest xs) (id_among-by_newest x.id xs ∙ fresh)
      (by_newest-Sorted xs d)

In-insert_entry :
    (e x : JournalEntry) (xs : List JournalEntry) → In e (x ∷ xs) → In e (insert_entry x xs)
unfolding insert_entry
In-insert_entry e x [] i = i
In-insert_entry e x (y ∷ ys) i = elim (Bool-cases (newer x y)) [
  | inl before ↦ rw before i
  | inr behind ↦ rw behind (elim i [
    | inl same ↦ inr (In-insert_entry e x ys (inl same))
    | inr (inl same) ↦ inl same
    | inr (inr later) ↦ inr (In-insert_entry e x ys (inr later))
  ])
]

pub In-by_newest : (e : JournalEntry) (xs : List JournalEntry) → In e xs → In e (by_newest xs)
unfolding by_newest
In-by_newest e [] i = elim i [ ]
In-by_newest e (x ∷ xs) (inl same) = In-insert_entry e x (by_newest xs) (inl same)
In-by_newest e (x ∷ xs) (inr i) = In-insert_entry e x (by_newest xs) (inr (In-by_newest e xs i))

count_newer-insert_entry :
    (e x : JournalEntry) (xs : List JournalEntry)
    → count_newer e (insert_entry x xs) ≡ count_newer e (x ∷ xs)
unfolding insert_entry
count_newer-insert_entry e x [] = refl
count_newer-insert_entry e x (y ∷ ys) = ground (arith, count_newer-insert_entry e x ys)

pub count_newer-by_newest :
    (e : JournalEntry) (xs : List JournalEntry) → count_newer e (by_newest xs) ≡ count_newer e xs
unfolding by_newest
count_newer-by_newest e [] = refl
count_newer-by_newest e (x ∷ xs) =
    ground (arith, count_newer-insert_entry e x (by_newest xs), count_newer-by_newest e xs)

-- The newest row of a sorted list has no newer one.
pub count_newer_first :
    (x : JournalEntry) (xs : List JournalEntry) → All (Newer x) xs → count_newer x xs ≡ 0
count_newer_first x [] all = refl
count_newer_first x (y ∷ ys) (first, all) =
    ground (arith, newer_asym x y first, count_newer_first x ys all)

pub newer_irrefl : (x : JournalEntry) → newer x x ≡ false
newer_irrefl x = ground arith

id_among-take :
    (i n : ℕ) (xs : List JournalEntry) → id_among i xs ≡ false → id_among i (take n xs) ≡ false
unfolding id_among take
id_among-take i zero xs h = refl
id_among-take i (suc n) [] h = refl
id_among-take i (suc n) (x ∷ xs) h = ground (arith, id_among-take i n xs)

In-id_among : (e : JournalEntry) (xs : List JournalEntry) → In e xs → id_among e.id xs ≡ true
unfolding id_among
In-id_among e [] i = elim i [ ]
In-id_among e (x ∷ xs) (inl same) = rw same (ground arith)
In-id_among e (x ∷ xs) (inr i) = ground (arith, In-id_among e xs i)

-- A row of a sorted table is among the first `n` if, and only if, fewer than `n` rows are newer.
pub id_among_newest :
    (e : JournalEntry) (n : ℕ) (xs : List JournalEntry)
    → Sorted xs
    → Distinct xs
    → In e xs
    → id_among e.id (take n xs) ≡ ltb (count_newer e xs) n
unfolding take id_among
id_among_newest e zero xs s d i = ground arith
id_among_newest e (suc n) [] s d i = elim i [ ]
id_among_newest e (suc n) (x ∷ xs) (first, s) (fresh, d) (inl same) =
    rw (← same) (ground (arith, newer_irrefl x, count_newer_first x xs first))
id_among_newest e (suc n) (x ∷ xs) (first, s) (fresh, d) (inr i) =
    let apart : (x.id == e.id) ≡ false = elim (Bool-cases (x.id == e.id)) [
      | inl eq ↦ absurd (
          ground (
            arith,
            In-id_among e xs i,
            ap (λ k. id_among k xs) (let p : x.id ≡ e.id = ground arith in p),
          ))
      | inr ne ↦ ne
    ] in
    ground (arith, apart, All-In (Newer x) xs first i, id_among_newest e n xs s d i)
