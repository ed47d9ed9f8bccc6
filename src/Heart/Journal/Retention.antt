-- ===== src/Heart/Journal/Retention.antt =====
-- What `append` and its sweep leave: the newest rows that are not too old.
use ansina.Prelude.{
  ℕ, ◌+◌, ◌-◌, ◌≤◌, ◌≡◌, refl, ap, ◌∙◌, inl, inr, some, List, [], ◌∷◌, ◌++◌, Bool, false, not, ◌&&◌,
  ◌||◌, length, ltb, ◌==◌, arith, keep, In, All-In, Bool-cases,
}
use ansina.Clock.{parse_iso}
use ansina.Heart.Journal.{
  JournalEntry, newer, insert_entry, by_newest, id_among, cutoff, sweep, append,
}
use ansina.Heart.Journal.Newest.{
  count_newer, Distinct, Sorted, Newer, by_newest-Sorted, id_among-by_newest, id_among-insert_entry,
  In-by_newest, count_newer-by_newest, id_among_newest, count_newer_first, newer_irrefl,
}

keep_congr :
    (p q : JournalEntry → Bool) (xs : List JournalEntry)
    → ((e : JournalEntry) → In e xs → p e ≡ q e)
    → keep p xs ≡ keep q xs
unfolding keep
keep_congr p q [] h = refl
keep_congr p q (x ∷ xs) h = ground (arith, h x (inl refl), keep_congr p q xs (λ e i. h e (inr i)))

id_among-keep :
    (n : ℕ) (p : JournalEntry → Bool) (xs : List JournalEntry)
    → id_among n xs ≡ false
    → id_among n (keep p xs) ≡ false
unfolding id_among keep
id_among-keep n p [] h = refl
id_among-keep n p (x ∷ xs) h = ground (arith, id_among-keep n p xs)

Distinct-keep :
    (p : JournalEntry → Bool) (xs : List JournalEntry) → Distinct xs → Distinct (keep p xs)
unfolding keep
Distinct-keep p [] d = tt
Distinct-keep p (x ∷ xs) (fresh, d) = elim (Bool-cases (p x)) [
  | inl kept ↦ rw kept (id_among-keep x.id p xs fresh, Distinct-keep p xs d)
  | inr gone ↦ rw gone (Distinct-keep p xs d)
]

id_among-snoc :
    (n : ℕ) (e : JournalEntry) (xs : List JournalEntry)
    → id_among n (xs ++ e ∷ []) ≡ id_among n xs || e.id == n
unfolding id_among
id_among-snoc n e [] = ground arith
id_among-snoc n e (x ∷ xs) = ground (arith, id_among-snoc n e xs)

Distinct-snoc :
    (e : JournalEntry) (xs : List JournalEntry)
    → id_among e.id xs ≡ false
    → Distinct xs
    → Distinct (xs ++ e ∷ [])
unfolding id_among
Distinct-snoc e [] fresh d = (refl, tt)
Distinct-snoc e (x ∷ xs) fresh (new, d) =
    (ground (arith, id_among-snoc x.id e xs), Distinct-snoc e xs (ground arith) d)

Distinct-insert_entry :
    (x : JournalEntry) (xs : List JournalEntry)
    → id_among x.id xs ≡ false
    → Distinct xs
    → Distinct (insert_entry x xs)
unfolding insert_entry id_among
Distinct-insert_entry x [] fresh d = (refl, tt)
Distinct-insert_entry x (y ∷ ys) fresh (new, d) = elim (Bool-cases (newer x y)) [
  | inl before ↦ rw before (fresh, (new, d))
  | inr behind ↦
      rw behind (
        ground (arith, id_among-insert_entry y.id x ys),
        Distinct-insert_entry x ys (ground arith) d,
      )
]

Distinct-by_newest : (xs : List JournalEntry) → Distinct xs → Distinct (by_newest xs)
unfolding by_newest
Distinct-by_newest [] d = tt
Distinct-by_newest (x ∷ xs) (fresh, d) =
    Distinct-insert_entry x (by_newest xs) (id_among-by_newest x.id xs ∙ fresh)
      (Distinct-by_newest xs d)

length-keep-insert_entry :
    (p : JournalEntry → Bool) (x : JournalEntry) (xs : List JournalEntry)
    → length (keep p (insert_entry x xs)) ≡ length (keep p (x ∷ xs))
unfolding insert_entry keep
length-keep-insert_entry p x [] = refl
length-keep-insert_entry p x (y ∷ ys) = ground (arith, length-keep-insert_entry p x ys)

length-keep-by_newest :
    (p : JournalEntry → Bool) (xs : List JournalEntry)
    → length (keep p (by_newest xs)) ≡ length (keep p xs)
unfolding by_newest keep
length-keep-by_newest p [] = refl
length-keep-by_newest p (x ∷ xs) =
    ground (arith, length-keep-insert_entry p x (by_newest xs), length-keep-by_newest p xs)

length-keep-and :
    (p q : JournalEntry → Bool) (xs : List JournalEntry)
    → length (keep (λ e. p e && q e) xs) ≤ length (keep q xs)
unfolding keep
length-keep-and p q [] = omega arith
length-keep-and p q (x ∷ xs) = ground (arith, length-keep-and p q xs)

pub length-keep :
    (p : JournalEntry → Bool) (xs : List JournalEntry) → length (keep p xs) ≤ length xs
unfolding keep
length-keep p [] = omega arith
length-keep p (x ∷ xs) = ground (arith, length-keep p xs)

-- Fewer than `n` rows, of which `k` are newer than the whole list, leave room for `n - k`.
length-keep-ranked :
    (k n : ℕ) (xs : List JournalEntry)
    → Sorted xs
    → length (keep (λ e. ltb (k + count_newer e xs) n) xs) ≤ n - k
unfolding keep
length-keep-ranked k n [] s = omega arith
length-keep-ranked k n (x ∷ xs) (first, s) =
    let shifted : keep (λ e. ltb (k + count_newer e (x ∷ xs)) n) xs
        ≡ keep (λ e. ltb (k + 1 + count_newer e xs) n) xs =
      keep_congr _ _ xs (λ e i. ground (arith, All-In (Newer x) xs first i)) in
    ground (
      arith,
      ap (λ (l : List JournalEntry). length l) shifted,
      newer_irrefl x,
      count_newer_first x xs first,
      length-keep-ranked (k + 1) n xs s,
    )

abbrev pub is_young : ℕ → JournalEntry → Bool
is_young oldest e = not (ltb e.created_at oldest)

-- The rows that are not older than `oldest` and than which fewer than `max_entries` are newer.
unfoldable pub retained : ℕ → ℕ → List JournalEntry → List JournalEntry
unfolding keep
retained oldest max_entries rows =
    keep (λ e. is_young oldest e && ltb (count_newer e rows) max_entries) rows

sweep-retained :
    (now m d : ℕ) (rows : List JournalEntry)
    → Distinct rows
    → (sweep now m d rows).0 ≡ retained (cutoff now d) m rows
unfolding sweep retained
sweep-retained now m d rows distinct = keep_congr _ _ rows (λ e i. ground (
  arith,
  id_among_newest e m (by_newest rows) (by_newest-Sorted rows distinct)
      (Distinct-by_newest rows distinct) (In-by_newest e rows i),
  count_newer-by_newest e rows,
))

length-retained :
    (oldest m : ℕ) (rows : List JournalEntry) → Distinct rows → length (retained oldest m rows) ≤ m
unfolding retained
length-retained oldest m rows d =
    let ranked : keep (λ e. ltb (count_newer e rows) m) (by_newest rows)
        ≡ keep (λ e. ltb (0 + count_newer e (by_newest rows)) m) (by_newest rows) =
      keep_congr _ _ (by_newest rows) (λ e i. ground (arith, count_newer-by_newest e rows)) in
    omega (
      arith,
      length-keep-and (is_young oldest) (λ e. ltb (count_newer e rows) m) rows,
      length-keep-by_newest (λ e. ltb (count_newer e rows) m) rows,
      ap (λ (l : List JournalEntry). length l) ranked,
      length-keep-ranked 0 m (by_newest rows) (by_newest-Sorted rows d),
    )

-- Into a table whose ids are distinct, a row with a new id is always written. The table is then
-- what the two bounds say, counted after the write: the rows that are not older than the retention,
-- with fewer than `max_entries` newer rows. There are at most `max_entries` of them, and their ids
-- are distinct again.
pub append-retained :
    (e : JournalEntry) (max_entries retention_days : ℕ) (rows : List JournalEntry)
    → Distinct rows
    → id_among e.id rows ≡ false
    → (left : List JournalEntry) × (append e max_entries retention_days rows ≡ some (e, left))
      × (left
          ≡ retained (cutoff (parse_iso e.created_at) retention_days) max_entries (rows ++ e ∷ []))
      × (length left ≤ max_entries)
      × Distinct left
unfolding append
append-retained e m d rows distinct fresh =
    let all = Distinct-snoc e rows fresh distinct in
    let swept = sweep-retained (parse_iso e.created_at) m d (rows ++ e ∷ []) all in
    (
      retained (cutoff (parse_iso e.created_at) d) m (rows ++ e ∷ []),
      rw (fresh, swept) refl,
      refl,
      length-retained _ m (rows ++ e ∷ []) all,
      unfold retained in Distinct-keep _ (rows ++ e ∷ []) all,
    )

-- `sweep` keeps the rows of the two bounds and returns how many rows it deleted.
pub sweep_lem :
    (now max_entries retention_days : ℕ) (rows : List JournalEntry)
    → Distinct rows
    → let left = retained (cutoff now retention_days) max_entries rows in
      (sweep now max_entries retention_days rows ≡ (left, length rows - length left))
unfolding sweep
sweep_lem now m d rows distinct = rw (← sweep-retained now m d rows distinct) refl
