-- ===== src/Heart/Curation/RoundTrip.antt =====
-- A list of event numbers, written out as the prompt asks for it, is parsed back.
use mathlib.Core.List.{append_assoc, append-nil, concat-ne-nil}
use ansina.Prelude.{
  ℕ, zero, suc, ◌+◌, ◌*◌, ◌/◌, ◌%◌, ◌≤◌, ◌<◌, ◌≡◌, ◌≢◌, refl, ap, sym, ◌∙◌, Option, none, some,
  List, [], ◌∷◌, ◌++◌, true, false, ltb, ◌==◌, arith, length, ok, Bool-cases, inl, inr, All,
}
use ansina.Heart.Decision.{after_last, after_prefix, think_end, get_or, after_thinking}
use ansina.Heart.Curation.{
  digits_from, decimal, member, is_some, or_zero, is_digit, digit_or_zero, value_from, runs,
  collect, digit_limit, try_parse_curation,
}

-- What the parser needs of the table of digits.
pub record ReadsAscii (digit : ℕ → Option ℕ) : Type 0 where
  pub ten : (d : ℕ) → d < 10 → digit (48 + d) ≡ some d
  pub comma : digit 44 ≡ none
  pub blank : digit 32 ≡ none

-- The numbers, with a comma and a blank in between.
pub listing : List ℕ → List ℕ
listing [] = []
listing (n ∷ []) = decimal n
listing (n ∷ m ∷ ns) = decimal n ++ (44 ∷ 32 ∷ listing (m ∷ ns))

-- Neither digits nor separators begin a tag.
abbrev Low : List ℕ → Type 0
Low = All (λ c. c ≤ 57)

Low-append : (xs ys : List ℕ) → Low xs → Low ys → Low (xs ++ ys)
Low-append [] ys p q = q
Low-append (x ∷ xs) ys (h, p) q = (h, Low-append xs ys p q)

digits_from-Low : (fuel n : ℕ) → Low (digits_from fuel n)
unfolding digits_from
digits_from-Low zero n = tt
digits_from-Low (suc fuel) n = elim (Bool-cases (ltb n 10)) [
  | inl small ↦ rw small (ground arith, tt)
  | inr large ↦ rw large (
      Low-append (digits_from fuel (n / 10)) ((48 + n % 10) ∷ []) (digits_from-Low fuel (n / 10))
        (omega arith, tt))
]

listing-Low : (ns : List ℕ) → Low (listing ns)
unfolding listing decimal
listing-Low [] = tt
listing-Low (n ∷ []) = digits_from-Low (n + 1) n
listing-Low (n ∷ m ∷ ns) =
    Low-append (decimal n) (44 ∷ 32 ∷ listing (m ∷ ns)) (digits_from-Low (n + 1) n)
      (omega arith, (omega arith, listing-Low (m ∷ ns)))

after_last-Low : (xs : List ℕ) → Low xs → after_last think_end xs ≡ none
unfolding after_last after_prefix
after_last-Low [] p = refl
after_last-Low (x ∷ xs) (h, p) =
    let apart : (60 == x) ≡ false = ground arith in rw (after_last-Low xs p, apart) refl

after_thinking-listing : (ns : List ℕ) → after_thinking (listing ns) ≡ listing ns
unfolding after_thinking
after_thinking-listing ns = ap (get_or (listing ns)) (after_last-Low (listing ns) (listing-Low ns))

module _ (digit : ℕ → Option ℕ) where
  value_from-append :
      (acc : ℕ) (xs : List ℕ) (c : ℕ)
      → value_from digit acc (xs ++ c ∷ []) ≡ value_from digit acc xs * 10 + digit_or_zero digit c
  unfolding value_from
  value_from-append acc [] c = refl
  value_from-append acc (x ∷ xs) c = value_from-append (acc * 10 + digit_or_zero digit x) xs c

  digit_or_zero-ten : (d : ℕ) → ReadsAscii digit → d < 10 → digit_or_zero digit (48 + d) ≡ d
  digit_or_zero-ten d a h = ap or_zero (a.ten d h)

  is_digit-ten : (d : ℕ) → ReadsAscii digit → d < 10 → is_digit digit (48 + d) ≡ true
  is_digit-ten d a h = ap is_some (a.ten d h)

  value_from-digits_from :
      (fuel n : ℕ) → ReadsAscii digit → n < fuel → value_from digit 0 (digits_from fuel n) ≡ n
  unfolding digits_from value_from
  value_from-digits_from zero n a h = absurd (omega arith)
  value_from-digits_from (suc fuel) n a h = elim (Bool-cases (ltb n 10)) [
    | inl small ↦ rw small (omega (arith, digit_or_zero-ten n a (ground arith)))
    | inr large ↦
        rw (large, value_from-append 0 (digits_from fuel (n / 10)) (48 + n % 10))
          (omega (
            arith,
            digit_or_zero-ten (n % 10) a (omega arith),
            value_from-digits_from fuel (n / 10) a (ground arith),
          ))
  ]

  abbrev AllDigits : List ℕ → Type 0
  AllDigits = All (λ c. is_digit digit c ≡ true)

  AllDigits-concat :
      (xs : List ℕ) (c : ℕ) → AllDigits xs → is_digit digit c ≡ true → AllDigits (xs ++ c ∷ [])
  AllDigits-concat [] c all d = (d, tt)
  AllDigits-concat (x ∷ xs) c (e, all) d = (e, AllDigits-concat xs c all d)

  digits_from-AllDigits : (fuel n : ℕ) → ReadsAscii digit → AllDigits (digits_from fuel n)
  unfolding digits_from
  digits_from-AllDigits zero n a = tt
  digits_from-AllDigits (suc fuel) n a = elim (Bool-cases (ltb n 10)) [
    | inl small ↦ rw small (is_digit-ten n a (ground arith), tt)
    | inr large ↦ rw large (
        AllDigits-concat (digits_from fuel (n / 10)) (48 + n % 10)
          (digits_from-AllDigits fuel (n / 10) a) (is_digit-ten (n % 10) a (omega arith)))
  ]

  digits_from-ne-nil : (fuel n : ℕ) → digits_from (suc fuel) n ≢ []
  unfolding digits_from
  digits_from-ne-nil fuel n e = elim (Bool-cases (ltb n 10)) [
    | inl small ↦ let bad : (48 + n) ∷ [] ≡ [] = rw (digits_from, small) at e in cc
    | inr large ↦
        let bad : digits_from fuel (n / 10) ++ (48 + n % 10) ∷ [] ≡ [] =
          rw (digits_from, large) at e in
        concat-ne-nil (48 + n % 10) (digits_from fuel (n / 10)) bad
  ]

  decimal-ne-nil : (n : ℕ) → decimal n ≢ []
  unfolding decimal
  decimal-ne-nil n e =
      let same : n + 1 ≡ suc n = omega arith in digits_from-ne-nil n n (rw same at e)

  runs-digits :
      (current xs rest : List ℕ)
      → AllDigits xs
      → runs digit current (xs ++ rest) ≡ runs digit (current ++ xs) rest
  unfolding runs
  runs-digits current [] rest all = rw (append-nil current) refl
  runs-digits current (x ∷ xs) rest (d, all) =
      rw (d, ← append_assoc current (x ∷ []) xs) (runs-digits (current ++ x ∷ []) xs rest all)

  -- A run of digits ends at a comma, which a blank follows.
  runs-comma :
      (current rest : List ℕ)
      → ReadsAscii digit
      → current ≢ []
      → runs digit current (44 ∷ 32 ∷ rest) ≡ current ∷ runs digit [] rest
  unfolding runs
  runs-comma [] rest a ne = absurd (ne refl)
  runs-comma (c ∷ current) rest a ne =
      let comma : is_digit digit 44 ≡ false = ap is_some a.comma in
      let blank : is_digit digit 32 ≡ false = ap is_some a.blank in rw (comma, blank) refl

  runs-end : (current : List ℕ) → current ≢ [] → runs digit current [] ≡ current ∷ []
  unfolding runs
  runs-end [] ne = absurd (ne refl)
  runs-end (c ∷ current) ne = refl

  collect-cons :
      (valid ordered r : List ℕ) (rs : List (List ℕ)) (n : ℕ)
      → value_from digit 0 r ≡ n
      → length r ≤ digit_limit
      → member n valid ≡ true
      → member n ordered ≡ false
      → collect digit valid ordered (r ∷ rs) ≡ collect digit valid (ordered ++ n ∷ []) rs
  unfolding collect
  collect-cons valid ordered r rs n v short real new =
      let fits : ltb digit_limit (length r) ≡ false = ground arith in rw (fits, v, real, new) refl

  decimal-AllDigits : (n : ℕ) → ReadsAscii digit → AllDigits (decimal n)
  unfolding decimal
  decimal-AllDigits n a = digits_from-AllDigits (n + 1) n a

  value_from-decimal : (n : ℕ) → ReadsAscii digit → value_from digit 0 (decimal n) ≡ n
  unfolding decimal
  value_from-decimal n a = value_from-digits_from (n + 1) n a (omega arith)

  -- Numbers that the transcript has, that `int` reads, and none of them twice.
  abbrev pub Listable : List ℕ → List ℕ → List ℕ → Type 0
  Listable valid ordered [] = Unit
  Listable valid ordered (n ∷ ns) =
      (member n valid ≡ true)
      × (member n ordered ≡ false)
      × (length (decimal n) ≤ digit_limit)
      × Listable valid (ordered ++ n ∷ []) ns

  runs-listing :
      (n : ℕ) (ns : List ℕ)
      → ReadsAscii digit
      → runs digit [] (listing (n ∷ ns)) ≡ decimal n ∷ runs digit [] (listing ns)
  unfolding listing runs
  runs-listing n [] a =
      ap (runs digit []) (sym (append-nil (decimal n)))
      ∙ runs-digits [] (decimal n) [] (decimal-AllDigits n a)
      ∙ runs-end (decimal n) (decimal-ne-nil n)
  runs-listing n (m ∷ ns) a =
      runs-digits [] (decimal n) (44 ∷ 32 ∷ listing (m ∷ ns)) (decimal-AllDigits n a)
      ∙ runs-comma (decimal n) (listing (m ∷ ns)) a (decimal-ne-nil n)

  collect-listing :
      (valid ordered ns : List ℕ)
      → ReadsAscii digit
      → Listable valid ordered ns
      → collect digit valid ordered (runs digit [] (listing ns)) ≡ ok (ordered ++ ns)
  unfolding collect runs listing
  collect-listing valid ordered [] a l = rw (append-nil ordered) refl
  collect-listing valid ordered (n ∷ ns) a (real, new, short, l) =
      rw
        (
          runs-listing n ns a,
          collect-cons valid ordered (decimal n) (runs digit [] (listing ns)) n
              (value_from-decimal n a) short real new,
          collect-listing valid (ordered ++ n ∷ []) ns a l,
          append_assoc ordered (n ∷ []) ns,
        )
        refl

  -- A reply that lists some of the transcript's numbers, none twice, separated by a comma and a
  -- blank, is parsed to just these numbers in their order.
  pub try_parse_curation-listing :
      (valid : List ℕ) (n : ℕ) (ns : List ℕ)
      → ReadsAscii digit
      → Listable valid [] (n ∷ ns)
      → try_parse_curation digit (listing (n ∷ ns)) valid ≡ ok (some (n ∷ ns))
  unfolding try_parse_curation
  try_parse_curation-listing valid n ns a l =
      rw (after_thinking-listing (n ∷ ns), collect-listing valid [] (n ∷ ns) a l) refl
