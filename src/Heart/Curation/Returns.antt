-- ===== src/Heart/Curation/Returns.antt =====
-- When HeartContextCurator.curate returns: the reply holds no number that `int` refuses.
use ansina.Prelude.{
  ℕ, ◌+◌, ◌≤◌, ◌≡◌, refl, ap, ◌∙◌, ◌⊎◌, Option, none, some, List, [], ◌∷◌, ◌++◌, Bool, true, false,
  not, ◌&&◌, arith, length, ltb, ◌==◌, Result, ok, Bool-cases, Option-cases, inl, inr, All,
}
use ansina.Heart.Decision.{after_thinking}
use ansina.Heart.Curation.{
  CurationEvent, CurationOutcome, CurationError, event_at, sequences, member, digit_limit,
  value_from, collect, runs, some_or_none, try_parse_curation, cost, enforce, outcome, curated,
  curate, join_lines, max_events,
}
use ansina.Heart.Curation.Budget.{Distinct, Fits, curate-Fits}

All-concat : (P : ℕ → Type 0) (xs : List ℕ) (n : ℕ) → All P xs → P n → All P (xs ++ n ∷ [])
All-concat P [] n all p = (p, tt)
All-concat P (x ∷ xs) n (q, all) p = (q, All-concat P xs n all p)

abbrev Known : List ℕ → List ℕ → Type 0
Known valid = All (λ n. member n valid ≡ true)

-- Every run of digits is short enough for `int`.
abbrev pub Readable : List (List ℕ) → Type 0
Readable = All (λ r. length r ≤ digit_limit)

event_at-member :
    (n : ℕ) (es : List CurationEvent)
    → member n (sequences es) ≡ true
    → (e : CurationEvent) × (event_at n es ≡ some e)
unfolding member sequences event_at
event_at-member n [] h = cc
event_at-member n (e ∷ es) h = elim (Option-cases (event_at n es)) [
  | inr (later, found) ↦ (later, rw found refl)
  | inl absent ↦ elim (Bool-cases (e.sequence == n)) [
    | inl same ↦ (e, rw (absent, same) refl)
    | inr apart ↦ let (y, found) = event_at-member n es (rw apart at h) in (y, rw found refl)
  ]
]

module _ (digit : ℕ → Option ℕ) where
  collect-Known :
      (valid ordered : List ℕ) (rs : List (List ℕ))
      → Known valid ordered
      → Readable rs
      → (ns : List ℕ) × (collect digit valid ordered rs ≡ ok ns) × Known valid ns
  unfolding collect
  collect-Known valid ordered [] k r = (ordered, refl, k)
  collect-Known valid ordered (d ∷ rs) k (short, r) =
      let fits : ltb digit_limit (length d) ≡ false = ground arith in
      elim (Bool-cases
        (member (value_from digit 0 d) valid && not (member (value_from digit 0 d) ordered))) [
          | inl new ↦
              let real : member (value_from digit 0 d) valid ≡ true = ground arith in
              let (ns, same, known) =
                collect-Known valid (ordered ++ value_from digit 0 d ∷ []) rs
                  (All-concat (λ n. member n valid ≡ true) ordered (value_from digit 0 d) k real)
                  r in
              (ns, rw (fits, new) same, known)
          | inr old ↦
              let (ns, same, known) = collect-Known valid ordered rs k r in
              (ns, rw (fits, old) same, known)
        ]

  some_or_none-Known :
      (valid ns : List ℕ) (r : Result CurationError (List ℕ))
      → r ≡ ok ns
      → Known valid ns
      → (some_or_none digit r ≡ ok none)
        ⊎ ((ms : List ℕ) × (some_or_none digit r ≡ ok (some ms)) × Known valid ms)
  some_or_none-Known valid [] r same k = inl (ap (some_or_none digit) same)
  some_or_none-Known valid (n ∷ ns) r same k = inr (n ∷ ns, ap (some_or_none digit) same, k)

  try_parse_curation-Known :
      (raw valid : List ℕ)
      → Readable (runs digit [] (after_thinking raw))
      → (try_parse_curation digit raw valid ≡ ok none)
        ⊎ ((ns : List ℕ) × (try_parse_curation digit raw valid ≡ ok (some ns)) × Known valid ns)
  unfolding try_parse_curation
  try_parse_curation-Known raw valid r =
      let (ns, same, known) = collect-Known valid [] (runs digit [] (after_thinking raw)) tt r in
      some_or_none-Known valid ns _ same known

  module _ (token_count : List ℕ → ℕ) where
    enforce-Known :
        (es : List CurationEvent) (budget used : ℕ) (ns : List ℕ)
        → Known (sequences es) ns
        → (kept : List ℕ) × (b : Bool) × (enforce token_count es budget used ns ≡ ok (kept, b))
    unfolding enforce
    enforce-Known es budget used [] k = ([], false, refl)
    enforce-Known es budget used (n ∷ ns) (real, k) =
        let (e, found) = event_at-member n es real in
        elim (Bool-cases (ltb budget (used + cost token_count e))) [
          | inl over ↦ ([], true, rw (enforce, found, over) refl)
          | inr fits ↦
              let (kept, b, same) = enforce-Known es budget (used + cost token_count e) ns k in
              (n ∷ kept, b, rw (enforce, found, fits, same) refl)
        ]

    module _ (format : List ℕ → ℕ → List ℕ) (generate : List ℕ → List ℕ) where
      abbrev pub reply : List CurationEvent → ℕ → List ℕ
      reply es budget =
          generate (format (join_lines token_count es) (max_events token_count es budget))

      curate-ok :
          (es : List CurationEvent) (budget : ℕ)
          → Readable (runs digit [] (after_thinking (reply es budget)))
          → (o : CurationOutcome) × (curate token_count digit format generate es budget ≡ ok o)
      unfolding curate
      curate-ok es budget r = elim (try_parse_curation-Known (reply es budget) (sequences es) r) [
        | inl none_found ↦ (
          _,
          ap (curated token_count digit format generate es budget (reply es budget) _) none_found,
        )
        | inr (ns, found, known) ↦
            let (kept, b, same) = enforce-Known es budget 0 ns known in
            (
              _,
              ap (curated token_count digit format generate es budget (reply es budget) _) found
                  ∙ ap
                      (outcome token_count digit format generate es budget (reply es budget) _
                        (some ns))
                      same,
            )
      ]

      -- For a transcript whose event numbers are distinct, the curator returns, unless the reply
      -- holds a run of more digits than `int` reads: it never looks up a number that no event has.
      -- Every number that it selects is that of an event, and the selected events cost no more than
      -- the budget: after a reply that names events, and after the fallback to the newest events.
      pub curate-returns :
          (es : List CurationEvent) (budget : ℕ)
          → Distinct es
          → Readable (runs digit [] (after_thinking (reply es budget)))
          → (o : CurationOutcome) × (curate token_count digit format generate es budget ≡ ok o)
            × Fits token_count es budget 0 o.selected
      curate-returns es budget d r =
          let (o, same) = curate-ok es budget r in
          (o, same, curate-Fits token_count digit format generate es budget o d same)
