-- ===== src/Heart/Curation/Budget.antt =====
-- What the selected events cost.
use ansina.Prelude.{
  ℕ, ◌+◌, ◌≤◌, ◌≡◌, refl, Option, none, some, List, [], ◌∷◌, Bool, true, false, ltb, leb, ◌==◌,
  arith, if◌then◌else◌, Result, ok, err, Bool-cases, Option-cases, inl, inr, All,
}
use ansina.Heart.Curation.{
  CurationEvent, member, sequences, event_at, insert_newest, sort_newest, cost, window, enforce,
  recency_window_selection, curate, curated, outcome, CurationOutcome, kept_first, CurationError,
  key_error,
}

-- No two events have one number.
abbrev pub Distinct : List CurationEvent → Type 0
Distinct [] = Unit
Distinct (e ∷ es) = (event_at e.sequence es ≡ none) × Distinct es

at_one :
    (x : CurationEvent) (n : ℕ) (es : List CurationEvent) (y : CurationEvent)
    → event_at x.sequence es ≡ none
    → event_at n es ≡ some y
    → (x.sequence == n) ≡ false
at_one x n es y fresh there = elim (Bool-cases (x.sequence == n)) [
  | inl same ↦ let e : x.sequence ≡ n = ground arith in cc
  | inr apart ↦ apart
]

member-event_at :
    (n : ℕ) (es : List CurationEvent) (e : CurationEvent)
    → event_at n es ≡ some e
    → member n (sequences es) ≡ true
unfolding member sequences event_at
member-event_at n [] e h = cc
member-event_at n (x ∷ es) e h = elim (Option-cases (event_at n es)) [
  | inl absent ↦ ground arith
  | inr (y, there) ↦ ground (arith, member-event_at n es y there)
]

module _ {ℓ} (P : CurationEvent → Type ℓ) where
  insert_newest-All :
      (x : CurationEvent) (ys : List CurationEvent) → P x → All P ys → All P (insert_newest x ys)
  unfolding insert_newest
  insert_newest-All x [] p all = (p, tt)
  insert_newest-All x (y ∷ ys) p (q, all) = elim (Bool-cases (leb x.sequence y.sequence)) [
    | inl behind ↦ rw behind (q, insert_newest-All x ys p all)
    | inr before ↦ rw before (p, (q, all))
  ]

  sort_newest-All :
      (sorted xs : List CurationEvent) → All P sorted → All P xs → All P (sort_newest sorted xs)
  unfolding sort_newest
  sort_newest-All sorted [] ps all = ps
  sort_newest-All sorted (x ∷ xs) ps (p, all) =
      sort_newest-All (insert_newest x sorted) xs (insert_newest-All x sorted p ps) all

still_found :
    (x : CurationEvent) (es listed : List CurationEvent)
    → event_at x.sequence es ≡ none
    → All (λ e. event_at e.sequence es ≡ some e) listed
    → All (λ e. event_at e.sequence (x ∷ es) ≡ some e) listed
unfolding event_at
still_found x es [] fresh all = tt
still_found x es (e ∷ listed) fresh (found, all) =
    (rw found refl, still_found x es listed fresh all)

All-found : (es : List CurationEvent) → Distinct es → All (λ e. event_at e.sequence es ≡ some e) es
unfolding event_at
All-found [] d = tt
All-found (e ∷ es) (fresh, d) =
    (rw fresh (ground arith), still_found e es es fresh (All-found es d))

module _ (token_count : List ℕ → ℕ) where
  -- What those of the events cost that are among the selected ones.
  pub selected_cost : List ℕ → List CurationEvent → ℕ
  unfolding member
  selected_cost kept [] = 0
  selected_cost kept (e ∷ es) =
      (if member e.sequence kept then cost token_count e else 0) + selected_cost kept es

  selected_cost-cons :
      (n : ℕ) (ns : List ℕ) (es : List CurationEvent)
      → selected_cost (n ∷ ns) es ≤ selected_cost (n ∷ []) es + selected_cost ns es
  unfolding selected_cost
  selected_cost-cons n ns [] = omega arith
  selected_cost-cons n ns (e ∷ es) = ground (arith, selected_cost-cons n ns es)

  selected_cost-nil : (es : List CurationEvent) → selected_cost [] es ≡ 0
  unfolding selected_cost
  selected_cost-nil [] = refl
  selected_cost-nil (e ∷ es) = omega (arith, selected_cost-nil es)

  selected_cost-absent :
      (n : ℕ) (es : List CurationEvent) → event_at n es ≡ none → selected_cost (n ∷ []) es ≡ 0
  unfolding selected_cost event_at
  selected_cost-absent n [] h = refl
  selected_cost-absent n (e ∷ es) h = ground (arith, selected_cost-absent n es)

  selected_cost-one :
      (n : ℕ) (es : List CurationEvent) (e : CurationEvent)
      → Distinct es
      → event_at n es ≡ some e
      → selected_cost (n ∷ []) es ≡ cost token_count e
  unfolding selected_cost event_at
  selected_cost-one n [] e d h = cc
  selected_cost-one n (x ∷ es) e (fresh, d) h = elim (Option-cases (event_at n es)) [
    | inl absent ↦ ground (arith, selected_cost-absent n es absent)
    | inr (y, there) ↦
        let apart : (x.sequence == n) ≡ false = at_one x n es y fresh there in
        ground (arith, selected_cost-one n es y d there)
  ]

  kept_first-ok :
      (n : ℕ) (r : Result CurationError (List ℕ × Bool)) (kept : List ℕ) (exceeded : Bool)
      → kept_first token_count n r ≡ ok (kept, exceeded)
      → (ks : List ℕ) × (r ≡ ok (ks, exceeded)) × (kept ≡ n ∷ ks)
  kept_first-ok n (err e) kept exceeded h = cc
  kept_first-ok n (ok (ks, b)) kept exceeded h = (ks, ground arith, ground arith)

  -- What the loop keeps, it has an event for, and it fits.
  pub record Fits (es : List CurationEvent) (budget used : ℕ) (kept : List ℕ) : Type 0 where
    pub within : used + selected_cost kept es ≤ budget
    pub real : All (λ n. member n (sequences es) ≡ true) kept

  Fits-nil : (es : List CurationEvent) (budget used : ℕ) → used ≤ budget → Fits es budget used []
  Fits-nil es budget used h = record { within = omega (arith, selected_cost-nil es); real = tt }

  Fits-cons :
      (es : List CurationEvent) (budget used n : ℕ) (e : CurationEvent) (kept : List ℕ)
      → Distinct es
      → event_at n es ≡ some e
      → Fits es budget (used + cost token_count e) kept
      → Fits es budget used (n ∷ kept)
  Fits-cons es budget used n e kept d found v = record {
    within =
        omega (arith, v.within, selected_cost-cons n kept es, selected_cost-one n es e d found);
    real = (member-event_at n es e found, v.real);
  }

  enforce-Fits :
      (es : List CurationEvent) (budget used : ℕ) (ns kept : List ℕ) (exceeded : Bool)
      → Distinct es
      → used ≤ budget
      → enforce token_count es budget used ns ≡ ok (kept, exceeded)
      → Fits es budget used kept
  unfolding enforce
  enforce-Fits es budget used [] kept exceeded d h e =
      let same : kept ≡ [] = ground arith in rw same (Fits-nil es budget used h)
  enforce-Fits es budget used (n ∷ ns) kept exceeded d h e = elim (Option-cases (event_at n es)) [
    | inl missing ↦ let bad : err key_error ≡ ok (kept, exceeded) = rw (enforce, missing) at e in cc
    | inr (x, found) ↦ elim (Bool-cases (ltb budget (used + cost token_count x))) [
      | inl over ↦ let same : kept ≡ [] = ground arith in rw same (Fits-nil es budget used h)
      | inr fits ↦
          let (ks, rest, same) =
            kept_first-ok n (enforce token_count es budget (used + cost token_count x) ns) kept
              exceeded (rw (enforce, found, fits) at e) in
          rw same (
            Fits-cons es budget used n x ks d found (
              enforce-Fits es budget (used + cost token_count x) ns ks exceeded d (ground arith)
                rest))
    ]
  ]

  window-Fits :
      (es : List CurationEvent) (budget used : ℕ) (listed : List CurationEvent)
      → Distinct es
      → All (λ e. event_at e.sequence es ≡ some e) listed
      → used ≤ budget
      → Fits es budget used (window token_count budget used listed)
  unfolding window
  window-Fits es budget used [] d all h = Fits-nil es budget used h
  window-Fits es budget used (e ∷ listed) d (found, all) h =
      elim (Bool-cases (ltb budget (used + cost token_count e))) [
        | inl over ↦ rw over (Fits-nil es budget used h)
        | inr fits ↦ rw fits (
            Fits-cons es budget used e.sequence e _ d found
              (window-Fits es budget (used + cost token_count e) listed d all (ground arith)))
      ]

  recency_window_selection-Fits :
      (es : List CurationEvent) (budget : ℕ)
      → Distinct es
      → Fits es budget 0 (recency_window_selection token_count es budget)
  unfolding recency_window_selection
  recency_window_selection-Fits es budget d =
      window-Fits es budget 0 (sort_newest [] es) d
        (sort_newest-All (λ (e : CurationEvent). event_at e.sequence es ≡ some e) [] es tt
          (All-found es d))
        (omega arith)

  outcome-ok :
      (digit : ℕ → Option ℕ) (format : List ℕ → ℕ → List ℕ) (generate : List ℕ → List ℕ)
      (es : List CurationEvent) (budget : ℕ) (raw : List ℕ) (tokens : ℕ) (parsed : Option (List ℕ))
      (r : Result CurationError (List ℕ × Bool)) (o : CurationOutcome)
      → outcome token_count digit format generate es budget raw tokens parsed r ≡ ok o
      → (b : Bool) × (r ≡ ok (o.selected, b))
  outcome-ok digit format generate es budget raw tokens parsed (err e) o h = cc
  outcome-ok digit format generate es budget raw tokens parsed (ok (kept, b)) o h =
      let same : o.selected ≡ kept = ground arith in (b, rw same refl)

  curated-Fits :
      (digit : ℕ → Option ℕ) (format : List ℕ → ℕ → List ℕ) (generate : List ℕ → List ℕ)
      (es : List CurationEvent) (budget : ℕ) (raw : List ℕ) (tokens : ℕ)
      (r : Result CurationError (Option (List ℕ))) (o : CurationOutcome)
      → Distinct es
      → curated token_count digit format generate es budget raw tokens r ≡ ok o
      → Fits es budget 0 o.selected
  curated-Fits digit format generate es budget raw tokens (err e) o d h = cc
  curated-Fits digit format generate es budget raw tokens (ok none) o d h =
      let same : o.selected ≡ recency_window_selection token_count es budget = ground arith in
      rw same (recency_window_selection-Fits es budget d)
  curated-Fits digit format generate es budget raw tokens (ok (some ordered)) o d h =
      let (b, run) =
        outcome-ok digit format generate es budget raw tokens (some ordered)
          (enforce token_count es budget 0 ordered) o h in
      enforce-Fits es budget 0 ordered o.selected b d (omega arith) run

  -- What a call that returns selects is real and fits.
  pub curate-Fits :
      (digit : ℕ → Option ℕ) (format : List ℕ → ℕ → List ℕ) (generate : List ℕ → List ℕ)
      (es : List CurationEvent) (budget : ℕ) (o : CurationOutcome)
      → Distinct es
      → curate token_count digit format generate es budget ≡ ok o
      → Fits es budget 0 o.selected
  unfolding curate
  curate-Fits digit format generate es budget o d h =
      curated-Fits digit format generate es budget _ _ _ o d h
