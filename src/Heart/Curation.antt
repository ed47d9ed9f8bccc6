-- ===== src/Heart/Curation.antt =====
-- src/ansina/heart/curation.py: which events of a run the model is shown to explain it. Texts are
-- lists of code points. The tokenizer, the template with its two placeholders, the model's reply and
-- Unicode's table of decimal digits are parameters; the average is taken exactly.
pub mod Budget
pub mod Returns
pub mod RoundTrip
use ansina.Prelude.{
  ℕ, zero, suc, ◌+◌, ◌-◌, ◌*◌, ◌/◌, ◌%◌, Option, none, some, List, [], ◌∷◌, ◌++◌, Bool, true, false,
  not, ◌&&◌, ◌||◌, length, ltb, leb, ◌==◌, if◌then◌else◌, Result, ok, err,
}
use ansina.Heart.Decision.{codes, after_thinking}

pub record CurationEvent : Type 0 where
  pub sequence : ℕ
  pub raw_type : List ℕ
  pub payload : List ℕ

-- `str` of a number, with one unit of fuel for each digit at least.
unfoldable pub digits_from : ℕ → ℕ → List ℕ
digits_from zero n = []
digits_from (suc fuel) n =
    let rest = digits_from fuel (n / 10) in
    if ltb n 10 then (48 + n) ∷ [] else rest ++ (48 + n % 10) ∷ []

unfoldable pub decimal : ℕ → List ℕ
unfolding digits_from
decimal n = digits_from (n + 1) n

unfoldable pub render_event : CurationEvent → List ℕ
unfolding decimal
render_event e =
    91 ∷ (decimal e.sequence ++ (codes "] " ++ (e.raw_type ++ (codes ": " ++ e.payload))))

-- `sorted(events, key=sequence, reverse=True)`, which is stable.
unfoldable pub insert_newest : CurationEvent → List CurationEvent → List CurationEvent
insert_newest x [] = x ∷ []
insert_newest x (y ∷ ys) =
    let rest = insert_newest x ys in if leb x.sequence y.sequence then y ∷ rest else x ∷ y ∷ ys

unfoldable pub sort_newest : List CurationEvent → List CurationEvent → List CurationEvent
unfolding insert_newest
sort_newest sorted [] = sorted
sort_newest sorted (x ∷ xs) = sort_newest (insert_newest x sorted) xs

unfoldable pub member : ℕ → List ℕ → Bool
member n [] = false
member n (x ∷ xs) = x == n || member n xs

unfoldable pub sequences : List CurationEvent → List ℕ
sequences [] = []
sequences (e ∷ es) = e.sequence ∷ sequences es

-- `by_sequence`, in which the last of two events with one number stays.
unfoldable pub event_at : ℕ → List CurationEvent → Option CurationEvent
event_at n [] = none
event_at n (e ∷ es) = elim (event_at n es) [
  | some later ↦ some later
  | none ↦ if e.sequence == n then some e else none
]

-- `int` refuses a text of more than 4300 digits; a dictionary has no such key.
pub data CurationError : Type 0 where
  value_error key_error : CurationError

abbrev pub digit_limit : ℕ
digit_limit = 4300

pub record CurationOutcome : Type 0 where
  pub events : List CurationEvent
  pub selected : List ℕ
  pub parsed : Option (List ℕ)
  pub raw_output : List ℕ
  pub prompt_tokens : ℕ
  pub exceeded_budget : Bool

abbrev pub is_some : Option ℕ → Bool
is_some none = false
is_some (some d) = true

abbrev pub or_zero : Option ℕ → ℕ
or_zero none = 0
or_zero (some d) = d

module _ (digit : ℕ → Option ℕ) where
  abbrev pub is_digit : ℕ → Bool
  is_digit c = is_some (digit c)

  abbrev pub digit_or_zero : ℕ → ℕ
  digit_or_zero c = or_zero (digit c)

  -- `int(match.group())`
  unfoldable pub value_from : ℕ → List ℕ → ℕ
  value_from n [] = n
  value_from n (c ∷ cs) = value_from (n * 10 + digit_or_zero c) cs

  abbrev pub flush : List ℕ → List (List ℕ)
  flush [] = []
  flush (c ∷ cs) = (c ∷ cs) ∷ []

  -- `_INT_PATTERN.finditer`: the maximal runs of digits, behind the one that has begun.
  unfoldable pub runs : List ℕ → List ℕ → List (List ℕ)
  runs current [] = flush current
  runs current (c ∷ cs) =
      let rest = runs (if is_digit c then current ++ c ∷ [] else []) cs in
      if is_digit c then rest else flush current ++ rest

  -- The loop of `try_parse_curation`.
  unfoldable pub collect : List ℕ → List ℕ → List (List ℕ) → Result CurationError (List ℕ)
  unfolding value_from member
  collect valid ordered [] = ok ordered
  collect valid ordered (r ∷ rs) =
      let value = value_from 0 r in
      let rest =
        collect valid
          (if member value valid && not (member value ordered)
            then ordered ++ value ∷ []
            else ordered)
          rs in
      if ltb digit_limit (length r) then err value_error else rest

  abbrev pub some_or_none : Result CurationError (List ℕ) → Result CurationError (Option (List ℕ))
  some_or_none (err e) = err e
  some_or_none (ok []) = ok none
  some_or_none (ok (n ∷ ns)) = ok (some (n ∷ ns))

  unfoldable pub try_parse_curation : List ℕ → List ℕ → Result CurationError (Option (List ℕ))
  unfolding collect runs after_thinking
  try_parse_curation raw valid = some_or_none (collect valid [] (runs [] (after_thinking raw)))

  abbrev or_fallback :
      List ℕ → Result CurationError (Option (List ℕ)) → Result CurationError (List ℕ)
  or_fallback fallback (err e) = err e
  or_fallback fallback (ok none) = ok fallback
  or_fallback fallback (ok (some ns)) = ok ns

  unfoldable pub parse_curation : List ℕ → List ℕ → List ℕ → Result CurationError (List ℕ)
  unfolding try_parse_curation
  parse_curation raw valid fallback = or_fallback fallback (try_parse_curation raw valid)

module _ (token_count : List ℕ → ℕ) where
  abbrev pub cost : CurationEvent → ℕ
  cost e = token_count (render_event e)

  -- The loop of `recency_window_selection`.
  unfoldable pub window : ℕ → ℕ → List CurationEvent → List ℕ
  unfolding render_event
  window budget cumulative [] = []
  window budget cumulative (e ∷ es) =
      let rest = window budget (cumulative + cost e) es in
      if ltb budget (cumulative + cost e) then [] else e.sequence ∷ rest

  unfoldable pub recency_window_selection : List CurationEvent → ℕ → List ℕ
  unfolding window sort_newest
  recency_window_selection events budget = window budget 0 (sort_newest [] events)

  abbrev pub kept_first :
      ℕ → Result CurationError (List ℕ × Bool) → Result CurationError (List ℕ × Bool)
  kept_first n (err e) = err e
  kept_first n (ok (kept, exceeded)) = ok (n ∷ kept, exceeded)

  -- The loop of `_enforce_budget`.
  unfoldable pub enforce :
      List CurationEvent → ℕ → ℕ → List ℕ → Result CurationError (List ℕ × Bool)
  unfolding event_at render_event
  enforce events budget cumulative [] = ok ([], false)
  enforce events budget cumulative (n ∷ ns) = elim (event_at n events) [
    | none ↦ err key_error
    | some e ↦
        let rest = enforce events budget (cumulative + cost e) ns in
        if ltb budget (cumulative + cost e) then ok ([], true) else kept_first n rest
  ]

  unfoldable pub total_cost : List CurationEvent → ℕ
  unfolding render_event
  total_cost [] = 0
  total_cost (e ∷ es) = cost e + total_cost es

  abbrev at_least_one : ℕ → ℕ
  at_least_one n = if ltb n 1 then 1 else n

  -- How many events the prompt asks for at most.
  unfoldable pub max_events : List CurationEvent → ℕ → ℕ
  unfolding total_cost
  max_events [] budget = at_least_one budget
  max_events (e ∷ es) budget =
      let total = total_cost (e ∷ es) in
      if total == 0 then length (e ∷ es) else at_least_one (budget * length (e ∷ es) / total)

  unfoldable pub join_lines : List CurationEvent → List ℕ
  unfolding render_event
  join_lines [] = []
  join_lines (e ∷ []) = render_event e
  join_lines (e ∷ f ∷ es) = render_event e ++ (10 ∷ join_lines (f ∷ es))

  module _ (digit : ℕ → Option ℕ) (format : List ℕ → ℕ → List ℕ) (generate : List ℕ → List ℕ) where
    abbrev pub outcome :
        List CurationEvent
        → ℕ
        → List ℕ
        → ℕ
        → Option (List ℕ)
        → Result CurationError (List ℕ × Bool)
        → Result CurationError CurationOutcome
    outcome events budget raw tokens parsed (err e) = err e
    outcome events budget raw tokens parsed (ok (kept, exceeded)) = ok (record {
      events = events;
      selected = kept;
      parsed = parsed;
      raw_output = raw;
      prompt_tokens = tokens;
      exceeded_budget = exceeded;
    })

    abbrev pub curated :
        List CurationEvent
        → ℕ
        → List ℕ
        → ℕ
        → Result CurationError (Option (List ℕ))
        → Result CurationError CurationOutcome
    curated events budget raw tokens (err e) = err e
    curated events budget raw tokens (ok none) =
        outcome events budget raw tokens none (ok (recency_window_selection events budget, false))
    curated events budget raw tokens (ok (some ordered)) =
        outcome events budget raw tokens (some ordered) (enforce events budget 0 ordered)

    -- `HeartContextCurator.curate`
    unfoldable pub curate : List CurationEvent → ℕ → Result CurationError CurationOutcome
    unfolding try_parse_curation recency_window_selection enforce join_lines max_events sequences
    curate events budget =
        let prompt = format (join_lines events) (max_events events budget) in
        let raw = generate prompt in
        curated events budget raw (token_count prompt)
          (try_parse_curation digit raw (sequences events))
