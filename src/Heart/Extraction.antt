-- ===== src/Heart/Extraction.antt =====
-- src/ansina/heart/extraction.py: a small object, a title or a cause, read out of the model's reply.
-- Texts are lists of code points. `json.loads`, `str.isspace` and `str.lower`, the templates'
-- placeholders, the tokenizer and the model's reply are parameters.
pub mod Extractor
pub mod Balanced
pub mod Wrapped
pub mod Real
use ansina.Prelude.{
  ℕ, zero, suc, ◌+◌, ◌-◌, Option, none, some, List, [], ◌∷◌, ◌++◌, Bool, true, false, not, ◌&&◌,
  ◌||◌, length, map, ltb, ◌==◌, if◌then◌else◌, Result, ok, err, ℤ, pos, negsuc,
}
use ansina.Heart.Decision.{codes, same, after_thinking, strip, Unicode}
use ansina.Heart.Curation.{CurationEvent, decimal, render_event, member, sequences}
use ansina.Heart.Journal.{take, join}
use ansina.Json.{
  Json, text, number, boolean, null, other, Loaded, object, not_object, decode_error, raised, field,
}
use ansina.Opencode.Service.{OpencodeAction}

pub data ExtractionError : Type 0 where
  loads_raised : ExtractionError

pub data FailureCause : Type 0 where
  shell_denied permission_denied timed_out errored other_cause : FailureCause

pub record InterventionCandidateRun : Type 0 where
  pub run_id : List ℕ
  pub status : List ℕ
  pub detail : List ℕ

pub record InterventionExtraction : Type 0 where
  pub action : Option OpencodeAction
  pub run_id : Option (List ℕ)
  pub reason : List ℕ

pub record FailureExtraction : Type 0 where
  pub cause : FailureCause
  pub evidence_event_seq : ℕ

-- `text.find("{")`: the text from the first opening brace on.
unfoldable pub from_brace : List ℕ → Option (List ℕ)
from_brace [] = none
from_brace (c ∷ cs) = let rest = from_brace cs in if c == b'{' then some (c ∷ cs) else rest

abbrev pub depth_after : ℕ → ℕ → ℕ
depth_after c depth = if c == b'{' then depth + 1 else if c == b'}' then depth - 1 else depth

-- The scan of `_first_balanced_object` behind what it has `seen`.
unfoldable pub scan : ℕ → List ℕ → List ℕ → Option (List ℕ)
scan depth seen [] = none
scan depth seen (c ∷ cs) =
    let deeper = depth_after c depth in
    let rest = scan deeper (seen ++ c ∷ []) cs in
    if c == b'}' && deeper == 0 then some (seen ++ c ∷ []) else rest

abbrev scanned : Option (List ℕ) → Option (List ℕ)
scanned none = none
scanned (some cs) = scan 0 [] cs

unfoldable pub first_balanced_object : List ℕ → Option (List ℕ)
unfolding from_brace scan
first_balanced_object cs = scanned (from_brace cs)

abbrev pub action_word : OpencodeAction → List ℕ
action_word OpencodeAction.retry = codes "retry"
action_word OpencodeAction.nudge = codes "nudge"
action_word OpencodeAction.compact = codes "compact"
action_word OpencodeAction.pause_intake_action = codes "pause_intake"
action_word OpencodeAction.escalate_to_brain = codes "escalate_to_brain"

-- `OpencodeAction(text)`, with `none` for the `ValueError`.
unfoldable pub action_of : List ℕ → Option OpencodeAction
action_of w =
    if same w (action_word OpencodeAction.retry)
    then some OpencodeAction.retry
    else if same w (action_word OpencodeAction.nudge)
    then some OpencodeAction.nudge
    else if same w (action_word OpencodeAction.compact)
    then some OpencodeAction.compact
    else if same w (action_word OpencodeAction.pause_intake_action)
    then some OpencodeAction.pause_intake_action
    else if same w (action_word OpencodeAction.escalate_to_brain)
    then some OpencodeAction.escalate_to_brain
    else none

abbrev pub cause_word : FailureCause → List ℕ
cause_word shell_denied = codes "shell_denied"
cause_word permission_denied = codes "permission_denied"
cause_word timed_out = codes "timeout"
cause_word errored = codes "error"
cause_word other_cause = codes "other"

-- `FailureCause(text)`
unfoldable pub cause_of : List ℕ → Option FailureCause
cause_of w =
    if same w (cause_word shell_denied)
    then some shell_denied
    else if same w (cause_word permission_denied)
    then some permission_denied
    else if same w (cause_word timed_out)
    then some timed_out
    else if same w (cause_word errored)
    then some errored
    else if same w (cause_word other_cause)
    then some other_cause
    else none

-- `run_id in valid_run_ids`
unfoldable pub text_among : List ℕ → List (List ℕ) → Bool
text_among w [] = false
text_among w (x ∷ xs) = same x w || text_among w xs

abbrev pub max_reason_length : ℕ
max_reason_length = 200

abbrev pub reason_of : Option Json → List ℕ
reason_of (some (text t)) = take max_reason_length t
reason_of _ = []

-- The run that an object names: `none` if it is refused.
abbrev pub named_run : List (List ℕ) → Option Json → Option (Option (List ℕ))
named_run valid none = some none
named_run valid (some null) = some none
named_run valid (some (text id)) = if text_among id valid then some (some id) else none
named_run valid (some (number n)) = none
named_run valid (some (boolean b)) = none
named_run valid (some other) = none

abbrev pub intervention_of :
    Option (Option OpencodeAction)
    → Option (Option (List ℕ))
    → List ℕ
    → Option InterventionExtraction
intervention_of (some action) (some run_id) reason =
    some (record { action = action; run_id = run_id; reason = reason })
intervention_of (some action) none reason = none
intervention_of none run reason = none

abbrev pub sequence_among : ℤ → List ℕ → Option ℕ
sequence_among (pos n) valid = if member n valid then some n else none
sequence_among (negsuc n) valid = none

-- `isinstance(seq_raw, bool)` comes first, since a Boolean is an int.
abbrev pub evidence_of : List ℕ → Option Json → Option ℕ
evidence_of valid (some (number n)) = sequence_among n valid
evidence_of valid (some (boolean b)) = none
evidence_of valid (some (text t)) = none
evidence_of valid (some null) = none
evidence_of valid (some other) = none
evidence_of valid none = none

abbrev pub failure_of : Option FailureCause → Option ℕ → Option FailureExtraction
failure_of (some cause) (some n) = some (record { cause = cause; evidence_event_seq = n })
failure_of (some cause) none = none
failure_of none n = none

abbrev pub cause_field : Option Json → Option FailureCause
cause_field (some (text t)) = cause_of t
cause_field _ = none

module _ (u : Unicode) where
  abbrev pub answer : List ℕ → List ℕ
  answer raw = strip u.is_space (after_thinking raw)

  -- The action that an object names, `none` inside for "none", `none` outside if it is refused.
  abbrev pub named_action : Option Json → Option (Option OpencodeAction)
  named_action (some (text t)) =
      if same (u.lower (strip u.is_space t)) (codes "none")
      then some none
      else elim (action_of t) [ none ↦ none | some a ↦ some (some a) ]
  named_action _ = none

  abbrev single_line : List ℕ → Bool
  single_line cs = not (member 10 cs)

  -- `try_parse_title`
  unfoldable pub try_parse_title : List ℕ → ℕ → Option (List ℕ)
  unfolding after_thinking strip member
  try_parse_title raw max_length =
      let stripped = answer raw in
      if length stripped == 0
      then none
      else if not (single_line stripped)
      then none
      else if ltb max_length (length stripped)
      then none
      else some stripped

  module _ (loads : List ℕ → Loaded) where
    -- The loop over the candidates.
    unfoldable pub first_object :
        List (List ℕ) → Result ExtractionError (Option (List (List ℕ × Json)))
    first_object [] = ok none
    first_object (t ∷ ts) = elim (loads t) [
      | object fields ↦ ok (some fields)
      | not_object ↦ first_object ts
      | decode_error ↦ first_object ts
      | raised ↦ err loads_raised
    ]

    abbrev pub candidates : List ℕ → Option (List ℕ) → List (List ℕ)
    candidates whole none = whole ∷ []
    candidates whole (some inner) = if same inner whole then whole ∷ [] else whole ∷ inner ∷ []

    -- `_parse_json_object`
    unfoldable pub parse_json_object :
        List ℕ → Result ExtractionError (Option (List (List ℕ × Json)))
    unfolding first_object first_balanced_object after_thinking strip
    parse_json_object raw =
        first_object (candidates (answer raw) (first_balanced_object (answer raw)))

    abbrev pub read_with {ℓ} :
        {A : Type ℓ}
        → (List (List ℕ × Json) → Option A)
        → Result ExtractionError (Option (List (List ℕ × Json)))
        → Result ExtractionError (Option A)
    read_with f (err e) = err e
    read_with f (ok none) = ok none
    read_with f (ok (some fields)) = ok (f fields)

    unfoldable pub intervention_fields :
        List (List ℕ) → List (List ℕ × Json) → Option InterventionExtraction
    unfolding field text_among action_of strip take
    intervention_fields valid fields =
        intervention_of (named_action (field (codes "action") fields))
          (named_run valid (field (codes "run_id") fields))
          (reason_of (field (codes "reason") fields))

    unfoldable pub try_parse_intervention :
        List ℕ → List (List ℕ) → Result ExtractionError (Option InterventionExtraction)
    unfolding parse_json_object intervention_fields
    try_parse_intervention raw valid = read_with (intervention_fields valid) (parse_json_object raw)

    unfoldable pub failure_fields : List ℕ → List (List ℕ × Json) → Option FailureExtraction
    unfolding field cause_of member
    failure_fields valid fields =
        failure_of (cause_field (field (codes "cause") fields))
          (evidence_of valid (field (codes "evidence_event_seq") fields))

    unfoldable pub try_parse_failure :
        List ℕ → List ℕ → Result ExtractionError (Option FailureExtraction)
    unfolding parse_json_object failure_fields
    try_parse_failure raw valid = read_with (failure_fields valid) (parse_json_object raw)
