-- ===== src/Heart/Triage.antt =====
-- src/ansina/heart/triage.py: from a reply to one of three classes, and whether it goes to the Brain.
-- The template's placeholder, the tokenizer and the model's reply are parameters.
pub mod Routes
use ansina.Prelude.{ℕ, Option, none, some, List, Bool, true, false, if◌then◌else◌}
use ansina.Heart.Decision.{codes, same, after_thinking, strip, first_word, is_punctuation, Unicode}

pub data TriageClass : Type 0 where
  trivial tool_only complex : TriageClass

unfoldable pub routes_to_brain : TriageClass → Bool
routes_to_brain trivial = false
routes_to_brain tool_only = true
routes_to_brain complex = true

-- `_SEPARATOR_VARIANTS.get(first_word)`
unfoldable pub variant_of : List ℕ → Option TriageClass
variant_of w =
    if same w (codes "trivial")
    then some trivial
    else if same w (codes "tool-only")
    then some tool_only
    else if same w (codes "tool_only")
    then some tool_only
    else if same w (codes "toolonly")
    then some tool_only
    else if same w (codes "complex")
    then some complex
    else none

pub record TriageOutcome : Type 0 where
  pub request : List ℕ
  pub triage_class : TriageClass
  pub parsed : Option TriageClass
  pub raw_output : List ℕ
  pub prompt_tokens : ℕ

-- The two properties of an outcome.
abbrev pub parse_fallback : TriageOutcome → Bool
parse_fallback o = elim o.parsed [ none ↦ true | some c ↦ false ]

abbrev pub outcome_routes : TriageOutcome → Bool
outcome_routes o = routes_to_brain o.triage_class

module _ (u : Unicode) where
  -- The word that a reply begins with, behind the thinking, without punctuation.
  unfoldable pub leading_word : List ℕ → List ℕ
  unfolding after_thinking strip first_word
  leading_word raw =
      strip is_punctuation (first_word u.is_space (u.lower (strip u.is_space (after_thinking raw))))

  unfoldable pub try_parse_triage : List ℕ → Option TriageClass
  unfolding leading_word variant_of
  try_parse_triage raw = variant_of (leading_word raw)

  abbrev pub or_complex : Option TriageClass → TriageClass
  or_complex none = complex
  or_complex (some c) = c

  unfoldable pub parse_triage : List ℕ → TriageClass
  unfolding try_parse_triage
  parse_triage raw = or_complex (try_parse_triage raw)

  abbrev pub class_of : Option TriageClass → List ℕ → TriageClass
  class_of (some c) raw = c
  class_of none raw = parse_triage raw

  module _ (generate format : List ℕ → List ℕ) (token_count : List ℕ → ℕ) where
    -- `HeartRequestTriage.classify`
    unfoldable pub classify : List ℕ → TriageOutcome
    unfolding try_parse_triage parse_triage
    classify request =
        let prompt = format request in
        let raw = generate prompt in
        let parsed = try_parse_triage raw in
        record {
          request = request;
          triage_class = class_of parsed raw;
          parsed = parsed;
          raw_output = raw;
          prompt_tokens = token_count prompt;
        }
