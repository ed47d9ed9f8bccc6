-- ===== src/Tests/Extraction.antt =====
-- The extraction and the triage of replies at concrete inputs.
use ansina.Prelude.{
  ℕ, ◌≡◌, ◌↔◌, refl, none, some, List, [], ◌∷◌, ◌++◌, true, false, ◌==◌, ◌||◌, leb, length, ok,
  if◌then◌else◌, pos, ◌&&◌, ◌+◌, map,
}
use ansina.Heart.Decision.{codes, same, Unicode}
use ansina.Heart.Curation.{CurationEvent}
use ansina.Heart.Extraction.{
  FailureCause, first_balanced_object, parse_json_object, try_parse_title,
}
use ansina.Json.{Json, Loaded}
use ansina.Heart.Extraction.Extractor.{
  InterventionState, Extractor, InterventionExtractionOutcome, FailureExtractionOutcome,
  extract_intervention, extract_failure_cause, render_intervention_state, rendered_events,
}
use ansina.Heart.Extraction.Balanced.{openings, IsBalanced, first_balanced_object_iff}
use ansina.Heart.Extraction.Real.{IsReal, Evident, extract_intervention-IsReal}
use ansina.Heart.Triage.{classify, outcome_routes, routes_to_brain}
use ansina.Opencode.Service.{OpencodeAction}

abbrev lowered : ℕ → ℕ
lowered c = if leb 65 c && leb c 90 then c + 32 else c

abbrev ascii : Unicode
ascii = record { is_space = λ c. c == 32 || c == 10; lower = map lowered }

-- One object that names a run and an event is all that this `json.loads` reads.
abbrev reply : List ℕ
reply = codes "{\"action\": \"nudge\"}"

abbrev fields : List (List ℕ × Json)
fields =
    (codes "action", Json.text (codes "nudge"))
    ∷ (codes "run_id", Json.text (codes "r1"))
    ∷ (codes "reason", Json.text (codes "quiet"))
    ∷ (codes "cause", Json.text (codes "timeout"))
    ∷ (codes "evidence_event_seq", Json.number (pos 4))
    ∷ []

abbrev loads : List ℕ → Loaded
loads t = if same t reply then Loaded.object fields else Loaded.decode_error

nested : first_balanced_object (codes "a } {b{c}d} }") ≡ some (codes "{b{c}d}")
unfolding first_balanced_object
nested = refl

never_closed : first_balanced_object (codes "x {{}") ≡ none
unfolding first_balanced_object
never_closed = refl

first_balanced_object_iff_example :
    (first_balanced_object (codes "a {b} c") ≡ some (codes "{b}")) ↔ (
      (pre : List ℕ) × (post : List ℕ) × (codes "a {b} c" ≡ pre ++ (codes "{b}" ++ post))
      × (openings pre ≡ 0)
      × IsBalanced (codes "{b}"))
first_balanced_object_iff_example = first_balanced_object_iff (codes "a {b} c") (codes "{b}")

-- A code fence, behind some thinking.
abbrev fenced : List ℕ
fenced = codes "maybe {} ?</think>\n```json " ++ (reply ++ codes " ``` {")

read_in_a_fence : parse_json_object ascii loads fenced ≡ ok (some fields)
unfolding parse_json_object
read_in_a_fence = refl

reply-IsBalanced : IsBalanced reply
unfolding first_balanced_object
reply-IsBalanced = ((first_balanced_object_iff reply reply).0 refl).4

two_lines : try_parse_title ascii (codes "Fix\nit") 80 ≡ none
unfolding try_parse_title
two_lines = refl

title_is_stripped : try_parse_title ascii (codes " Fix it \n") 6 ≡ some (codes "Fix it")
unfolding try_parse_title
title_is_stripped = refl

abbrev extractor : Extractor
extractor = record {
  generate = λ prompt. fenced;
  token_count = λ prompt. length prompt;
  intervention_format = λ state. state;
  title_format = λ prompt events. prompt;
  failure_format = λ events. events;
  max_title_length = 80;
}

abbrev state : InterventionState
state = record {
  candidates =
      record { run_id = codes "r1"; status = codes "running"; detail = codes "quiet" } ∷ [];
  intake_paused = false;
  recent_failed = 0;
  recent_timeout = 1;
  recent_permission_denied = 0;
}

abbrev events : List CurationEvent
events = record { sequence = 4; raw_type = codes "error"; payload = codes "{}" } ∷ []

abbrev intervention : InterventionExtractionOutcome
intervention = record {
  candidates = state.candidates;
  parsed = some (record {
    action = some OpencodeAction.nudge;
    run_id = some (codes "r1");
    reason = codes "quiet";
  });
  raw_output = fenced;
  prompt_tokens = length (render_intervention_state state);
}

abbrev failure : FailureExtractionOutcome
failure = record {
  events = events;
  parsed = some (record { cause = FailureCause.timed_out; evidence_event_seq = 4 });
  raw_output = fenced;
  prompt_tokens = length (rendered_events events);
}

extract_intervention-IsReal_example :
    IsReal state.candidates intervention.parsed × Evident events failure.parsed
unfolding extract_intervention extract_failure_cause
extract_intervention-IsReal_example =
    extract_intervention-IsReal ascii loads extractor state events intervention failure refl refl

hedged_reply_escalates :
    outcome_routes (
      classify ascii
        (λ prompt. codes "Not trivial")
        (λ request. request)
        (λ prompt. length prompt)
        (codes "Is it?"))
    ≡ true
unfolding classify routes_to_brain
hedged_reply_escalates = refl
