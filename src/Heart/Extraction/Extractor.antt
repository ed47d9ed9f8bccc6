-- ===== src/Heart/Extraction/Extractor.antt =====
-- `HeartStructuredExtractor` of src/ansina/heart/extraction.py: what the model is shown, and what is
-- read out of its reply.
use ansina.Prelude.{ℕ, Option, List, [], ◌∷◌, ◌++◌, Bool, true, false, map, Result, ok, err}
use ansina.Heart.Decision.{codes, Unicode}
use ansina.Heart.Curation.{CurationEvent, decimal, render_event, sequences}
use ansina.Heart.Journal.{join}
use ansina.Heart.Extraction.{
  ExtractionError, InterventionCandidateRun, InterventionExtraction, FailureExtraction,
  try_parse_intervention, try_parse_title, try_parse_failure,
}
use ansina.Json.{Loaded}

abbrev pub render_candidate : InterventionCandidateRun → List ℕ
render_candidate c = 91 ∷ (c.run_id ++ (codes "] " ++ (c.status ++ (codes ": " ++ c.detail))))

abbrev rendered_or_none : List InterventionCandidateRun → List (List ℕ)
rendered_or_none [] = codes "(no active or recent OpenCode runs)" ∷ []
rendered_or_none (c ∷ cs) = map render_candidate (c ∷ cs)

abbrev intake_word : Bool → List ℕ
intake_word true = codes "paused"
intake_word false = codes "accepting new runs"

-- What the handler of the run service knows, for the prompt.
pub record InterventionState : Type 0 where
  pub candidates : List InterventionCandidateRun
  pub intake_paused : Bool
  pub recent_failed : ℕ
  pub recent_timeout : ℕ
  pub recent_permission_denied : ℕ

-- `_render_intervention_state`
unfoldable pub render_intervention_state : InterventionState → List ℕ
unfolding join decimal
render_intervention_state s =
    join (10 ∷ []) (rendered_or_none s.candidates)
    ++ (10 ∷ codes "Intake: "
        ++ (intake_word s.intake_paused
            ++ (codes "."
                ++ (10 ∷ codes "Recent outcomes: "
                    ++ (decimal s.recent_failed
                        ++ (codes " failed, "
                            ++ (decimal s.recent_timeout
                                ++ (codes " timed out, "
                                    ++ (decimal s.recent_permission_denied
                                        ++ codes " permission denial(s).")))))))))

pub record InterventionExtractionOutcome : Type 0 where
  pub candidates : List InterventionCandidateRun
  pub parsed : Option InterventionExtraction
  pub raw_output : List ℕ
  pub prompt_tokens : ℕ

pub record TitleExtractionOutcome : Type 0 where
  pub prompt : List ℕ
  pub parsed : Option (List ℕ)
  pub raw_output : List ℕ
  pub prompt_tokens : ℕ

pub record FailureExtractionOutcome : Type 0 where
  pub events : List CurationEvent
  pub parsed : Option FailureExtraction
  pub raw_output : List ℕ
  pub prompt_tokens : ℕ

-- What `HeartStructuredExtractor` is made of: the runtime and the three templates.
pub record Extractor : Type 0 where
  pub generate : List ℕ → List ℕ
  pub token_count : List ℕ → ℕ
  pub intervention_format : List ℕ → List ℕ
  pub title_format : List ℕ → List ℕ → List ℕ
  pub failure_format : List ℕ → List ℕ
  pub max_title_length : ℕ

abbrev pub rendered_events : List CurationEvent → List ℕ
rendered_events es = join (10 ∷ []) (map render_event es)

abbrev pub run_ids : List InterventionCandidateRun → List (List ℕ)
run_ids cs = map (λ (c : InterventionCandidateRun). c.run_id) cs

module _ (u : Unicode) (loads : List ℕ → Loaded) (x : Extractor) where
  abbrev pub intervention_prompt : InterventionState → List ℕ
  intervention_prompt s = x.intervention_format (render_intervention_state s)

  abbrev pub intervention_outcome :
      InterventionState
      → Result ExtractionError (Option InterventionExtraction)
      → Result ExtractionError InterventionExtractionOutcome
  intervention_outcome s (err e) = err e
  intervention_outcome s (ok parsed) = ok (record {
    candidates = s.candidates;
    parsed = parsed;
    raw_output = x.generate (intervention_prompt s);
    prompt_tokens = x.token_count (intervention_prompt s);
  })

  unfoldable pub extract_intervention :
      InterventionState → Result ExtractionError InterventionExtractionOutcome
  unfolding try_parse_intervention render_intervention_state
  extract_intervention s =
      intervention_outcome s
        (try_parse_intervention u loads (x.generate (intervention_prompt s)) (run_ids s.candidates))

  unfoldable pub extract_title : List ℕ → List CurationEvent → TitleExtractionOutcome
  unfolding try_parse_title join render_event
  extract_title prompt events =
      let rendered = x.title_format prompt (rendered_events events) in
      let raw = x.generate rendered in
      record {
        prompt = prompt;
        parsed = try_parse_title u raw x.max_title_length;
        raw_output = raw;
        prompt_tokens = x.token_count rendered;
      }

  abbrev pub failure_prompt : List CurationEvent → List ℕ
  failure_prompt events = x.failure_format (rendered_events events)

  abbrev pub failure_outcome :
      List CurationEvent
      → Result ExtractionError (Option FailureExtraction)
      → Result ExtractionError FailureExtractionOutcome
  failure_outcome events (err e) = err e
  failure_outcome events (ok parsed) = ok (record {
    events = events;
    parsed = parsed;
    raw_output = x.generate (failure_prompt events);
    prompt_tokens = x.token_count (failure_prompt events);
  })

  unfoldable pub extract_failure_cause :
      List CurationEvent → Result ExtractionError FailureExtractionOutcome
  unfolding try_parse_failure join render_event sequences
  extract_failure_cause events =
      failure_outcome events
        (try_parse_failure u loads (x.generate (failure_prompt events)) (sequences events))
