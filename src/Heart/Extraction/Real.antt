-- ===== src/Heart/Extraction/Real.antt =====
-- What HeartStructuredExtractor returns is about what the model was shown.
use mathlib.Core.Path.{subst}
use ansina.Prelude.{
  ℕ, ◌≤◌, ◌≡◌, refl, ◌∙◌, inl, inr, Option, none, some, List, [], ◌∷◌, true, arith, Bool-cases,
  Result, ok, err, length, In, ◌==◌, pos, negsuc,
}
use ansina.Heart.Decision.{same, codes, Unicode}
use ansina.Heart.Curation.{CurationEvent, sequences, member}
use ansina.Heart.Intervene.Terse.{length-take}
use ansina.Opencode.Service.{OpencodeAction}
use ansina.Heart.Extraction.{
  ExtractionError, FailureCause, InterventionCandidateRun, InterventionExtraction,
  FailureExtraction, reason_of, named_run, intervention_of, intervention_fields, parse_json_object,
  read_with, try_parse_intervention, text_among, evidence_of, failure_of, cause_field,
  failure_fields, try_parse_failure,
}
use ansina.Json.{Json, Loaded, field}
use ansina.Heart.Extraction.Extractor.{
  InterventionState, InterventionExtractionOutcome, FailureExtractionOutcome, Extractor, run_ids,
  intervention_outcome, intervention_prompt, extract_intervention, failure_outcome, failure_prompt,
  extract_failure_cause,
}
use ansina.Heart.Extraction.Wrapped.{same-eq}

-- The run is one of the candidates.
abbrev pub Shown : List InterventionCandidateRun → Option (List ℕ) → Type 0
Shown cs none = Unit {0}
Shown cs (some id) = (c : InterventionCandidateRun) × In c cs × (c.run_id ≡ id)

text_among-In :
    (id : List ℕ) (cs : List InterventionCandidateRun)
    → text_among id (run_ids cs) ≡ true
    → Shown cs (some id)
unfolding text_among
text_among-In id [] h = cc
text_among-In id (c ∷ cs) h = elim (Bool-cases (same c.run_id id)) [
  | inl here ↦ (c, inl refl, same-eq c.run_id id here)
  | inr later ↦ let (d, i, is) = text_among-In id cs (rw later at h) in (d, inr i, is)
]

named_run-Shown :
    (cs : List InterventionCandidateRun) (j : Option Json) (run : Option (List ℕ))
    → named_run (run_ids cs) j ≡ some run
    → Shown cs run
named_run-Shown cs none none h = tt
named_run-Shown cs none (some id) h = cc
named_run-Shown cs (some Json.null) none h = tt
named_run-Shown cs (some Json.null) (some id) h = cc
named_run-Shown cs (some (Json.number n)) run h = cc
named_run-Shown cs (some (Json.boolean b)) run h = cc
named_run-Shown cs (some Json.other) run h = cc
named_run-Shown cs (some (Json.text t)) none h = tt
named_run-Shown cs (some (Json.text t)) (some id) h =
    elim (Bool-cases (text_among t (run_ids cs))) [
      | inl real ↦
          let is : t ≡ id = ground arith in
          let (c, i, named) = text_among-In t cs real in (c, i, named ∙ is)
      | inr unknown ↦ absurd (cc (rw unknown at h))
    ]

reason_of-short : (j : Option Json) → length (reason_of j) ≤ 200
reason_of-short none = omega arith
reason_of-short (some (Json.text t)) = length-take 200 t
reason_of-short (some (Json.number n)) = omega arith
reason_of-short (some (Json.boolean b)) = omega arith
reason_of-short (some Json.null) = omega arith
reason_of-short (some Json.other) = omega arith

-- What an intervention that was read says is about the candidates, and short.
abbrev pub IsReal : List InterventionCandidateRun → Option InterventionExtraction → Type 0
IsReal cs none = Unit {0}
IsReal cs (some x) = Shown cs x.run_id × (length x.reason ≤ 200)

intervention_of-IsReal :
    (cs : List InterventionCandidateRun) (action : Option (Option OpencodeAction))
    (run : Option (Option (List ℕ))) (reason : List ℕ)
    → ((r : Option (List ℕ)) → run ≡ some r → Shown cs r)
    → length reason ≤ 200
    → IsReal cs (intervention_of action run reason)
intervention_of-IsReal cs none run reason real short = tt
intervention_of-IsReal cs (some a) none reason real short = tt
intervention_of-IsReal cs (some a) (some r) reason real short = (real r refl, short)

abbrev pub Evident : List CurationEvent → Option FailureExtraction → Type 0
Evident es none = Unit {0}
Evident es (some x) = (e : CurationEvent) × In e es × (e.sequence ≡ x.evidence_event_seq)

member-In :
    (n : ℕ) (es : List CurationEvent)
    → member n (sequences es) ≡ true
    → (e : CurationEvent) × In e es × (e.sequence ≡ n)
unfolding member sequences
member-In n [] h = cc
member-In n (e ∷ es) h = elim (Bool-cases (e.sequence == n)) [
  | inl here ↦ (e, inl refl, ground arith)
  | inr later ↦ let (d, i, is) = member-In n es (rw later at h) in (d, inr i, is)
]

failure_of-Evident :
    (es : List CurationEvent) (cause : Option FailureCause) (j : Option Json)
    → Evident es (failure_of cause (evidence_of (sequences es) j))
failure_of-Evident es none j = tt
failure_of-Evident es (some cause) none = tt
failure_of-Evident es (some cause) (some (Json.text t)) = tt
failure_of-Evident es (some cause) (some (Json.boolean b)) = tt
failure_of-Evident es (some cause) (some Json.null) = tt
failure_of-Evident es (some cause) (some Json.other) = tt
failure_of-Evident es (some cause) (some (Json.number (negsuc n))) = tt
failure_of-Evident es (some cause) (some (Json.number (pos n))) =
    elim (Bool-cases (member n (sequences es))) [
      | inl known ↦ rw known (member-In n es known)
      | inr unknown ↦ rw unknown tt
    ]

module _ (u : Unicode) (loads : List ℕ → Loaded) where
  read_with-sound :
      {A : Type 0} (P : Option A → Type 0) (f : List (List ℕ × Json) → Option A)
      (r : Result ExtractionError (Option (List (List ℕ × Json)))) (a : Option A)
      → P none
      → ((fields : List (List ℕ × Json)) → P (f fields))
      → read_with u loads f r ≡ ok a
      → P a
  read_with-sound P f (err e) a nothing each h = cc
  read_with-sound P f (ok none) a nothing each h = let is : none ≡ a = cc in subst P is nothing
  read_with-sound P f (ok (some fields)) a nothing each h =
      let is : f fields ≡ a = cc in subst P is (each fields)

  intervention_fields-IsReal :
      (cs : List InterventionCandidateRun) (fields : List (List ℕ × Json))
      → IsReal cs (intervention_fields u loads (run_ids cs) fields)
  unfolding intervention_fields
  intervention_fields-IsReal cs fields =
      intervention_of-IsReal cs _ _ _
        (λ r h. named_run-Shown cs (field (codes "run_id") fields) r h)
        (reason_of-short (field (codes "reason") fields))

  failure_fields-Evident :
      (es : List CurationEvent) (fields : List (List ℕ × Json))
      → Evident es (failure_fields u loads (sequences es) fields)
  unfolding failure_fields
  failure_fields-Evident es fields =
      failure_of-Evident es (cause_field (field (codes "cause") fields))
        (field (codes "evidence_event_seq") fields)

  module _ (x : Extractor) where
    -- Whatever the model replies: when the extractor returns, an intervention that it read names no
    -- run or one of the candidates that were shown, with at most 200 characters of reason, and a
    -- cause of failure that it read points at one of the events that were shown.
    pub extract_intervention-IsReal :
        (s : InterventionState) (events : List CurationEvent) (o : InterventionExtractionOutcome)
        (f : FailureExtractionOutcome)
        → extract_intervention u loads x s ≡ ok o
        → extract_failure_cause u loads x events ≡ ok f
        → IsReal s.candidates o.parsed × Evident events f.parsed
    unfolding extract_intervention extract_failure_cause try_parse_intervention try_parse_failure
    extract_intervention-IsReal s events o f ran failed = (
      intervention_real (parse_json_object u loads (x.generate (intervention_prompt u loads x s)))
          ran,
      failure_real (parse_json_object u loads (x.generate (failure_prompt u loads x events)))
          failed,
    )
      where
        intervention_real :
            (r : Result ExtractionError (Option (List (List ℕ × Json))))
            → intervention_outcome u loads x s
                (read_with u loads (intervention_fields u loads (run_ids s.candidates)) r)
              ≡ ok o
            → IsReal s.candidates o.parsed
        intervention_real (err e) h = cc
        intervention_real (ok none) h =
            let is : none ≡ o.parsed = cc in subst (IsReal s.candidates) is tt
        intervention_real (ok (some fields)) h =
            let is : intervention_fields u loads (run_ids s.candidates) fields ≡ o.parsed = cc in
            subst (IsReal s.candidates) is (intervention_fields-IsReal s.candidates fields)

        failure_real :
            (r : Result ExtractionError (Option (List (List ℕ × Json))))
            → failure_outcome u loads x events
                (read_with u loads (failure_fields u loads (sequences events)) r)
              ≡ ok f
            → Evident events f.parsed
        failure_real (err e) h = cc
        failure_real (ok none) h = let is : none ≡ f.parsed = cc in subst (Evident events) is tt
        failure_real (ok (some fields)) h =
            let is : failure_fields u loads (sequences events) fields ≡ f.parsed = cc in
            subst (Evident events) is (failure_fields-Evident events fields)
