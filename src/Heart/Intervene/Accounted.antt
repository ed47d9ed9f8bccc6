-- ===== src/Heart/Intervene/Accounted.antt =====
-- What one call of OpencodeInterventionHandler.handle leaves in the journal.
use ansina.Prelude.{
  ℕ, ◌≡◌, ◌≢◌, refl, inl, inr, ◌⊎◌, String, Option, none, some, List, [], ◌∷◌, ◌++◌, Bool, false,
  Bool-cases, ok, err,
}
use ansina.Clock.{iso, parse_iso}
use ansina.Heart.Decision.{TickDecision}
use ansina.Heart.Snapshot.{TickPrompt}
use ansina.Heart.Journal.{JournalEntry, id_among, append, cutoff}
use ansina.Heart.Journal.Newest.{Distinct}
use ansina.Heart.Journal.Retention.{append-retained, retained}
use ansina.Heart.Escalation.{
  BrainStream, consume, opened, HandlerError, JournalSettings, Draw, or_rows,
}
use ansina.Opencode.Service.{Service, OpencodeSettings, emit, intervention, caller_detail}
use ansina.Opencode.Intervention.{Reply}
use ansina.Opencode.Policy.{PolicySettings, Policy, InterventionDecision, probe_of, decide}
use ansina.Heart.Intervene.{
  World, Escalated, flag_off, no_brain, called_brain, journal_intervention, journal_escalate,
  escalate_intervention, decided, intervene, PolicyDraw, is_escalation, replied, asked, journaled,
}

-- The table after a row was written at the clock reading of `d`.
abbrev pub written : JournalSettings → Draw → JournalEntry → List JournalEntry → List JournalEntry
written c d e rows =
    retained (cutoff (parse_iso (iso d.now)) c.retention_days) c.max_entries (rows ++ e ∷ [])

-- The row says which action was tried on which run, at which tick.
abbrev pub Names : ℕ → InterventionDecision → JournalEntry → Type 0
Names n decision e =
    (e.decision ≡ TickDecision.act)
    × (e.tick_number ≡ n)
    × (e.outcome.opencode_run_id ≡ decision.run_id)
    × (e.outcome.opencode_action ≡ some decision.action)

-- Without a decision nothing happens. A decision that raised leaves the journal as it was, and any
-- other leaves one row of its own there.
abbrev pub Accounted :
    JournalSettings
    → Draw
    → ℕ
    → World
    → Option InterventionDecision
    → World × Option HandlerError
    → Type 0
Accounted c d n w none r = (r.0.journal ≡ w.journal) × (r.0.service ≡ w.service) × (r.1 ≡ none)
Accounted c d n w (some decision) r =
    ((r.1 ≢ none) × (r.0.journal ≡ w.journal))
    ⊎ ((e : JournalEntry) × Names n decision e
        × (r.1 ≡ none)
        × (r.0.journal ≡ written c d e w.journal))

module _ (length_of : String → ℕ) (hex : ℕ → List ℕ) (c : JournalSettings) (o : OpencodeSettings)
    (p : PolicySettings) (brain : Option (String → BrainStream)) (escalation_enabled : Bool)
    (d : Draw) (prompt : TickPrompt) (n : ℕ) where
  -- A row that is new is written.
  journaled-Accounted :
      (decision : InterventionDecision) (e : JournalEntry) (w v : World)
      → Names n decision e
      → e.id ≡ d.id
      → e.created_at ≡ iso d.now
      → v.journal ≡ w.journal
      → Distinct w.journal
      → id_among d.id w.journal ≡ false
      → Accounted c d n w
          (some decision)
          (journaled v (or_rows v.journal (append e c.max_entries c.retention_days v.journal)))
  journaled-Accounted decision e w v names id at same distinct fresh =
      let (left, ok_append, is_left, _, _) =
        append-retained e c.max_entries c.retention_days w.journal distinct (rw id fresh) in
      inr (e, names, rw (same, ok_append) refl, rw (same, ok_append) (rw (← at) is_left))

  journal_escalate-Accounted :
      (decision : InterventionDecision) (e : Escalated) (w v : World)
      → v.journal ≡ w.journal
      → Distinct w.journal
      → id_among d.id w.journal ≡ false
      → Accounted c d n w
          (some decision)
          (journal_escalate length_of hex c o p brain escalation_enabled d decision e prompt n v)
  unfolding journal_escalate
  journal_escalate-Accounted decision e w v same distinct fresh =
      let told =
        emit length_of o
          (intervention decision.run_id none decision.action e.status (caller_detail e.detail))
          v.service in
      journaled-Accounted decision _ w (record v { service = told }) (refl, refl, refl, refl) refl
        refl same distinct fresh

  asked-Accounted :
      (stream : Option (String → BrainStream)) (decision : InterventionDecision) (w v : World)
      → v.journal ≡ w.journal
      → Distinct w.journal
      → id_among d.id w.journal ≡ false
      → Accounted c d n w
          (some decision)
          (asked length_of hex c o p brain escalation_enabled stream d decision prompt n v)
  asked-Accounted none decision w v same distinct fresh =
      journal_escalate-Accounted decision no_brain w v same distinct fresh
  asked-Accounted (some stream) decision w v same distinct fresh =
      elim (Bool-cases (stream prompt.text).raises) [
        | inl raised ↦ rw raised (inl (λ e. cc, same))
        | inr ended ↦ rw ended (
            journal_escalate-Accounted decision
              (called_brain (consume (stream prompt.text).events opened) d.call_duration) w v same
              distinct fresh)
      ]

  escalate-Accounted :
      (decision : InterventionDecision) (w v : World)
      → v.journal ≡ w.journal
      → Distinct w.journal
      → id_among d.id w.journal ≡ false
      → Accounted c d n w
          (some decision)
          (escalate_intervention length_of hex c o p brain escalation_enabled d decision prompt n v)
  unfolding escalate_intervention
  escalate-Accounted decision w v same distinct fresh = elim (Bool-cases escalation_enabled) [
    | inl on ↦ rw on (asked-Accounted brain decision w v same distinct fresh)
    | inr off ↦ rw off (journal_escalate-Accounted decision flag_off w v same distinct fresh)
  ]

  replied-Accounted :
      (decision : InterventionDecision) (w v : World) (r : Reply × Service)
      → v.journal ≡ w.journal
      → Distinct w.journal
      → id_among d.id w.journal ≡ false
      → Accounted c d n w
          (some decision)
          (replied length_of hex c o p brain escalation_enabled d decision prompt n v r)
  unfolding journal_intervention
  replied-Accounted decision w v (err e, s) same distinct fresh = inl (λ e. cc, same)
  replied-Accounted decision w v (ok (status, detail), s) same distinct fresh =
      journaled-Accounted decision _ w (record v { service = s }) (refl, refl, refl, refl) refl refl
        same distinct fresh

  decided-Accounted :
      (pd : PolicyDraw) (decision : Option InterventionDecision) (w : World) (policy : Policy)
      → Distinct w.journal
      → id_among d.id w.journal ≡ false
      → Accounted c d n w decision (
          decided length_of hex c o p brain escalation_enabled pd d decision prompt n
            (record w { policy = policy }))
  decided-Accounted pd none w policy distinct fresh = (refl, refl, refl)
  decided-Accounted pd (some decision) w policy distinct fresh =
      elim (Bool-cases (is_escalation decision.action)) [
        | inl last ↦
            rw last
              (escalate-Accounted decision w (record w { policy = policy }) refl distinct fresh)
        | inr bounded ↦
            rw bounded
              (replied-Accounted decision w (record w { policy = policy }) _ refl distinct fresh)
      ]

  -- An `act` tick over a journal with distinct ids, with a new id drawn for its row. If the policy
  -- decides on nothing, the handler changes neither the journal nor the run service and does not
  -- raise. If it decides on an intervention, then either the handler raises and the journal is
  -- what it was, or it returns and the journal has got one row, which names this tick, the action
  -- and the run that the policy chose, whatever the service and the Brain answered. The retention
  -- is applied to the journal with that row.
  pub intervene-Accounted :
      (pd : PolicyDraw) (t : ℕ) (w : World)
      → Distinct w.journal
      → id_among d.id w.journal ≡ false
      → Accounted c d n w
          (decide p pd.ticks_run pd.monotonic (probe_of p pd.now w.service) w.policy).0
          (intervene length_of hex c o p brain escalation_enabled pd d TickDecision.act prompt n t
            w)
  unfolding intervene
  intervene-Accounted pd t w distinct fresh =
      let (decision, policy) =
        decide p pd.ticks_run pd.monotonic (probe_of p pd.now w.service) w.policy in
      decided-Accounted pd decision w policy distinct fresh
