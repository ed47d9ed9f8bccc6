-- ===== src/Heart/Intervene/Kept.antt =====
-- What holds of the journal after any run of ticks, whatever their handlers draw or raise.
use ansina.Prelude.{
  ℕ, ◌≤◌, ◌≡◌, inl, inr, String, Option, none, some, List, [], ◌∷◌, ◌++◌, Bool, true, false, length,
  if◌then◌else◌, arith, All, Bool-cases, ok, err,
}
use ansina.Heart.Decision.{TickDecision}
use ansina.Heart.Snapshot.{TickPrompt}
use ansina.Heart.Escalation.{
  BrainStream, consume, opened, HandlerError, JournalSettings, Draw, Handler, and_then, composite,
}
use ansina.Opencode.Service.{Service, OpencodeSettings, Detail, InterventionStatus}
use ansina.Opencode.Intervention.{Reply}
use ansina.Opencode.Policy.{PolicySettings, InterventionDecision, probe_of, decide}
use ansina.Heart.Intervene.{
  World, Escalated, flag_off, no_brain, called_brain, fault_persists, spell, journal_intervention,
  journal_escalate, escalate_intervention, decided, intervene, PolicyDraw, replied, asked,
  is_escalation,
}
use ansina.Heart.Intervene.Dispatch.{TickCall, handlers, dispatch, dispatch_all}
use ansina.Heart.Intervene.Terse.{
  IsKept, append-IsKept, length-take, consume-short, journal_decision-IsKept,
  escalate_decision-IsKept,
}

module _ (length_of : String → ℕ) (hex : ℕ → List ℕ) (c : JournalSettings) (o : OpencodeSettings)
    (p : PolicySettings) (brain : Option (String → BrainStream)) (escalation_enabled : Bool) where
  abbrev Kept : World → Type 0
  Kept w = IsKept c.max_entries w.journal

  -- What a handler does keeps the journal.
  abbrev Keeps : Handler World → Type 0
  Keeps h =
      (decision : TickDecision) (prompt : TickPrompt) (n t : ℕ) (w : World)
      → Kept w
      → Kept (h decision prompt n t w).0

  journal_intervention-IsKept :
      (d : Draw) (decision : InterventionDecision) (status : InterventionStatus) (detail : Detail)
      (prompt : TickPrompt) (n : ℕ) (w : World)
      → Kept w
      → Kept
          (journal_intervention length_of hex c o p brain escalation_enabled d decision status
            detail prompt n w).0
  unfolding journal_intervention
  journal_intervention-IsKept d decision status detail prompt n w k =
      append-IsKept c _ w.journal
        (record {
          short_note = omega arith;
          short_brain_detail = omega arith;
          short_opencode_detail = length-take 500 (spell hex detail);
          idle_silent = λ same. cc;
        })
        k

  journal_escalate-IsKept :
      (d : Draw) (decision : InterventionDecision) (e : Escalated) (prompt : TickPrompt) (n : ℕ)
      (w : World)
      → length e.detail ≤ 500
      → length e.call.detail ≤ 500
      → Kept w
      → Kept
          (journal_escalate length_of hex c o p brain escalation_enabled d decision e prompt n w).0
  unfolding journal_escalate
  journal_escalate-IsKept d decision e prompt n w short brief k =
      append-IsKept c _ w.journal
        (record {
          short_note = omega arith;
          short_brain_detail = brief;
          short_opencode_detail = short;
          idle_silent = λ same. cc;
        })
        k

  asked-IsKept :
      (stream : Option (String → BrainStream)) (d : Draw) (decision : InterventionDecision)
      (prompt : TickPrompt) (n : ℕ) (w : World)
      → Kept w
      → Kept (asked length_of hex c o p brain escalation_enabled stream d decision prompt n w).0
  unfolding called_brain
  asked-IsKept none d decision prompt n w k =
      journal_escalate-IsKept d decision no_brain prompt n w (omega arith) (omega arith) k
  asked-IsKept (some stream) d decision prompt n w k =
      elim (Bool-cases (stream prompt.text).raises) [
        | inl raised ↦ rw raised k
        | inr ended ↦ rw ended (
            journal_escalate-IsKept d decision
              (called_brain (consume (stream prompt.text).events opened) d.call_duration) prompt n w
              (length-take 500 fault_persists)
              (consume-short (stream prompt.text).events opened (omega arith)) k)
      ]

  escalate_intervention-IsKept :
      (d : Draw) (decision : InterventionDecision) (prompt : TickPrompt) (n : ℕ) (w : World)
      → Kept w
      → Kept
          (escalate_intervention length_of hex c o p brain escalation_enabled d decision prompt n
            w).0
  unfolding escalate_intervention
  escalate_intervention-IsKept d decision prompt n w k = elim (Bool-cases escalation_enabled) [
    | inl on ↦ rw on (asked-IsKept brain d decision prompt n w k)
    | inr off ↦
        rw off
          (journal_escalate-IsKept d decision flag_off prompt n w (omega arith) (omega arith) k)
  ]

  replied-IsKept :
      (d : Draw) (decision : InterventionDecision) (prompt : TickPrompt) (n : ℕ) (w : World)
      (r : Reply × Service)
      → Kept w
      → Kept (replied length_of hex c o p brain escalation_enabled d decision prompt n w r).0
  replied-IsKept d decision prompt n w (err e, s) k = k
  replied-IsKept d decision prompt n w (ok (status, detail), s) k =
      journal_intervention-IsKept d decision status detail prompt n (record w { service = s }) k

  decided-IsKept :
      (pd : PolicyDraw) (d : Draw) (decision : Option InterventionDecision) (prompt : TickPrompt)
      (n : ℕ) (w : World)
      → Kept w
      → Kept (decided length_of hex c o p brain escalation_enabled pd d decision prompt n w).0
  decided-IsKept pd d none prompt n w k = k
  decided-IsKept pd d (some decision) prompt n w k =
      elim (Bool-cases (is_escalation decision.action)) [
        | inl last ↦ rw last (escalate_intervention-IsKept d decision prompt n w k)
        | inr bounded ↦ rw bounded (replied-IsKept d decision prompt n w _ k)
      ]

  intervene-IsKept :
      (pd : PolicyDraw) (d : Draw)
      → Keeps (intervene length_of hex c o p brain escalation_enabled pd d)
  unfolding intervene
  intervene-IsKept pd d TickDecision.idle prompt n t w k = k
  intervene-IsKept pd d TickDecision.escalate prompt n t w k = k
  intervene-IsKept pd d TickDecision.act prompt n t w k =
      let (decision, policy) =
        decide p pd.ticks_run pd.monotonic (probe_of p pd.now w.service) w.policy in
      decided-IsKept pd d decision prompt n (record w { policy = policy }) k

  and_then-IsKept :
      (next : World → World × Option HandlerError) (r : World × Option HandlerError)
      → ((w : World) → Kept w → Kept (next w).0)
      → Kept r.0
      → Kept (and_then next r).0
  and_then-IsKept next (w, none) keeps k = keeps w k
  and_then-IsKept next (w, some e) keeps k = k

  composite-IsKept : (hs : List (Handler World)) → All Keeps hs → Keeps (composite hs)
  unfolding composite
  composite-IsKept [] all decision prompt n t w k = k
  composite-IsKept (h ∷ hs) (first, rest) decision prompt n t w k =
      and_then-IsKept (composite hs decision prompt n t) (h decision prompt n t w)
        (λ v kept. composite-IsKept hs rest decision prompt n t v kept)
        (first decision prompt n t w k)

  All-if :
      (b : Bool) (h : Handler World) (hs : List (Handler World))
      → Keeps h
      → All Keeps hs
      → All Keeps ((if b then h ∷ [] else []) ++ hs)
  All-if true h hs keeps rest = (keeps, rest)
  All-if false h hs keeps rest = rest

  handlers-IsKept :
      (interventions_enabled : Bool) (t : TickCall)
      → All Keeps (handlers length_of hex c o p brain escalation_enabled interventions_enabled t)
  handlers-IsKept b t = (
    λ decision prompt n u w k.
        journal_decision-IsKept c t.journal_draw decision prompt n u w.journal k,
    All-if escalation_enabled _ _
        (λ decision prompt n u w k.
          escalate_decision-IsKept c brain t.brain_draw decision prompt n u w.journal k)
        (if_last b t),
  )
    where
      if_last :
          (b : Bool) (t : TickCall)
          → All Keeps (
              if b
              then intervene length_of hex c o p brain escalation_enabled t.policy_draw
                  t.intervention_draw
                ∷ []
              else [])
      if_last true t = (intervene-IsKept t.policy_draw t.intervention_draw, tt)
      if_last false t = tt

  dispatch_all-Kept :
      (interventions_enabled : Bool) (ts : List TickCall) (w : World)
      → Kept w
      → Kept (dispatch_all length_of hex c o p brain escalation_enabled interventions_enabled ts w)
  unfolding dispatch_all dispatch
  dispatch_all-Kept b [] w k = k
  dispatch_all-Kept b (t ∷ ts) w k =
      dispatch_all-Kept b ts (dispatch length_of hex c o p brain escalation_enabled b t w).0 (
        composite-IsKept (handlers length_of hex c o p brain escalation_enabled b t)
          (handlers-IsKept b t) t.decision t.prompt t.tick_number t.duration w k)

  -- Whatever the ticks decide, whatever ids and clocks their handlers draw, and whatever the Brain
  -- and the run service answer or raise: starting from an empty journal it never has more than
  -- `max_entries` rows after a tick, no two rows have one id, every note and both details have at
  -- most 500 characters, and the row of an idle tick says nothing and names neither the Brain nor a
  -- run.
  pub dispatch_all-IsKept :
      (interventions_enabled : Bool) (ts : List TickCall) (w : World)
      → w.journal ≡ []
      → IsKept c.max_entries
          (dispatch_all length_of hex c o p brain escalation_enabled interventions_enabled ts
            w).journal
  dispatch_all-IsKept b ts w empty =
      dispatch_all-Kept b ts w
        (rw empty (record { bounded = omega arith; distinct = tt; terse = tt }))
