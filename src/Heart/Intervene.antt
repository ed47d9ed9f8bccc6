-- ===== src/Heart/Intervene.antt =====
-- `OpencodeInterventionHandler` of src/ansina/heart/tick/opencode_intervention_handler.py, over the
-- policy, the run service and the journal. The Brain and the text of a run's uuid are parameters.
-- The reason of a decision is read for the last rung alone, where it is one fixed text.
pub mod Dispatch
pub mod Terse
pub mod Kept
pub mod Accounted
use ansina.Prelude.{
  ℕ, String, Option, none, some, List, [], ◌∷◌, ◌++◌, Bool, true, false, if◌then◌else◌, Result, ok,
  err,
}
use ansina.Clock.{iso}
use ansina.Heart.Decision.{TickDecision, codes}
use ansina.Heart.Snapshot.{TickPrompt}
use ansina.Heart.Journal.{
  JournalEntry, Outcome, untouched, BrainEscalationStatus, OpencodeInterventionStatus, take, append,
}
use ansina.Heart.Escalation.{
  BrainStream, BrainCall, consume, opened, declined_call, declined_no_brain, max_detail_length,
  HandlerError, stream_error, service_error, Handled, JournalSettings, Draw, or_rows,
  journal_decision, escalate_decision, Handler, composite,
}
use ansina.Opencode.Run.{Status}
use ansina.Opencode.Service.{
  Service, OpencodeSettings, OpencodeAction, escalate_to_brain, InterventionStatus, Detail,
  intake_paused_detail, compact_unsupported, resubmitted_as, nudged_via, not_found, not_retryable,
  caller_detail, intervention, emit,
}
use ansina.Opencode.Intervention.{Reply, apply_intervention}
use ansina.Opencode.Policy.{PolicySettings, Policy, InterventionDecision, probe_of, decide}

-- What the handlers of a tick write to.
pub record World : Type 0 where
  pub journal : List JournalEntry
  pub service : Service
  pub policy : Policy

abbrev pub status_word : Status → List ℕ
status_word Status.queued = codes "queued"
status_word Status.running = codes "running"
status_word Status.succeeded = codes "succeeded"
status_word Status.failed = codes "failed"
status_word Status.timeout = codes "timeout"
status_word Status.cancelled = codes "cancelled"

-- The texts of `apply_intervention`; `hex` spells a run's id.
unfoldable pub spell : (ℕ → List ℕ) → Detail → List ℕ
spell hex intake_paused_detail = codes "intake paused"
spell hex compact_unsupported =
    codes
      "opencode has no CLI entry point for compact (only POST /api/session/{id}/compact over its HTTP API, which OpencodeCliRunner's one-shot subprocess model cannot reach)"
spell hex (resubmitted_as id) = codes "resubmitted as " ++ hex id
spell hex (nudged_via id) = codes "nudged via new run " ++ hex id
spell hex (not_found id) = codes "run '" ++ (hex id ++ codes "' not found")
spell hex (not_retryable s) = codes "run is '" ++ (status_word s ++ codes "', not retryable")
spell hex (caller_detail text) = text

-- `OpencodeInterventionStatus(status)`
abbrev pub status_of : InterventionStatus → OpencodeInterventionStatus
status_of InterventionStatus.applied = OpencodeInterventionStatus.applied
status_of InterventionStatus.declined = OpencodeInterventionStatus.declined
status_of InterventionStatus.unsupported = OpencodeInterventionStatus.unsupported
status_of InterventionStatus.error = OpencodeInterventionStatus.failed_intervention

abbrev pub declined_flag_off : List ℕ
declined_flag_off = codes "declined: [heart.tick] escalate_to_brain is false"

-- The reason of the last rung.
abbrev pub fault_persists : List ℕ
fault_persists = codes "opencode fault persists with no remaining bounded action"

-- What a call of the handler draws besides: the clocks at its decision, and for a submission.
pub record PolicyDraw : Type 0 where
  pub ticks_run : ℕ
  pub monotonic : ℕ
  pub now : ℕ
  pub new_run : ℕ
  pub submitted_at : ℕ

-- The two outcomes on the row of an escalation, the intervention's and the Brain's.
pub record Escalated : Type 0 where
  pub status : InterventionStatus
  pub detail : List ℕ
  pub call : BrainCall
  pub call_duration : ℕ

abbrev pub flag_off : Escalated
flag_off = record {
  status = InterventionStatus.declined;
  detail = declined_flag_off;
  call = record declined_call { detail = declined_flag_off };
  call_duration = 0;
}

abbrev pub no_brain : Escalated
no_brain = record {
  status = InterventionStatus.declined;
  detail = declined_no_brain;
  call = declined_call;
  call_duration = 0;
}

abbrev called_status : BrainEscalationStatus → InterventionStatus
called_status BrainEscalationStatus.called = InterventionStatus.applied
called_status BrainEscalationStatus.brain_declined = InterventionStatus.applied
called_status BrainEscalationStatus.brain_error = InterventionStatus.error

unfoldable pub called_brain : BrainCall → ℕ → Escalated
unfolding take
called_brain call duration = record {
  status = called_status call.status;
  detail = take max_detail_length fault_persists;
  call = call;
  call_duration = duration;
}

abbrev pub is_escalation : OpencodeAction → Bool
is_escalation OpencodeAction.escalate_to_brain = true
is_escalation OpencodeAction.retry = false
is_escalation OpencodeAction.nudge = false
is_escalation OpencodeAction.compact = false
is_escalation OpencodeAction.pause_intake_action = false

abbrev pub journaled : World → Handled → World × Option HandlerError
journaled w (rows, e) = (record w { journal = rows }, e)

module _ (length : String → ℕ) (hex : ℕ → List ℕ) (c : JournalSettings) (o : OpencodeSettings)
    (p : PolicySettings) (brain : Option (String → BrainStream)) (escalation_enabled : Bool) where
  abbrev pub act_entry : Draw → TickPrompt → ℕ → ℕ → Outcome → JournalEntry
  act_entry d prompt tick_number duration outcome = record {
    id = d.id;
    created_at = iso d.now;
    tick_number = tick_number;
    decision = TickDecision.act;
    note = [];
    prompt_tokens = prompt.tokens;
    duration = duration;
    outcome = outcome;
  }

  abbrev pub appended : JournalEntry → List JournalEntry → Handled
  appended e rows = or_rows rows (append e c.max_entries c.retention_days rows)

  -- `_journal`
  unfoldable pub journal_intervention :
      Draw
      → InterventionDecision
      → InterventionStatus
      → Detail
      → TickPrompt
      → ℕ
      → World
      → World × Option HandlerError
  unfolding append spell take
  journal_intervention d decision status detail prompt tick_number w = journaled w (
      appended
        (act_entry d prompt tick_number 0 (record untouched {
          opencode_run_id = decision.run_id;
          opencode_action = some decision.action;
          opencode_outcome = some (status_of status);
          opencode_detail = take max_detail_length (spell hex detail);
        }))
        w.journal)

  -- `_journal_escalate`, with its line of telemetry.
  unfoldable pub journal_escalate :
      Draw → InterventionDecision → Escalated → TickPrompt → ℕ → World → World × Option HandlerError
  unfolding append emit
  journal_escalate d decision e prompt tick_number w =
      journaled
        (record w {
          service =
              emit length o
                (intervention decision.run_id none decision.action e.status
                  (caller_detail e.detail))
                w.service;
        })
        (appended
          (act_entry d prompt tick_number e.call_duration (record {
            brain_status = some e.call.status;
            brain_detail = e.call.detail;
            brain_prompt_tokens = e.call.prompt_tokens;
            brain_completion_tokens = e.call.completion_tokens;
            opencode_run_id = decision.run_id;
            opencode_action = some decision.action;
            opencode_outcome = some (status_of e.status);
            opencode_detail = e.detail;
          }))
          w.journal)

  abbrev pub streamed :
      Draw
      → InterventionDecision
      → BrainStream
      → TickPrompt
      → ℕ
      → World
      → World × Option HandlerError
  streamed d decision s prompt tick_number w =
      if s.raises
      then (w, some stream_error)
      else journal_escalate d decision (called_brain (consume s.events opened) d.call_duration)
          prompt tick_number w

  abbrev pub asked :
      Option (String → BrainStream)
      → Draw
      → InterventionDecision
      → TickPrompt
      → ℕ
      → World
      → World × Option HandlerError
  asked none d decision prompt tick_number w =
      journal_escalate d decision no_brain prompt tick_number w
  asked (some stream) d decision prompt tick_number w =
      streamed d decision (stream prompt.text) prompt tick_number w

  -- `_escalate_to_brain`
  unfoldable pub escalate_intervention :
      Draw → InterventionDecision → TickPrompt → ℕ → World → World × Option HandlerError
  unfolding journal_escalate called_brain consume
  escalate_intervention d decision prompt tick_number w =
      if escalation_enabled
      then asked brain d decision prompt tick_number w
      else journal_escalate d decision flag_off prompt tick_number w

  abbrev pub replied :
      Draw
      → InterventionDecision
      → TickPrompt
      → ℕ
      → World
      → Reply × Service
      → World × Option HandlerError
  replied d decision prompt tick_number w (err e, s) =
      (record w { service = s }, some service_error)
  replied d decision prompt tick_number w (ok (status, detail), s) =
      journal_intervention d decision status detail prompt tick_number (record w { service = s })

  -- What follows the policy's decision.
  abbrev pub decided :
      PolicyDraw
      → Draw
      → Option InterventionDecision
      → TickPrompt
      → ℕ
      → World
      → World × Option HandlerError
  decided pd d none prompt tick_number w = (w, none)
  decided pd d (some decision) prompt tick_number w =
      if is_escalation decision.action
      then escalate_intervention d decision prompt tick_number w
      else replied d decision prompt tick_number w (
          apply_intervention length o pd.new_run pd.submitted_at decision.run_id decision.action
            w.service)

  abbrev pub acted : PolicyDraw → Draw → TickPrompt → ℕ → World → World × Option HandlerError
  acted pd d prompt tick_number w =
      let (decision, policy) =
        decide p pd.ticks_run pd.monotonic (probe_of p pd.now w.service) w.policy in
      decided pd d decision prompt tick_number (record w { policy = policy })

  -- `OpencodeInterventionHandler.handle`
  unfoldable pub intervene : PolicyDraw → Draw → Handler World
  unfolding escalate_intervention journal_intervention apply_intervention decide probe_of
  intervene pd d TickDecision.idle prompt tick_number duration w = (w, none)
  intervene pd d TickDecision.escalate prompt tick_number duration w = (w, none)
  intervene pd d TickDecision.act prompt tick_number duration w = acted pd d prompt tick_number w
