-- ===== src/Heart/Escalation.antt =====
-- src/ansina/heart/tick/brain_escalation_handler.py and `CompositeDecisionHandler` of
-- src/ansina/heart/tick/loop.py. The Brain is a parameter: for a
-- prompt, what its stream yields and whether the iteration raises in the end. A clock reading and
-- the id that is drawn for a row are arguments.
pub mod Row
use ansina.Prelude.{
  ℕ, String, Option, none, some, List, [], ◌∷◌, Bool, true, false, ◌==◌, if◌then◌else◌,
}
use ansina.Clock.{iso}
use ansina.Heart.Decision.{TickDecision, codes}
use ansina.Heart.Snapshot.{TickPrompt}
use ansina.Heart.Journal.{JournalEntry, Outcome, untouched, BrainEscalationStatus, take, append}
use ansina.Heart.Journal as Journal

-- The two counts that a handler reads.
pub record BrainUsage : Type 0 where
  pub prompt_tokens : ℕ
  pub completion_tokens : ℕ

pub data BrainEvent : Type 0 where
  done : Option BrainUsage → BrainEvent
  failed : List ℕ → Option BrainUsage → BrainEvent
  chunk : BrainEvent

pub record BrainStream : Type 0 where
  pub events : List BrainEvent
  pub raises : Bool

-- The variables of the loop over the stream.
pub record BrainCall : Type 0 where
  pub status : BrainEscalationStatus
  pub detail : List ℕ
  pub prompt_tokens : Option ℕ
  pub completion_tokens : Option ℕ

abbrev pub max_detail_length : ℕ
max_detail_length = 500

abbrev pub declined_no_brain : List ℕ
declined_no_brain = codes "declined: [brain] is not enabled or configured"

abbrev with_usage : Option BrainUsage → BrainCall → BrainCall
with_usage none c = c
with_usage (some u) c = record c {
  prompt_tokens = some u.prompt_tokens;
  completion_tokens = some u.completion_tokens;
}

unfoldable pub absorb : BrainEvent → BrainCall → BrainCall
unfolding take
absorb (done usage) c = with_usage usage c
absorb (failed message usage) c = with_usage usage (record c {
  status = BrainEscalationStatus.brain_error;
  detail = take max_detail_length message;
})
absorb chunk c = c

unfoldable pub consume : List BrainEvent → BrainCall → BrainCall
unfolding absorb
consume [] c = c
consume (e ∷ es) c = consume es (absorb e c)

abbrev pub opened : BrainCall
opened = record {
  status = BrainEscalationStatus.called;
  detail = [];
  prompt_tokens = none;
  completion_tokens = none;
}

abbrev pub declined_call : BrainCall
declined_call = record {
  status = BrainEscalationStatus.brain_declined;
  detail = declined_no_brain;
  prompt_tokens = none;
  completion_tokens = none;
}

-- What a handler raises.
pub data HandlerError : Type 0 where
  integrity_error stream_error service_error : HandlerError

abbrev pub Handled : Type 0
Handled = List JournalEntry × Option HandlerError

-- The settings that the handlers were built with.
pub record JournalSettings : Type 0 where
  pub max_entries : ℕ
  pub retention_days : ℕ

-- What one call of a handler draws from outside: the wall clock and the uuid at its `append`, and
-- how long the call of the Brain took.
pub record Draw : Type 0 where
  pub now : ℕ
  pub id : ℕ
  pub call_duration : ℕ

-- The table after a call of `append`, and what it raised.
abbrev pub or_rows : List JournalEntry → Option (JournalEntry × List JournalEntry) → Handled
or_rows rows none = (rows, some integrity_error)
or_rows rows (some (e, left)) = (left, none)

module _ (c : JournalSettings) where
  -- `JournalDecisionHandler.handle`
  unfoldable pub journal_decision :
      Draw → TickDecision → TickPrompt → ℕ → ℕ → List JournalEntry → Handled
  unfolding Journal.handle
  journal_decision d decision prompt tick_number duration rows = or_rows rows (
      Journal.handle c.max_entries c.retention_days d.now d.id decision prompt tick_number duration
        rows)

  -- `BrainEscalationHandler._journal`
  unfoldable pub escalation_entry : Draw → BrainCall → TickPrompt → ℕ → ℕ → JournalEntry
  escalation_entry d call prompt tick_number call_duration = record {
    id = d.id;
    created_at = iso d.now;
    tick_number = tick_number;
    decision = TickDecision.escalate;
    note = [];
    prompt_tokens = prompt.tokens;
    duration = call_duration;
    outcome = record untouched {
      brain_status = some call.status;
      brain_detail = call.detail;
      brain_prompt_tokens = call.prompt_tokens;
      brain_completion_tokens = call.completion_tokens;
    };
  }

  unfoldable pub journal_call : Draw → BrainCall → TickPrompt → ℕ → ℕ → List JournalEntry → Handled
  unfolding escalation_entry append
  journal_call d call prompt tick_number call_duration rows = or_rows rows (
      append (escalation_entry d call prompt tick_number call_duration) c.max_entries
        c.retention_days rows)

  abbrev streamed : Draw → BrainStream → TickPrompt → ℕ → List JournalEntry → Handled
  streamed d s prompt tick_number rows =
      if s.raises
      then (rows, some stream_error)
      else journal_call d (consume s.events opened) prompt tick_number d.call_duration rows

  abbrev asked : Option (String → BrainStream) → Draw → TickPrompt → ℕ → List JournalEntry → Handled
  asked none d prompt tick_number rows = journal_call d declined_call prompt tick_number 0 rows
  asked (some brain) d prompt tick_number rows =
      streamed d (brain prompt.text) prompt tick_number rows

  -- `BrainEscalationHandler.handle`
  unfoldable pub escalate_decision :
      Option (String → BrainStream)
      → Draw
      → TickDecision
      → TickPrompt
      → ℕ
      → ℕ
      → List JournalEntry
      → Handled
  unfolding journal_call consume
  escalate_decision brain d TickDecision.idle prompt tick_number duration rows = (rows, none)
  escalate_decision brain d TickDecision.act prompt tick_number duration rows = (rows, none)
  escalate_decision brain d TickDecision.escalate prompt tick_number duration rows =
      asked brain d prompt tick_number rows

-- A `DecisionHandler` over the state that it writes to.
abbrev pub Handler : Type 0 → Type 0
Handler S = TickDecision → TickPrompt → ℕ → ℕ → S → S × Option HandlerError

abbrev pub and_then :
    {S : Type 0} → (S → S × Option HandlerError) → S × Option HandlerError → S × Option HandlerError
and_then next (s, some e) = (s, some e)
and_then next (s, none) = next s

-- `CompositeDecisionHandler.handle`
unfoldable pub composite : {S : Type 0} → List (Handler S) → Handler S
composite [] decision prompt tick_number duration s = (s, none)
composite (h ∷ hs) decision prompt tick_number duration s =
    and_then (composite hs decision prompt tick_number duration)
      (h decision prompt tick_number duration s)
