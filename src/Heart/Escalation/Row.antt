-- ===== src/Heart/Escalation/Row.antt =====
-- What BrainEscalationHandler.handle says of a stream that it read to the end.
use ansina.Prelude.{ℕ, ◌≡◌, refl, ◌∙◌, String, Option, none, some, List, [], ◌∷◌, ◌++◌, false}
use ansina.Clock.{iso, parse_iso}
use ansina.Heart.Decision.{TickDecision}
use ansina.Heart.Snapshot.{TickPrompt}
use ansina.Heart.Journal.{JournalEntry, BrainEscalationStatus, id_among, take, cutoff}
use ansina.Heart.Journal.Newest.{Distinct}
use ansina.Heart.Journal.Retention.{append-retained, retained}
use ansina.Heart.Escalation.{
  BrainUsage, BrainEvent, done, failed, chunk, BrainStream, BrainCall, absorb, consume, opened,
  JournalSettings, Draw, escalation_entry, journal_call, escalate_decision,
}

abbrev later {ℓ} : {A : Type ℓ} → Option A → Option A → Option A
later (some a) earlier = some a
later none earlier = earlier

abbrev failure : BrainEvent → Option (List ℕ)
failure (done u) = none
failure (failed m u) = some m
failure chunk = none

abbrev usage : BrainEvent → Option BrainUsage
usage (done u) = u
usage (failed m u) = u
usage chunk = none

-- The message of the last failure that the stream reported.
abbrev pub last_failure : List BrainEvent → Option (List ℕ)
last_failure [] = none
last_failure (e ∷ es) = later (last_failure es) (failure e)

-- The last account of tokens in the stream.
abbrev pub last_usage : List BrainEvent → Option BrainUsage
last_usage [] = none
last_usage (e ∷ es) = later (last_usage es) (usage e)

abbrev failed_with : Option (List ℕ) → BrainCall → BrainCall
failed_with none c = c
failed_with (some m) c = record c {
  status = BrainEscalationStatus.brain_error;
  detail = take 500 m;
}

abbrev counted : Option BrainUsage → BrainCall → BrainCall
counted none c = c
counted (some u) c = record c {
  prompt_tokens = some u.prompt_tokens;
  completion_tokens = some u.completion_tokens;
}

-- The outcome of a call: an error if the stream reported one, with the last message, and the last
-- counts of tokens.
abbrev pub summary : List BrainEvent → BrainCall → BrainCall
summary es c = counted (last_usage es) (failed_with (last_failure es) c)

counted_twice :
    (late early : Option BrainUsage) (f g : Option (List ℕ)) (c : BrainCall)
    → counted late (failed_with f (counted early (failed_with g c)))
      ≡ counted (later late early) (failed_with (later f g) c)
counted_twice none none none none c = refl
counted_twice none none none (some m) c = refl
counted_twice none none (some k) none c = refl
counted_twice none none (some k) (some m) c = refl
counted_twice none (some u) none none c = refl
counted_twice none (some u) none (some m) c = refl
counted_twice none (some u) (some k) none c = refl
counted_twice none (some u) (some k) (some m) c = refl
counted_twice (some v) none none none c = refl
counted_twice (some v) none none (some m) c = refl
counted_twice (some v) none (some k) none c = refl
counted_twice (some v) none (some k) (some m) c = refl
counted_twice (some v) (some u) none none c = refl
counted_twice (some v) (some u) none (some m) c = refl
counted_twice (some v) (some u) (some k) none c = refl
counted_twice (some v) (some u) (some k) (some m) c = refl

absorb-summary :
    (e : BrainEvent) (c : BrainCall) → absorb e c ≡ counted (usage e) (failed_with (failure e) c)
unfolding absorb
absorb-summary (done none) c = refl
absorb-summary (done (some u)) c = refl
absorb-summary (failed m none) c = refl
absorb-summary (failed m (some u)) c = refl
absorb-summary chunk c = refl

consume-summary : (es : List BrainEvent) (c : BrainCall) → consume es c ≡ summary es c
unfolding consume
consume-summary [] c = refl
consume-summary (e ∷ es) c =
    consume-summary es (absorb e c)
    ∙ rw (absorb-summary e c)
        (counted_twice (last_usage es) (usage e) (last_failure es) (failure e) c)

-- An `escalate` tick over a journal with distinct ids, with a new id drawn, whose stream ends
-- without raising: the handler returns, and the journal has got one row for this tick, to which the
-- retention is applied. The row says `called`, or `error` with the first 500 characters of the last
-- message if the stream reported a failure anywhere, and the last counts of tokens in the stream,
-- those of a failure included.
pub escalate_decision-row :
    (c : JournalSettings) (brain : String → BrainStream) (d : Draw) (prompt : TickPrompt) (n t : ℕ)
    (rows : List JournalEntry)
    → (brain prompt.text).raises ≡ false
    → Distinct rows
    → id_among d.id rows ≡ false
    → escalate_decision c (some brain) d TickDecision.escalate prompt n t rows ≡ (
      retained (cutoff (parse_iso (iso d.now)) c.retention_days) c.max_entries (
          rows
          ++ escalation_entry c d
              (summary (brain prompt.text).events opened)
              prompt
              n
              d.call_duration
            ∷ []),
      none,
    )
unfolding escalate_decision journal_call escalation_entry
escalate_decision-row c brain d prompt n t rows ended distinct fresh =
    let (left, ok_append, is_left, _, _) =
      append-retained
        (escalation_entry c d (consume (brain prompt.text).events opened) prompt n d.call_duration)
        c.max_entries c.retention_days rows distinct fresh in
    rw (ended, ok_append, is_left, consume-summary (brain prompt.text).events opened) refl
