-- ===== src/Tests/Journal.antt =====
-- The journal and the handlers that write to it, at concrete inputs.
use ansina.Prelude.{
  ℕ, ◌+◌, ◌*◌, ◌≤◌, ◌≡◌, refl, String, none, some, List, [], ◌∷◌, ◌++◌, true, false, length,
}
use ansina.Clock.{parse_iso}
use ansina.Heart.Decision.{TickDecision, codes}
use ansina.Heart.Snapshot.{SnapshotItem, TickPrompt}
use ansina.Heart.Curation.{decimal}
use ansina.Heart.Journal.{
  JournalEntry, untouched, id_among, append, sweep, cutoff, list_recent, build_note, collect,
  BrainEscalationStatus,
}
use ansina.Heart.Journal.Newest.{Distinct}
use ansina.Heart.Journal.Retention.{retained, append-retained}
use ansina.Heart.Escalation.{BrainEvent, BrainStream, Draw, JournalSettings, opened}
use ansina.Heart.Escalation.Row.{summary}
use ansina.Heart.Intervene.{World, PolicyDraw, intervene}
use ansina.Heart.Intervene.Dispatch.{TickCall, dispatch_all}
use ansina.Heart.Intervene.Terse.{IsKept}
use ansina.Heart.Intervene.Kept.{dispatch_all-IsKept}
use ansina.Heart.Intervene.Accounted.{Accounted, intervene-Accounted}
use ansina.Opencode.Run.{RunRequest, Status}
use ansina.Opencode.Repository.{new_run}
use ansina.Opencode.Service.{OpencodeSettings, init}
use ansina.Opencode.Policy.{PolicySettings, initial, probe_of, decide}

abbrev entry : ℕ → ℕ → JournalEntry
entry id created_at = record {
  id = id;
  created_at = created_at;
  tick_number = id;
  decision = TickDecision.idle;
  note = [];
  prompt_tokens = 10;
  duration = 1;
  outcome = untouched;
}

-- Three rows, in the order in which they were written; two have one timestamp.
abbrev rows : List JournalEntry
rows = entry 4 200000000 ∷ entry 9 300000000 ∷ entry 2 300000000 ∷ []

rows-Distinct : Distinct rows
unfolding id_among
rows-Distinct = (refl, (refl, (refl, tt)))

-- The newest first, the greater id first among equals.
newest_two : list_recent 2 none rows ≡ entry 9 300000000 ∷ entry 2 300000000 ∷ []
unfolding list_recent
newest_two = refl

since_is_exclusive :
    list_recent 5 (some 200000000) rows ≡ entry 9 300000000 ∷ entry 2 300000000 ∷ []
unfolding list_recent
since_is_exclusive = refl

-- A row is older than a day, and one more row than two is there.
sweep_both : sweep (parse_iso 300000000) 2 1 rows ≡ (entry 9 300000000 ∷ entry 2 300000000 ∷ [], 1)
unfolding sweep
sweep_both = refl

append_takes_id : append (entry 9 400000000) 2 1 rows ≡ none
unfolding append
append_takes_id = refl

append-retained_example :
    (left : List JournalEntry) × (append (entry 11 400000000) 2 1 rows
      ≡ some (entry 11 400000000, left))
    × (left
        ≡ retained
            (cutoff (parse_iso (entry 11 400000000).created_at) 1)
            2
            (rows ++ entry 11 400000000 ∷ []))
    × (length left ≤ 2)
    × Distinct left
unfolding id_among
append-retained_example = append-retained (entry 11 400000000) 2 1 rows rows-Distinct refl

abbrev item : String → ℕ → SnapshotItem
item text priority = record { source = "daemon_state"; text = text; priority = priority }

note_of_the_top_band :
    build_note (item "disk full" 30 ∷ item "late" 30 ∷ item "tick 4" 10 ∷ [])
    ≡ codes "daemon_state reported: disk full daemon_state reported: late"
unfolding build_note
note_of_the_top_band = refl

history_is_oldest_first :
    collect 2 rows ≡ some (codes "Recent tick history (oldest first): tick 2: idle | tick 9: idle")
unfolding collect
history_is_oldest_first = refl

abbrev prompt : TickPrompt
prompt = record {
  text = "state";
  tokens = 12;
  items_included = 1;
  items_dropped = 0;
  items = item "run failed" 30 ∷ [];
}

-- The stream fails and says so, and then accounts for nothing.
abbrev brain : String → BrainStream
brain text = record {
  events =
      BrainEvent.chunk
      ∷ BrainEvent.failed (codes "overloaded")
          (some (record { prompt_tokens = 40; completion_tokens = 2 }))
      ∷ BrainEvent.done none
      ∷ [];
  raises = false;
}

abbrev journal_settings : JournalSettings
journal_settings = record { max_entries = 3; retention_days = 7 }

abbrev draw : ℕ → Draw
draw id = record { now = 300000001000; id = id; call_duration = 5 }

the_failure_counts :
    (summary (brain "state").events opened).status ≡ BrainEscalationStatus.brain_error
the_failure_counts = refl

abbrev request : RunRequest
request = record {
  prompt = "fix the build";
  session_id = none;
  continue_last = false;
  fork = false;
  model = none;
  agent = none;
  auto_approve = none;
}

-- One run has failed a moment ago.
abbrev world : World
world = record {
  journal = rows;
  service = init false (record (new_run 3 300000000 request none) { status = Status.failed } ∷ []);
  policy = initial;
}

abbrev service_settings : OpencodeSettings
service_settings = record { max_prompt_chars = 100; queue_max_depth = 3; telemetry_on = true }

abbrev policy_settings : PolicySettings
policy_settings = record {
  max_retries_per_run = 2;
  cooldown_ticks = 3;
  max_interventions_per_hour = 1;
  stall = 60000000;
  recent_window_minutes = 60;
}

abbrev policy_draw : PolicyDraw
policy_draw = record {
  ticks_run = 8;
  monotonic = 500;
  now = 300000000500;
  new_run = 77;
  submitted_at = 300000000600;
}

abbrev chars : String → ℕ
chars s = length (codes s)

intervene-Accounted_example :
    Accounted journal_settings
      (draw 21)
      8
      world
      (decide policy_settings 8 500 (probe_of policy_settings 300000000500 world.service) initial).0
      (intervene chars decimal journal_settings service_settings policy_settings
        (some brain)
        true
        policy_draw
        (draw 21)
        TickDecision.act
        prompt
        8
        1
        world)
unfolding id_among
intervene-Accounted_example =
    intervene-Accounted chars decimal journal_settings service_settings policy_settings (some brain)
      true (draw 21) prompt 8 policy_draw 1 world rows-Distinct refl

abbrev tick : ℕ → TickDecision → TickCall
tick n decision = record {
  decision = decision;
  prompt = prompt;
  tick_number = n;
  duration = 1;
  journal_draw = draw (n * 3);
  brain_draw = draw (n * 3 + 1);
  policy_draw = policy_draw;
  intervention_draw = draw (n * 3 + 2);
}

abbrev ticks : List TickCall
ticks = tick 1 TickDecision.escalate ∷ tick 2 TickDecision.idle ∷ tick 3 TickDecision.act ∷ []

abbrev empty_world : World
empty_world = record world { journal = [] }

dispatch_all-IsKept_example :
    IsKept 3
      (dispatch_all chars decimal journal_settings service_settings policy_settings
        (some brain)
        true
        true
        ticks
        empty_world).journal
dispatch_all-IsKept_example =
    dispatch_all-IsKept chars decimal journal_settings service_settings policy_settings (some brain)
      true true ticks empty_world refl
