-- ===== src/Tests/Heart.antt =====
-- The tick loop of src/ansina/heart/tick at concrete inputs.

use Prim.Native.String.{count as chars}
use ansina.Prelude.{
  length, ℕ, ◌+◌, ◌≡◌, ◌≢◌, refl, map, String, Option, none, some, List, [], ◌∷◌, true, false, ◌||◌,
  ◌==◌, arith,
}
use ansina.Heart.Decision.{TickDecision, Unicode, codes, try_parse_decision}
use ansina.Heart.Snapshot.{SnapshotItem, SnapshotSource, Template, available_tokens, build_prompt}
use ansina.Heart.Snapshot.Budget.{Trims, build_prompt-Trims}
use ansina.Heart.Tick.{TickConfig, init, fresh}
use ansina.Heart.Tick.Once.{HeartPort, TickInput}
use ansina.Heart.Tick.Invariant.{
  IsSafe, run_tick_call, resume_call, run_calls, init-run_calls-IsSafe,
}
use ansina.Heart.Tick.Breaker.{
  run_ticks, HandlerFails, failing_rounds_trip, handler_failures_never_trip,
}
use ansina.Heart.Tick.Schedule.{NextSlot, next_tick_number, next_tick_number-NextSlot}
use ansina.Heart.Tick.Rounds.{
  Round, Beat, Stop, not_yet, set_after, Schedule, run, OnSchedule, run-OnSchedule,
}

abbrev ascii : Unicode
ascii = record { is_space = λ c. c == 32 || c == 10; lower = λ xs. xs }

-- The reasoning before the answer is left out, and so are the quotes and the rest of the answer.
reply_after_thinking :
    try_parse_decision ascii (codes "so act?</think>\n  \"escalate\". Now")
    ≡ some TickDecision.escalate
unfolding try_parse_decision
reply_after_thinking = refl

hedged_reply : try_parse_decision ascii (codes "I think idle") ≡ none
unfolding try_parse_decision
hedged_reply = refl

-- The tokenizer counts characters.
abbrev config : TickConfig
config = record {
  interval = 30;
  max_output_tokens = 16;
  max_consecutive_failures = 3;
  overrun_ratio = 2000;
  auto_pause_enabled = true;
}

abbrev template : Template
template = record { before = "State: "; after = " Decide." }

-- A Heart whose every answer is the given one.
abbrev heart : Option (List ℕ) → HeartPort
heart reply = record {
  unicode = ascii;
  template = template;
  context_tokens = 100;
  token_count = chars;
  generate = λ prompt n. reply;
}

abbrev item : String → ℕ → SnapshotItem
item text priority = record { source = "test"; text = text; priority = priority }

abbrev items : List SnapshotItem
items = item "disk full" 5 ∷ item "mail" 3 ∷ item "a long line that does not fit" 1 ∷ []

abbrev sources : List SnapshotSource
sources =
    record { name = "mail"; collected = some (item "mail" 3 ∷ []) }
    ∷ record { name = "broken"; collected = none }
    ∷ record { name = "disk"; collected = some (item "disk full" 5 ∷ []) }
    ∷ []

abbrev tick : TickInput
tick = record {
  sources = sources;
  started = 100;
  finished = 103;
  wall = 1700000000;
  handler_ok = λ d p n t. false;
}

abbrev silent : HeartPort
silent = heart none

abbrev acting : HeartPort
acting = heart (some (codes "act"))

init-run_calls-IsSafe_example :
    IsSafe config
      (run_calls config acting (run_tick_call tick ∷ resume_call ∷ run_tick_call tick ∷ []) fresh)
unfolding init
init-run_calls-IsSafe_example =
    init-run_calls-IsSafe config acting (run_tick_call tick ∷ resume_call ∷ run_tick_call tick ∷ [])
      fresh refl

failing_rounds_trip_example :
    ((run_ticks config silent (tick ∷ tick ∷ tick ∷ tick ∷ []) fresh).paused ≡ true)
    × ((run_ticks config silent (tick ∷ tick ∷ tick ∷ tick ∷ []) fresh).consecutive_failures ≡ 3)
failing_rounds_trip_example =
    failing_rounds_trip config silent (tick ∷ tick ∷ tick ∷ tick ∷ []) fresh refl refl refl refl
      (omega arith) (refl, (refl, (refl, (refl, tt))))

abbrev handler_fails : HandlerFails config acting tick
handler_fails = record {
  raw = codes "act";
  replied = refl;
  raises = λ d p n t. refl;
  in_time = refl;
}

handler_failures_never_trip_example :
    let t = run_ticks config acting (tick ∷ tick ∷ tick ∷ tick ∷ []) fresh in
    (t.paused ≡ false) × (t.failures_total ≡ 4) × (t.ticks_run ≡ 4)
handler_failures_never_trip_example =
    handler_failures_never_trip config acting (tick ∷ tick ∷ tick ∷ tick ∷ []) fresh refl refl
      (omega arith) (handler_fails, (handler_fails, (handler_fails, (handler_fails, tt))))

next_tick_number-NextSlot_example :
    (r : ℕ) × (next_tick_number 4 1000 1200 30 ≡ some r) × NextSlot 4 1000 1200 30 r
next_tick_number-NextSlot_example = next_tick_number-NextSlot 4 1000 1200 30 (omega arith)

abbrev round : Stop → Round
round stop = record { idle = 1; jitter = 2; stop = stop; late = 3; input = tick; spent = 250 }

-- The first tick takes longer than eight slots, and the event is set in the wait after it.
abbrev two_rounds : List Round
two_rounds = round not_yet ∷ round (set_after 3) ∷ []

abbrev beats_of : Option Schedule → List Beat
beats_of none = []
beats_of (some o) = o.beats

-- The event is set in the second wait, which is for slot 10; the first slot's deadline is 1030.
second_wait_is_stopped :
    map (λ (b : Beat). b.woken) (beats_of (run config silent 1000 0 1000 two_rounds fresh))
    ≡ 1035 ∷ []
unfolding run next_tick_number
second_wait_is_stopped = refl

run-OnSchedule_example :
    (o : Schedule) × (run config silent 1000 0 1000 two_rounds fresh ≡ some o)
    × OnSchedule config silent 1000 0 1000 two_rounds fresh o
run-OnSchedule_example = run-OnSchedule config silent 1000 0 1000 two_rounds fresh (omega arith)

build_prompt-Trims_example :
    let p = build_prompt chars items 50 template in
    Trims chars (available_tokens chars 50 template) 0 items p.items
    × (p.items_included ≡ length p.items)
    × (p.items_included + p.items_dropped ≡ 3)
build_prompt-Trims_example = build_prompt-Trims chars items 50 template

two_kept : (build_prompt chars items 50 template).items ≢ []
unfolding build_prompt
two_kept e = cc
