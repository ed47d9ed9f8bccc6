-- ===== src/Heart/Tick.antt =====
-- `TickLoop` of src/ansina/heart/tick/loop.py: the loop's state and every method that changes it.
-- Durations and instants are whole numbers of one unit (the source has floating seconds), and
-- `overrun_ratio` is in thousandths.
pub mod Once
pub mod Invariant
pub mod Breaker
pub mod Schedule
pub mod Rounds
use ansina.Heart.Decision.{TickDecision}
use ansina.Prelude.{
  ℕ, ◌+◌, ◌*◌, String, Option, none, some, Bool, true, false, ltb, leb, if◌then◌else◌, Result, ok,
  err,
}

-- What `pause_reason` holds: the breaker's two messages with the numbers they are formatted with,
-- or the text of a caller.
pub data PauseReason : Type 0 where
  failures : ℕ → ℕ → PauseReason
  overruns : ℕ → ℕ → ℕ → PauseReason
  text : String → PauseReason

-- The constructor's settings that the loop reads afterwards.
pub record TickConfig : Type 0 where
  pub interval : ℕ
  pub max_output_tokens : ℕ
  pub max_consecutive_failures : ℕ
  pub overrun_ratio : ℕ
  pub auto_pause_enabled : Bool

pub record TickLoop : Type 0 where
  pub in_flight : Bool
  pub paused : Bool
  pub pause_reason : Option PauseReason
  pub ticks_run : ℕ
  pub last_decision : Option TickDecision
  pub last_tick_at : Option ℕ
  pub last_duration : Option ℕ
  pub failures_total : ℕ
  pub consecutive_failures : ℕ
  pub consecutive_overruns : ℕ
  pub idle_total : ℕ
  pub act_total : ℕ
  pub escalate_total : ℕ

pub data InitError : Type 0 where
  bad_interval bad_max_failures bad_overrun_ratio : InitError

abbrev pub fresh : TickLoop
fresh = record {
  in_flight = false;
  paused = false;
  pause_reason = none;
  ticks_run = 0;
  last_decision = none;
  last_tick_at = none;
  last_duration = none;
  failures_total = 0;
  consecutive_failures = 0;
  consecutive_overruns = 0;
  idle_total = 0;
  act_total = 0;
  escalate_total = 0;
}

-- `TickLoop.__init__`: its guards, in their order, then the initial state. Lengths of time are
-- natural numbers here, so a negative `jitter_seconds` has no counterpart.
unfoldable pub init : TickConfig → Result InitError TickLoop
init c =
    if leb c.interval 0
    then err bad_interval
    else if ltb c.max_consecutive_failures 1
    then err bad_max_failures
    else if leb c.overrun_ratio 0
    then err bad_overrun_ratio
    else ok fresh

unfoldable pub pause : Option PauseReason → TickLoop → TickLoop
pause reason s = record s { paused = true; pause_reason = reason }

unfoldable pub resume : TickLoop → TickLoop
resume s = record s {
  paused = false;
  pause_reason = none;
  consecutive_failures = 0;
  consecutive_overruns = 0;
}

unfoldable pub record_decision : TickDecision → TickLoop → TickLoop
record_decision TickDecision.idle s = record s { idle_total = s.idle_total + 1 }
record_decision TickDecision.act s = record s { act_total = s.act_total + 1 }
record_decision TickDecision.escalate s = record s { escalate_total = s.escalate_total + 1 }

module _ (c : TickConfig) where
  unfoldable pub trip_if : Bool → PauseReason → TickLoop → TickLoop
  unfolding pause
  trip_if tripped reason s =
      if tripped then (if c.auto_pause_enabled then pause (some reason) s else s) else s

  unfoldable pub record_failure : TickLoop → TickLoop
  unfolding trip_if
  record_failure s =
      let n = s.consecutive_failures + 1 in
      trip_if (leb c.max_consecutive_failures n) (PauseReason.failures n c.max_consecutive_failures)
        (record s { failures_total = s.failures_total + 1; consecutive_failures = n })

  -- `duration >= interval * overrun_ratio`
  abbrev pub is_overrun : ℕ → Bool
  is_overrun duration = leb (c.interval * c.overrun_ratio) (duration * 1000)

  unfoldable pub record_success : ℕ → TickLoop → TickLoop
  unfolding trip_if
  record_success duration s =
      let n = if is_overrun duration then s.consecutive_overruns + 1 else 0 in
      trip_if (leb c.max_consecutive_failures n)
        (PauseReason.overruns n c.overrun_ratio c.max_consecutive_failures)
        (record s { consecutive_failures = 0; consecutive_overruns = n })

  -- The bookkeeping of `tick_once` between the parsed reply and the dispatch.
  unfoldable pub complete : TickDecision → ℕ → ℕ → TickLoop → TickLoop
  unfolding record_decision record_success
  complete decision duration at s =
      let t : TickLoop = record s { ticks_run = s.ticks_run + 1; last_decision = some decision } in
      record_success duration (record (record_decision decision t) {
        last_tick_at = some at;
        last_duration = some duration;
      })
