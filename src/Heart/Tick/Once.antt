-- ===== src/Heart/Tick/Once.antt =====
-- `tick_once` and `run` of src/ansina/heart/tick/loop.py.
use ansina.Prelude.{
  ℕ, ◌-◌, String, Option, none, some, List, Bool, true, false, Result, ok, err, if◌then◌else◌,
}
use ansina.Heart.Decision.{TickDecision, Unicode, parse_decision}
use ansina.Heart.Snapshot.{SnapshotSource, TickPrompt, Template, collect_items, build_prompt}
use ansina.Heart.Tick.{TickConfig, TickLoop, record_failure, complete}

-- Whether an awaited call returned or raised.
pub data Raised : Type 0 where
  generate_raised handler_raised : Raised

pub data TickOutcome : Type 0 where
  skipped : TickOutcome
  completed : TickDecision → ℕ → TickOutcome

-- The Heart that the loop was built with, and the shipped prompt template.
pub record HeartPort : Type 0 where
  pub unicode : Unicode
  pub template : Template
  pub context_tokens : ℕ
  pub token_count : String → ℕ
  pub generate : String → ℕ → Option (List ℕ)

-- What one tick reads from outside: its sources, three clock readings, and whether the decision
-- handler returns.
pub record TickInput : Type 0 where
  pub sources : List SnapshotSource
  pub started : ℕ
  pub finished : ℕ
  pub wall : ℕ
  pub handler_ok : TickDecision → TickPrompt → ℕ → ℕ → Bool

module _ (c : TickConfig) (h : HeartPort) where
  -- `max(0, context_tokens - max_output_tokens)`
  abbrev pub budget_tokens : ℕ
  budget_tokens = h.context_tokens - c.max_output_tokens

  unfoldable pub prompt_of : TickInput → TickPrompt
  unfolding collect_items build_prompt
  prompt_of i = build_prompt h.token_count (collect_items i.sources) budget_tokens h.template

  -- Entering a tick, `if self._in_flight: return skipped`.
  unfoldable pub enter : TickLoop → Option TickLoop
  enter s = if s.in_flight then none else some (record s { in_flight = true })

  -- `finally: self._in_flight = False`
  abbrev pub leave : TickLoop → TickLoop
  leave s = record s { in_flight = false }

  -- The dispatch, after the bookkeeping.
  unfoldable pub dispatch :
      TickInput → TickDecision → ℕ → TickLoop → Result Raised TickOutcome × TickLoop
  dispatch i decision duration s =
      if i.handler_ok decision (prompt_of i) s.ticks_run duration
      then (ok (completed decision duration), leave s)
      else (err handler_raised, leave s)

  abbrev pub after_reply :
      TickInput → Option (List ℕ) → TickLoop → Result Raised TickOutcome × TickLoop
  after_reply i none s = (err generate_raised, leave s)
  after_reply i (some raw) s =
      let decision = parse_decision h.unicode raw in
      let duration = i.finished - i.started in
      dispatch i decision duration (complete c decision duration i.wall s)

  abbrev pub entered : TickInput → TickLoop → Option TickLoop → Result Raised TickOutcome × TickLoop
  entered i s none = (ok skipped, s)
  entered i s (some t) = after_reply i (h.generate (prompt_of i).text c.max_output_tokens) t

  unfoldable pub tick_once : TickInput → TickLoop → Result Raised TickOutcome × TickLoop
  unfolding enter dispatch
  tick_once i s = entered i s (enter s)

  abbrev pub handled : Result Raised TickOutcome × TickLoop → TickLoop
  handled (ok _, s) = s
  handled (err _, s) = record_failure c s

  -- One round of `run` after its wait: `except Exception` records the failure and goes on.
  unfoldable pub run_tick : TickInput → TickLoop → TickLoop
  run_tick i s = if s.paused then s else handled (tick_once i s)
