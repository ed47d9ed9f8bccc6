-- ===== src/Heart/Tick/Invariant.antt =====
-- The invariant of the tick loop's counters and of its circuit breaker.
use ansina.Prelude.{
  ℕ, ◌+◌, ◌≤◌, ◌<◌, ◌≡◌, Option, none, some, List, [], ◌∷◌, Bool, true, false, arith, Result, ok,
  err, Bool-cases, inl, inr,
}
use ansina.Heart.Decision.{TickDecision}
use ansina.Heart.Tick.{
  TickConfig, TickLoop, PauseReason, init, pause, resume, record_failure, complete,
}
use ansina.Heart.Tick.Once.{
  HeartPort, TickInput, Raised, TickOutcome, prompt_of, dispatch, after_reply, tick_once, handled,
  run_tick,
}

pub record IsSafe (c : TickConfig) (s : TickLoop) : Type 0 where
  pub counted : s.idle_total + s.act_total + s.escalate_total ≡ s.ticks_run
  pub lifetime : s.consecutive_failures ≤ s.failures_total
  pub failures_armed :
      c.auto_pause_enabled ≡ true
      → s.paused ≡ false
      → s.consecutive_failures < c.max_consecutive_failures
  pub overruns_armed :
      c.auto_pause_enabled ≡ true
      → s.paused ≡ false
      → s.consecutive_overruns < c.max_consecutive_failures
  pub reasoned : s.paused ≡ false → s.pause_reason ≡ none

pub data Call : Type 0 where
  run_tick_call tick_once_call : TickInput → Call
  pause_call : Option PauseReason → Call
  resume_call : Call

module _ (c : TickConfig) (h : HeartPort) where
  pub step : Call → TickLoop → TickLoop
  step (run_tick_call i) s = run_tick c h i s
  step (tick_once_call i) s = (tick_once c h i s).1
  step (pause_call r) s = pause r s
  step resume_call s = resume s

  pub run_calls : List Call → TickLoop → TickLoop
  unfolding step
  run_calls [] s = s
  run_calls (x ∷ xs) s = run_calls xs (step x s)

  pause-IsSafe : (r : Option PauseReason) (s : TickLoop) → IsSafe c s → IsSafe c (pause r s)
  unfolding pause
  pause-IsSafe r s v = ground arith

  resume-IsSafe : (s : TickLoop) → 0 < c.max_consecutive_failures → IsSafe c s → IsSafe c (resume s)
  unfolding resume
  resume-IsSafe s pos v = ground arith

  failure-IsSafe : (s : TickLoop) → IsSafe c s → IsSafe c (record_failure c s)
  unfolding record_failure
  failure-IsSafe s v = ground arith

  complete-IsSafe :
      (d : TickDecision) (duration at : ℕ) (s : TickLoop)
      → 0 < c.max_consecutive_failures
      → IsSafe c s
      → IsSafe c (complete c d duration at s)
  unfolding complete
  complete-IsSafe d duration at s pos v = ground arith

  -- The flag that marks a tick in flight is no part of the invariant.
  enter-IsSafe : (b : Bool) (s : TickLoop) → IsSafe c s → IsSafe c (record s { in_flight = b })
  enter-IsSafe b s v = ground arith

  dispatch-IsSafe :
      (i : TickInput) (d : TickDecision) (duration : ℕ) (s : TickLoop)
      → IsSafe c s
      → IsSafe c (dispatch c h i d duration s).1
  unfolding dispatch
  dispatch-IsSafe i d duration s v =
      elim (Bool-cases (i.handler_ok d (prompt_of c h i) s.ticks_run duration)) [
        | inl p ↦ rw p (enter-IsSafe false s v)
        | inr p ↦ rw p (enter-IsSafe false s v)
      ]

  after_reply-IsSafe :
      (i : TickInput) (r : Option (List ℕ)) (s : TickLoop)
      → 0 < c.max_consecutive_failures
      → IsSafe c s
      → IsSafe c (after_reply c h i r s).1
  after_reply-IsSafe i none s pos v = enter-IsSafe false s v
  after_reply-IsSafe i (some raw) s pos v = dispatch-IsSafe i _ _ _ (complete-IsSafe _ _ _ s pos v)

  tick_once-IsSafe :
      (i : TickInput) (s : TickLoop)
      → 0 < c.max_consecutive_failures
      → IsSafe c s
      → IsSafe c (tick_once c h i s).1
  unfolding tick_once
  tick_once-IsSafe i s pos v = elim (Bool-cases s.in_flight) [
    | inl busy ↦ simp busy v
    | inr free ↦ simp free (after_reply-IsSafe i _ _ pos (enter-IsSafe true s v))
  ]

  handled-IsSafe :
      (r : Result Raised TickOutcome × TickLoop) → IsSafe c r.1 → IsSafe c (handled c h r)
  handled-IsSafe (ok _, s) v = v
  handled-IsSafe (err _, s) v = failure-IsSafe s v

  run_tick-IsSafe :
      (i : TickInput) (s : TickLoop)
      → 0 < c.max_consecutive_failures
      → IsSafe c s
      → IsSafe c (run_tick c h i s)
  unfolding run_tick
  run_tick-IsSafe i s pos v = elim (Bool-cases s.paused) [
    | inl p ↦ simp p v
    | inr p ↦ simp p (handled-IsSafe _ (tick_once-IsSafe i s pos v))
  ]

  step-IsSafe :
      (x : Call) (s : TickLoop) → 0 < c.max_consecutive_failures → IsSafe c s → IsSafe c (step x s)
  unfolding step
  step-IsSafe (run_tick_call i) s pos v = run_tick-IsSafe i s pos v
  step-IsSafe (tick_once_call i) s pos v = tick_once-IsSafe i s pos v
  step-IsSafe (pause_call r) s pos v = pause-IsSafe r s v
  step-IsSafe resume_call s pos v = resume-IsSafe s pos v

  run_calls-IsSafe :
      (xs : List Call) (s : TickLoop)
      → 0 < c.max_consecutive_failures
      → IsSafe c s
      → IsSafe c (run_calls xs s)
  unfolding run_calls
  run_calls-IsSafe [] s pos v = v
  run_calls-IsSafe (x ∷ xs) s pos v = run_calls-IsSafe xs _ pos (step-IsSafe x s pos v)

  -- If the constructor accepts a configuration, then after any sequence of scheduler rounds,
  -- direct ticks, pauses and resumes: the three decision totals add up to `ticks_run`; no more
  -- failures are consecutive than there are in all; and a loop that is not paused has no
  -- `pause_reason` and, where `auto_pause_enabled` is set, both consecutive gauges below
  -- `max_consecutive_failures`.
  pub init-run_calls-IsSafe :
      (xs : List Call) (s : TickLoop) → init c ≡ ok s → IsSafe c (run_calls xs s)
  unfolding init
  init-run_calls-IsSafe xs s e = run_calls-IsSafe xs s (ground arith) (ground arith)
