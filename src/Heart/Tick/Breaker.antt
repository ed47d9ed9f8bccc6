-- ===== src/Heart/Tick/Breaker.antt =====
-- When the circuit breaker of the tick loop trips, and a kind of failure at which it does not.
use Prim.Native.Nat.{min}
use native.Mathlib.Nat.{zero-add}
use ansina.Prelude.{
  ℕ, ◌+◌, ◌-◌, ◌<◌, ◌≡◌, refl, none, some, List, [], ◌∷◌, true, false, ◌&&◌, leb, arith, length,
  All, Bool-cases, inl, inr,
}
use ansina.Heart.Decision.{TickDecision, parse_decision}
use ansina.Heart.Snapshot.{TickPrompt}
use ansina.Heart.Tick.{TickConfig, TickLoop, record_failure, complete, is_overrun}
use ansina.Heart.Tick.Once.{HeartPort, TickInput, prompt_of, tick_once, run_tick}

module _ (c : TickConfig) (h : HeartPort) where
  -- The rounds of `run`, one after the other.
  unfoldable pub run_ticks : List TickInput → TickLoop → TickLoop
  run_ticks [] s = s
  run_ticks (i ∷ is) s = run_ticks is (run_tick c h i s)

  -- The model call of the tick raises.
  abbrev pub Fails : TickInput → Type 0
  Fails i = h.generate (prompt_of c h i).text c.max_output_tokens ≡ none

  -- The model replies in time, and then the decision handler raises.
  pub record HandlerFails (i : TickInput) : Type 0 where
    pub raw : List ℕ
    pub replied : h.generate (prompt_of c h i).text c.max_output_tokens ≡ some raw
    pub raises : (d : TickDecision) (p : TickPrompt) (n t : ℕ) → i.handler_ok d p n t ≡ false
    pub in_time : is_overrun c (i.finished - i.started) ≡ false

  run_tick-failing :
      (i : TickInput) (s : TickLoop)
      → s.paused ≡ false
      → s.in_flight ≡ false
      → Fails i
      → let t = run_tick c h i s in
        (t.in_flight ≡ false)
        × (t.consecutive_failures ≡ s.consecutive_failures + 1)
        × (t.paused
            ≡ c.auto_pause_enabled && leb c.max_consecutive_failures (s.consecutive_failures + 1))
  unfolding run_tick tick_once record_failure
  run_tick-failing i s p f e = ground arith

  run_tick-paused : (i : TickInput) (s : TickLoop) → s.paused ≡ true → run_tick c h i s ≡ s
  unfolding run_tick
  run_tick-paused i s p = simp p

  run_ticks-paused : (is : List TickInput) (s : TickLoop) → s.paused ≡ true → run_ticks is s ≡ s
  unfolding run_ticks
  run_ticks-paused [] s p = refl
  run_ticks-paused (i ∷ is) s p = rw (run_tick-paused i s p) (run_ticks-paused is s p)

  failing_from :
      (k : ℕ) (is : List TickInput) (s : TickLoop)
      → c.auto_pause_enabled ≡ true
      → s.paused ≡ false
      → s.in_flight ≡ false
      → s.consecutive_failures ≡ k
      → k < c.max_consecutive_failures
      → All Fails is
      → let t = run_ticks is s in
        (t.paused ≡ leb c.max_consecutive_failures (k + length is))
        × (t.consecutive_failures ≡ min c.max_consecutive_failures (k + length is))
  unfolding run_ticks
  failing_from k [] s auto p f e lt all = (ground arith, omega arith)
  failing_from k (i ∷ is) s auto p f e lt (fails, all) =
      let step = run_tick-failing i s p f fails in
      elim (Bool-cases (leb c.max_consecutive_failures (k + 1))) [
        | inl trips ↦
            rw (run_ticks-paused is (run_tick c h i s) (ground arith)) (ground arith, ground arith)
        | inr goes ↦
            let rest =
              failing_from (k + 1) is (run_tick c h i s) auto (ground arith) step.0 (ground arith)
                (ground arith) all in
            (ground arith, ground arith)
      ]

  -- With automatic pausing on, let a running loop that is at rest and has no recent failure go
  -- through rounds in each of which the model call raises. Then it is paused exactly when there
  -- were at least `max_consecutive_failures` of them, and it has counted the smaller of the two
  -- numbers: no round is run after the trip.
  pub failing_rounds_trip :
      (is : List TickInput) (s : TickLoop)
      → c.auto_pause_enabled ≡ true
      → s.paused ≡ false
      → s.in_flight ≡ false
      → s.consecutive_failures ≡ 0
      → 0 < c.max_consecutive_failures
      → All Fails is
      → let t = run_ticks is s in
        (t.paused ≡ leb c.max_consecutive_failures (length is))
        × (t.consecutive_failures ≡ min c.max_consecutive_failures (length is))
  failing_rounds_trip is s auto p f e pos all =
      simp (zero-add) at (failing_from 0 is s auto p f e pos all)

  complete_in_time :
      (d : TickDecision) (duration at : ℕ) (s : TickLoop)
      → 0 < c.max_consecutive_failures
      → is_overrun c duration ≡ false
      → let t = complete c d duration at s in
        (t.paused ≡ s.paused)
        × (t.consecutive_failures ≡ 0)
        × (t.failures_total ≡ s.failures_total)
        × (t.ticks_run ≡ s.ticks_run + 1)
  unfolding complete
  complete_in_time d duration at s pos quick = ground arith

  run_tick-handler :
      (i : TickInput) (s : TickLoop)
      → s.paused ≡ false
      → s.in_flight ≡ false
      → 1 < c.max_consecutive_failures
      → HandlerFails i
      → let t = run_tick c h i s in
        (t.in_flight ≡ false)
        × (t.paused ≡ false)
        × (t.consecutive_failures ≡ 1)
        × (t.failures_total ≡ s.failures_total + 1)
        × (t.ticks_run ≡ s.ticks_run + 1)
  unfolding run_tick tick_once record_failure
  run_tick-handler i s p f m v =
      let d = parse_decision h.unicode v.raw in
      let duration : ℕ = i.finished - i.started in
      let entered : TickLoop = record s { in_flight = true } in
      let done = complete c d duration i.wall entered in
      ground (
        arith,
        v.replied,
        v.raises d (prompt_of c h i) done.ticks_run duration,
        complete_in_time d duration i.wall entered,
        v.in_time,
      )

  -- Let `max_consecutive_failures` be at least 2, and let a running loop that is at rest go through
  -- rounds in each of which the model replies, in less time than an overrun, and then the decision
  -- handler raises. However many there are, the loop is not paused at their end, although each of
  -- them was counted as a failure in `failures_total` and as a tick in `ticks_run`.
  pub handler_failures_never_trip :
      (is : List TickInput) (s : TickLoop)
      → s.paused ≡ false
      → s.in_flight ≡ false
      → 1 < c.max_consecutive_failures
      → All HandlerFails is
      → let t = run_ticks is s in
        (t.paused ≡ false)
        × (t.failures_total ≡ s.failures_total + length is)
        × (t.ticks_run ≡ s.ticks_run + length is)
  unfolding run_ticks
  handler_failures_never_trip [] s p f m all = (p, omega arith, omega arith)
  handler_failures_never_trip (i ∷ is) s p f m (v, all) =
      let step = run_tick-handler i s p f m v in
      let rest = handler_failures_never_trip is (run_tick c h i s) step.1 step.0 m all in
      (rest.0, omega arith, omega arith)
