-- ===== src/Heart/Tick/Rounds.antt =====
-- `TickLoop.run` and `_wait_or_stop`: the rounds of the loop, with the waits before the ticks. How long
-- each step of a round takes is given, and the readings of the clock follow from it.
use Prim.Native.Nat.{max}
use mathlib.Core.Option
use ansina.Prelude.{
  ℕ, ◌+◌, ◌-◌, ◌*◌, ◌≤◌, ◌<◌, ◌≡◌, refl, ap, Option, some, List, [], ◌∷◌, ◌++◌, Bool, true, false,
  ltb, arith, if◌then◌else◌, Bool-cases, inl, inr,
}
use ansina.Heart.Tick.{TickConfig, TickLoop}
use ansina.Heart.Tick.Once.{HeartPort, TickInput, run_tick}
use ansina.Heart.Tick.Breaker.{run_ticks}
use ansina.Heart.Tick.Schedule.{NextSlot, next_tick_number, next_tick_number-NextSlot}

-- When the stop event is set: before the test of the loop, so long after the wait begins, or later.
pub data Stop : Type 0 where
  set_before not_yet : Stop
  set_after : ℕ → Stop

-- The time from the last reading of the clock to that before the wait, what `jitter()` gives, the stop,
-- by how much the wait ends late, the tick, and the time from the wait to the reading after the tick.
pub record Round : Type 0 where
  pub idle : ℕ
  pub jitter : ℕ
  pub stop : Stop
  pub late : ℕ
  pub input : TickInput
  pub spent : ℕ

-- `max(0.0, deadline - clock()) + jitter()`
unfoldable pub delay : ℕ → ℕ → ℕ → ℕ → Round → ℕ
delay start interval tick_number now r = start + tick_number * interval - now + r.jitter

-- The test of the loop, and `_wait_or_stop`: the event ends the wait if it is set within it.
abbrev pub is_stopped : ℕ → Stop → Bool
is_stopped d set_before = true
is_stopped d not_yet = false
is_stopped d (set_after t) = ltb t d

-- A round that has run: its slot, the readings before the wait, after it and after the tick.
pub record Beat : Type 0 where
  pub slot : ℕ
  pub before : ℕ
  pub woken : ℕ
  pub ended : ℕ
  pub round : Round

-- The rounds that have run, `tick_number` and the last reading of the clock, and the loop's state.
pub record Schedule : Type 0 where
  pub beats : List Beat
  pub tick_number : ℕ
  pub clock : ℕ
  pub state : TickLoop

abbrev pub rests : ℕ → ℕ → TickLoop → Schedule
rests n now s = record { beats = []; tick_number = n; clock = now; state = s }

abbrev pub behind : Beat → Schedule → Option Schedule
behind b o = some (record o { beats = b ∷ o.beats })

-- One round's readings, where `now` is the reading before it.
abbrev pub beat : ℕ → ℕ → ℕ → ℕ → Round → Beat
beat start interval n now r =
    let woken = now + r.idle + delay start interval (n + 1) (now + r.idle) r + r.late in
    record {
      slot = n + 1;
      before = now + r.idle;
      woken = woken;
      ended = woken + r.spent;
      round = r;
    }

module _ (c : TickConfig) (h : HeartPort) where
  -- `run`, from `tick_number` n on; `none` means that `_next_tick_number` does not return.
  unfoldable pub run : ℕ → ℕ → ℕ → List Round → TickLoop → Option Schedule
  unfolding delay Option.bind
  run start n now [] s = some (rests n now s)
  run start n now (r ∷ rs) s =
      let b = beat start c.interval n now r in
      if is_stopped (delay start c.interval (n + 1) (now + r.idle) r) r.stop
      then some (rests n now s)
      else Option.bind (next_tick_number (n + 1) start b.ended c.interval)
          (λ m. Option.bind (run start m b.ended rs (run_tick c h r.input s)) (behind b))

  unfoldable pub inputs : List Beat → List TickInput
  inputs [] = []
  inputs (b ∷ bs) = b.round.input ∷ inputs bs

  -- When the wait of a slot ends if nothing stops it: at the deadline, or at once where that has
  -- passed, and then the jitter.
  abbrev pub due : ℕ → ℕ → ℕ → Round → ℕ
  due start n before r = max before (start + n * c.interval) + r.jitter

  -- The stop event comes too late for the wait.
  abbrev pub Goes : ℕ → ℕ → Stop → Type 0
  Goes before woken set_before = ⊥
  Goes before woken not_yet = Unit {0}
  Goes before woken (set_after t) = woken ≤ before + t

  -- How the rounds follow each other, from the slot and the reading that they begin with to those that
  -- they end with.
  unfoldable pub Paced : ℕ → ℕ → ℕ → List Beat → ℕ → ℕ → Type 0
  Paced start n now [] m end = (n ≡ m) × (now ≡ end)
  Paced start n now (b ∷ bs) m end =
      (b.slot ≡ n + 1)
      × (b.before ≡ now + b.round.idle)
      × (b.woken ≡ due start b.slot b.before b.round + b.round.late)
      × Goes b.before (due start b.slot b.before b.round) b.round.stop
      × (b.ended ≡ b.woken + b.round.spent)
      × ((k : ℕ) × NextSlot b.slot start b.ended c.interval k × Paced start k b.ended bs m end)

  -- Why the rounds end: there is none left, or the stop event comes before the wait is over.
  abbrev pub Stops : ℕ → ℕ → ℕ → List Round → Type 0
  Stops start n now [] = Unit {0}
  Stops start n now (r ∷ rs) = elim r.stop [
    | set_before ↦ Unit {0}
    | not_yet ↦ ⊥
    | set_after t ↦ now + r.idle + t < due start (n + 1) (now + r.idle) r
  ]

  unfoldable pub rounds : List Beat → List Round
  rounds [] = []
  rounds (b ∷ bs) = b.round ∷ rounds bs

  pub record OnSchedule (start n now : ℕ) (rs : List Round) (s : TickLoop) (o : Schedule)
      : Type 0 where
    pub left : List Round
    pub split : rs ≡ rounds o.beats ++ left
    pub paced : Paced start n now o.beats o.tick_number o.clock
    pub stops : Stops start o.tick_number o.clock left
    pub ticks : o.state ≡ run_ticks c h (inputs o.beats) s

  Stops-is_stopped :
      (start n now : ℕ) (r : Round) (rs : List Round)
      → is_stopped (delay start c.interval (n + 1) (now + r.idle) r) r.stop ≡ true
      → Stops start n now (r ∷ rs)
  unfolding delay
  Stops-is_stopped start n now r rs h' = go r.stop h'
    where
      go :
          (e : Stop)
          → is_stopped (delay start c.interval (n + 1) (now + r.idle) r) e ≡ true
          → elim e as (λ _. Type 0) [
            | set_before ↦ Unit {0}
            | not_yet ↦ ⊥
            | set_after t ↦ now + r.idle + t < due start (n + 1) (now + r.idle) r
          ]
      go set_before p = tt
      go not_yet p = cc
      go (set_after t) p = ground (arith, p)

  Goes-is_stopped :
      (start n before : ℕ) (r : Round) (e : Stop)
      → is_stopped (delay start c.interval n before r) e ≡ false
      → Goes before (due start n before r) e
  unfolding delay
  Goes-is_stopped start n before r set_before p = cc
  Goes-is_stopped start n before r not_yet p = tt
  Goes-is_stopped start n before r (set_after t) p = ground (arith, p)

  woken-due :
      (start n before : ℕ) (r : Round)
      → before + delay start c.interval n before r + r.late ≡ due start n before r + r.late
  unfolding delay
  woken-due start n before r = omega arith

  -- For a positive interval the scheduling loop always goes on to its next round, up to the first in
  -- which the stop event is set before the wait is over. The wait of each slot ends at its deadline, or
  -- at once where that has passed, plus the jitter, and by as much later as the wait itself is late; the
  -- next slot is the first one after it whose deadline is still to come when the tick is over. What the
  -- rounds do to the loop's state is the sequence of their ticks.
  pub run-OnSchedule :
      (start n now : ℕ) (rs : List Round) (s : TickLoop)
      → 0 < c.interval
      → (o : Schedule) × (run start n now rs s ≡ some o) × OnSchedule start n now rs s o
  unfolding run run_ticks rounds inputs Paced Option.bind
  run-OnSchedule start n now [] s pos = (
    rests n now s,
    refl,
    record { left = []; split = refl; paced = (refl, refl); stops = tt; ticks = refl },
  )
  run-OnSchedule start n now (r ∷ rs) s pos =
      elim (Bool-cases (is_stopped (delay start c.interval (n + 1) (now + r.idle) r) r.stop)) [
        | inl stop ↦ (
          rests n now s,
          rw stop refl,
          record {
            left = r ∷ rs;
            split = refl;
            paced = (refl, refl);
            stops = Stops-is_stopped start n now r rs stop;
            ticks = refl;
          },
        )
        | inr goes ↦
            let b = beat start c.interval n now r in
            let (m, e, v) = next_tick_number-NextSlot (n + 1) start b.ended c.interval pos in
            let (o, f, w) = run-OnSchedule start m b.ended rs (run_tick c h r.input s) pos in
            (
              record o { beats = b ∷ o.beats },
              rw (goes, e, f) refl,
              record {
                left = w.left;
                split = ap (λ x. r ∷ x) w.split;
                paced = (
                  refl,
                  refl,
                  woken-due start (n + 1) (now + r.idle) r,
                  Goes-is_stopped start (n + 1) (now + r.idle) r r.stop goes,
                  refl,
                  (m, v, w.paced),
                );
                stops = w.stops;
                ticks = w.ticks;
              },
            )
      ]
