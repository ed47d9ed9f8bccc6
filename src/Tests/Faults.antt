-- ===== src/Tests/Faults.antt =====
-- Fault schedules of src/ansina/heart/tick/fault_injection.py at concrete inputs.
use ansina.Prelude.{ℕ, String, ◌≡◌, refl, some, List, [], ◌∷◌, ok, err, pos}
use ansina.Heart.Decision.{TickDecision}
use ansina.Heart.Faults.{
  finite, nan, FaultKind, FaultWindow, Field, Entry, Raw, FaultError, FaultInjector, InjectorError,
  load_fault_schedule, handle, collect,
}
use ansina.Heart.Faults.Unambiguous.{IsSchedule, load_fault_schedule-IsSchedule}

abbrev raw_window : String → FaultKind → ℕ → ℕ → ℕ → Entry
raw_window id fault first ticks sleep = Entry.object (record {
  id = Field.read id;
  fault = Field.read fault;
  at_tick = Field.read (pos first);
  duration_ticks = Field.read (pos ticks);
  expected_decision = Field.read TickDecision.escalate;
  note = "";
  sleep_seconds = Field.read (finite (pos sleep));
})

abbrev window : String → FaultKind → ℕ → ℕ → ℕ → FaultWindow
window id fault first ticks sleep = record {
  id = id;
  fault = fault;
  at_tick = first;
  duration_ticks = ticks;
  expected_decision = TickDecision.escalate;
  note = "";
  sleep_seconds = finite (pos sleep);
}

-- Two axes at once, and a second failure right behind the first, given in another order.
abbrev entries : List Entry
entries =
    raw_window "later" FaultKind.tick_failure 5 2 0
    ∷ raw_window "slow" FaultKind.tick_overrun 3 4 20
    ∷ raw_window "first" FaultKind.tick_failure 3 2 0
    ∷ []

abbrev schedule : List FaultWindow
schedule =
    window "slow" FaultKind.tick_overrun 3 4 20
    ∷ window "first" FaultKind.tick_failure 3 2 0
    ∷ window "later" FaultKind.tick_failure 5 2 0
    ∷ []

loaded : load_fault_schedule (Raw.array entries) ≡ ok schedule
unfolding load_fault_schedule
loaded = refl

overlapping :
    load_fault_schedule (
      Raw.array (
        raw_window "a" FaultKind.tick_failure 5 2 0
        ∷ raw_window "b" FaultKind.tick_failure 4 2 0
        ∷ []))
    ≡ err FaultError.schedule_error
unfolding load_fault_schedule
overlapping = refl

abbrev injector : FaultInjector
injector = record { schedule = schedule; ticks_run = some 4 }

fifth_tick :
    (handle injector 5 ≡ err (InjectorError.injected "later"))
    × (collect injector ≡ ok (some (finite (pos 20))))
unfolding handle collect
fifth_tick = (refl, refl)

-- An overrun that sleeps for NaN seconds loads.
nan_loads :
    load_fault_schedule (
      Raw.array (
        Entry.object (record {
          id = Field.read "a";
          fault = Field.read FaultKind.tick_overrun;
          at_tick = Field.read (pos 1);
          duration_ticks = Field.read (pos 1);
          expected_decision = Field.read TickDecision.escalate;
          note = "";
          sleep_seconds = Field.read nan;
        })
        ∷ []))
    ≡ ok (record (window "a" FaultKind.tick_overrun 1 1 1) { sleep_seconds = nan } ∷ [])
unfolding load_fault_schedule
nan_loads = refl

load_fault_schedule-IsSchedule_example : IsSchedule schedule
unfolding load_fault_schedule
load_fault_schedule-IsSchedule_example =
    load_fault_schedule-IsSchedule (Raw.array entries) schedule refl
