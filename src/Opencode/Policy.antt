-- ===== src/Opencode/Policy.antt =====
-- `DeterministicInterventionPolicy` of
-- src/ansina/heart/tick/opencode_intervention_handler.py. The probe is what it reads from the
-- service at one tick; the monotonic clock and the wall clock are arguments, in microseconds.
pub mod Ladder
pub mod Budget
use ansina.Prelude.{
  ℕ, ◌+◌, ◌-◌, ◌*◌, Option, none, some, List, [], ◌∷◌, ◌++◌, Bool, true, false, not, ◌&&◌, ◌||◌,
  ltb, leb, if◌then◌else◌, keep, length,
}
use ansina.Clock.{iso, parse_iso}
use ansina.Opencode.Run.{OpencodeRun}
use ansina.Opencode.Repository.{recent_retryable_runs, recent_outcome_counts}
use ansina.Opencode.Service.{
  Service, RunningRun, running_runs, OpencodeAction, retry, nudge, pause_intake_action,
  escalate_to_brain,
}

pub record PolicySettings : Type 0 where
  pub max_retries_per_run : ℕ
  pub cooldown_ticks : ℕ
  pub max_interventions_per_hour : ℕ
  pub stall : ℕ
  pub recent_window_minutes : ℕ

-- The policy's own state, between two ticks.
pub record Policy : Type 0 where
  pub last_intervention_tick : Option ℕ
  pub recent_intervention_times : List ℕ

abbrev pub initial : Policy
initial = record { last_intervention_tick = none; recent_intervention_times = [] }

pub record InterventionDecision : Type 0 where
  pub action : OpencodeAction
  pub run_id : Option ℕ

-- `_PAUSE_INTAKE_FAILURE_THRESHOLD`
abbrev pub pause_intake_failure_threshold : ℕ
pause_intake_failure_threshold = 3

abbrev pub hour : ℕ
hour = 3600000000

abbrev pub minute : ℕ
minute = 60000000

-- A run's last sign of life.
abbrev pub reference : RunningRun → Option ℕ
reference r = elim r.last_event_at [ some at ↦ some at | none ↦ r.started_at ]

abbrev stalled_at : Option ℕ → ℕ → Bool
stalled_at none threshold = false
stalled_at (some at) threshold = ltb (parse_iso at) threshold

-- What the ladder reads: the retryable runs, newest first, the first stalled run, and how many
-- runs failed or timed out.
pub record Probe : Type 0 where
  pub retry_candidates : List OpencodeRun
  pub stalled_id : Option ℕ
  pub failure_total : ℕ

module _ (c : PolicySettings) where
  abbrev pub is_stalled : ℕ → RunningRun → Bool
  is_stalled now r = stalled_at (reference r) (now - c.stall)

  -- `_first_stalled_run_id`
  unfoldable pub first_stalled : ℕ → List RunningRun → Option ℕ
  first_stalled now [] = none
  first_stalled now (r ∷ rs) =
      let rest = first_stalled now rs in if is_stalled now r then some r.id else rest

  abbrev in_cooldown_from : ℕ → Option ℕ → Bool
  in_cooldown_from ticks_run none = false
  in_cooldown_from ticks_run (some last) = ltb (ticks_run - last) c.cooldown_ticks

  -- `_in_cooldown`
  abbrev pub in_cooldown : ℕ → Policy → Bool
  in_cooldown ticks_run p = in_cooldown_from ticks_run p.last_intervention_tick

  -- What `_hourly_budget_exhausted` leaves of the times, and its result.
  unfoldable pub recent : ℕ → List ℕ → List ℕ
  unfolding keep
  recent clock = keep (λ t. leb clock (t + hour))

  abbrev pub exhausted : List ℕ → Bool
  exhausted times = leb c.max_interventions_per_hour (length times)

  unfoldable pub probe_of : ℕ → Service → Probe
  unfolding recent_retryable_runs recent_outcome_counts running_runs first_stalled
  probe_of now s =
      let since = iso (now - c.recent_window_minutes * minute) in
      let counts = recent_outcome_counts since s.table in
      record {
        retry_candidates = recent_retryable_runs since s.table;
        stalled_id = first_stalled now (running_runs s);
        failure_total = counts.0 + counts.1;
      }

  abbrev pub has_retries : OpencodeRun → Bool
  has_retries r = ltb r.intervention_count c.max_retries_per_run

  unfoldable pub first_retryable : List OpencodeRun → Option ℕ
  first_retryable [] = none
  first_retryable (r ∷ rs) =
      let rest = first_retryable rs in if has_retries r then some r.id else rest

  abbrev decision : OpencodeAction → Option ℕ → Option InterventionDecision
  decision a id = some (record { action = a; run_id = id })

  abbrev first_id : List OpencodeRun → Option ℕ → Option ℕ
  first_id [] other = other
  first_id (r ∷ rs) other = some r.id

  abbrev is_some : Option ℕ → Bool
  is_some none = false
  is_some (some id) = true

  -- The last rung, which the cooldown does not gate.
  unfoldable pub escalation : Bool → Probe → Option InterventionDecision
  escalation hourly_ok p =
      let candidate = first_id p.retry_candidates p.stalled_id in
      if hourly_ok && (is_some candidate || leb pause_intake_failure_threshold p.failure_total)
      then decision escalate_to_brain candidate
      else none

  abbrev stall_rung : Option ℕ → Bool → Probe → Option InterventionDecision
  stall_rung (some id) hourly_ok p = decision nudge (some id)
  stall_rung none hourly_ok p =
      if leb pause_intake_failure_threshold p.failure_total
      then decision pause_intake_action none
      else escalation hourly_ok p

  abbrev retry_rung : Option ℕ → Bool → Probe → Option InterventionDecision
  retry_rung (some id) hourly_ok p = decision retry (some id)
  retry_rung none hourly_ok p = stall_rung p.stalled_id hourly_ok p

  -- The ladder of `decide`, first match first.
  unfoldable pub ladder : Bool → Bool → Probe → Option InterventionDecision
  unfolding first_retryable escalation
  ladder hourly_ok cooldown_ok p =
      if cooldown_ok
      then retry_rung (first_retryable p.retry_candidates) hourly_ok p
      else escalation hourly_ok p

  -- `_decided` counts the attempt against both budgets.
  abbrev decided : ℕ → ℕ → List ℕ → Option InterventionDecision → Policy → Policy
  decided ticks_run clock times none p = record p { recent_intervention_times = times }
  decided ticks_run clock times (some d) p = record {
    last_intervention_tick = some ticks_run;
    recent_intervention_times = times ++ clock ∷ [];
  }

  -- `decide` at one tick, by what the probe said.
  unfoldable pub decide : ℕ → ℕ → Probe → Policy → Option InterventionDecision × Policy
  unfolding recent ladder
  decide ticks_run clock probe p =
      let times = recent clock p.recent_intervention_times in
      let hourly_ok = not (exhausted times) in
      let cooldown_ok = hourly_ok && not (in_cooldown ticks_run p) in
      let d = ladder hourly_ok cooldown_ok probe in (d, decided ticks_run clock times d p)
