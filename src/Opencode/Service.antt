-- ===== src/Opencode/Service.antt =====
-- `OpencodeRunService` of src/ansina/opencode/service.py. What the service awaits is one atomic
-- step each: a submission is its admission check and its creation, and a run is its start, its
-- events and its end. Instants are microseconds; a drawn id is an argument.
pub mod Submit
pub mod Lifecycle
use ansina.Prelude.{
  ℕ, ◌+◌, ◌-◌, String, Option, none, some, List, [], ◌∷◌, ◌++◌, Bool, true, false, ltb, leb, ◌==◌,
  if◌then◌else◌, Result, ok, err, keep, not, ℤ,
}
use ansina.Clock.{iso}
use ansina.Opencode.Run.{
  Status, running, succeeded, failed, timeout, cancelled, OpencodeRun, RunRequest, Changes,
  is_retryable,
}
use ansina.Opencode.Repository.{
  Table, new_run, create, get, update_status, increment_intervention_count, count_active,
  list_running,
}

-- `OpencodeAction` of src/ansina/opencode/interventions.py.
pub data OpencodeAction : Type 0 where
  retry nudge compact pause_intake_action escalate_to_brain : OpencodeAction

pub data RunStatus : Type 0 where
  completed failed_run timed_out : RunStatus

-- What the `AgentRunner` returns.
pub record RunOutcome : Type 0 where
  pub status : RunStatus
  pub exit_code : Option ℤ
  pub events_emitted : ℕ
  pub events_skipped : ℕ
  pub duration : ℕ
  pub truncated : Bool
  pub error : Option String

-- The text that `apply_intervention` returns, with what it is formatted with.
pub data Detail : Type 0 where
  intake_paused_detail compact_unsupported : Detail
  resubmitted_as nudged_via not_found : ℕ → Detail
  not_retryable : Status → Detail
  -- What the caller of `record_intervention_telemetry` says.
  caller_detail : List ℕ → Detail

pub data InterventionStatus : Type 0 where
  applied declined unsupported error : InterventionStatus

-- A line of telemetry.
pub data Line : Type 0 where
  submitted : ℕ → Option String → RunRequest → Line
  started : ℕ → Option String → Line
  event : ℕ → Option String → Line
  outcome : ℕ → Option String → RunOutcome → Line
  was_cancelled : ℕ → Option String → ℕ → Line
  intervention : Option ℕ → Option String → OpencodeAction → InterventionStatus → Detail → Line

pub data Refusal : Type 0 where
  intake_paused prompt_too_long busy assertion_failed : Refusal

pub record OpencodeSettings : Type 0 where
  pub max_prompt_chars : ℕ
  pub queue_max_depth : ℕ
  pub telemetry_on : Bool

-- An asyncio task of `_execute`. `begun` holds the clock at its first step, and `none` before it.
pub record Task : Type 0 where
  pub id : ℕ
  pub request : RunRequest
  pub begun : Option ℕ
  pub event_count : ℕ

pub record Service : Type 0 where
  pub paused : Bool
  pub table : Table
  pub tasks : List Task
  pub last_event_at : List (ℕ × ℕ)
  pub log : List Line

abbrev pub init : Bool → Table → Service
init paused_on_boot t = record {
  paused = paused_on_boot;
  table = t;
  tasks = [];
  last_event_at = [];
  log = [];
}

unfoldable pub pause_intake : Service → Service
pause_intake s = record s { paused = true }

unfoldable pub resume_intake : Service → Service
resume_intake s = record s { paused = false }

unfoldable pub find_task : ℕ → List Task → Option Task
find_task id [] = none
find_task id (k ∷ ks) = let rest = find_task id ks in if k.id == id then some k else rest

unfoldable pub set_task : Task → List Task → List Task
set_task k [] = []
set_task k (j ∷ js) = (if j.id == k.id then k else j) ∷ set_task k js

unfoldable pub last_event : ℕ → List (ℕ × ℕ) → Option ℕ
last_event id [] = none
last_event id ((j, at) ∷ es) = let rest = last_event id es in if j == id then some at else rest

-- `_forget_task`, the done callback.
unfoldable pub forget_task : ℕ → Service → Service
unfolding keep
forget_task id s = record s {
  tasks = keep (λ (k : Task). not (k.id == id)) s.tasks;
  last_event_at = keep (λ (e : ℕ × ℕ). not (e.0 == id)) s.last_event_at;
}

-- `running_runs`: each running row with the service's own note of its last event.
pub record RunningRun : Type 0 where
  pub id : ℕ
  pub started_at : Option ℕ
  pub last_event_at : Option ℕ

pub snapshots : List (ℕ × ℕ) → Table → List RunningRun
unfolding last_event
snapshots es [] = []
snapshots es (r ∷ t) =
    record { id = r.id; started_at = r.started_at; last_event_at = last_event r.id es }
    ∷ snapshots es t

unfoldable pub running_runs : Service → List RunningRun
unfolding snapshots list_running
running_runs s = snapshots s.last_event_at (list_running s.table)

abbrev pub no_changes : Changes
no_changes = record {
  started_at = none;
  completed_at = none;
  exit_code = none;
  error_detail = none;
  event_count = none;
  tool_call_count = none;
  permission_denied_count = none;
  parse_error_count = none;
  prompt_tokens = none;
  completion_tokens = none;
  duration = none;
  intervention_count = none;
}

-- `_TERMINAL_STATUS_BY_RUN_STATUS`
abbrev pub terminal_status : RunStatus → Status
terminal_status completed = succeeded
terminal_status failed_run = failed
terminal_status timed_out = timeout

abbrev or_empty : Option String → String
or_empty none = ""
or_empty (some e) = e

module _ (length : String → ℕ) (c : OpencodeSettings) where
  unfoldable pub emit : Line → Service → Service
  emit l s = if c.telemetry_on then record s { log = s.log ++ l ∷ [] } else s

  -- `submit` up to its read of the backlog.
  unfoldable pub admit : RunRequest → Service → Option Refusal
  admit q s =
      if s.paused
      then some intake_paused
      else if ltb c.max_prompt_chars (length q.prompt)
      then some prompt_too_long
      else if leb c.queue_max_depth (count_active s.table)
      then some busy
      else none

  -- `submit` from its insertion on.
  unfoldable pub enqueue : ℕ → ℕ → RunRequest → Option ℕ → Service → Service
  unfolding emit
  enqueue id now q retry_of s =
      let t : Service =
        emit (submitted id q.session_id q)
          (record s { table = create id (iso now) q retry_of s.table }) in
      record t {
        tasks = t.tasks ++ record { id = id; request = q; begun = none; event_count = 0 } ∷ [];
      }

  abbrev pub admitted :
      ℕ → ℕ → RunRequest → Option ℕ → Service → Option Refusal → Result Refusal ℕ × Service
  admitted id now q retry_of s none = (ok id, enqueue id now q retry_of s)
  admitted id now q retry_of s (some e) = (err e, s)

  -- `submit` with nothing in between; the result is the new run's id.
  unfoldable pub submit : ℕ → ℕ → RunRequest → Option ℕ → Service → Result Refusal ℕ × Service
  unfolding admit enqueue
  submit id now q retry_of s = admitted id now q retry_of s (admit q s)

  abbrev pub settle : Option Table → Service → Service
  settle none s = s
  settle (some t) s = record s { table = t }

  -- `_execute` up to its call of the runner. A failed assertion ends the task.
  abbrev began : Task → ℕ → Option Table → Service → Service
  began k now none s = forget_task k.id s
  began k now (some t) s =
      emit (started k.id k.request.session_id)
        (record s { table = t; tasks = set_task (record k { begun = some now }) s.tasks })

  unfoldable pub execute_begin : Task → ℕ → Service → Service
  unfolding emit set_task forget_task
  execute_begin k now s =
      began k now
        (update_status k.id running (record no_changes { started_at = some (iso now) }) s.table) s

  -- `on_event`
  unfoldable pub execute_event : Task → ℕ → Service → Service
  unfolding emit set_task
  execute_event k now s = emit (event k.id k.request.session_id) (record s {
    tasks = set_task (record k { event_count = k.event_count + 1 }) s.tasks;
    last_event_at = (k.id, iso now) ∷ s.last_event_at;
  })

  -- `_execute` after the runner returned, and the done callback.
  unfoldable pub execute_finish : Task → ℕ → RunOutcome → Service → Service
  unfolding emit forget_task
  execute_finish k now o s =
      let t : Service = emit (outcome k.id k.request.session_id o) s in
      forget_task k.id (
        settle
          (update_status k.id (terminal_status o.status)
            (record no_changes {
              completed_at = some (iso now);
              exit_code = o.exit_code;
              error_detail = some (or_empty o.error);
              event_count = some k.event_count;
              parse_error_count = some o.events_skipped;
              duration = some o.duration;
            })
            t.table)
          t)

  -- A cancellation of a task that has begun, by the handler in `_execute`.
  unfoldable pub execute_cancelled : Task → ℕ → ℕ → Service → Service
  unfolding emit forget_task
  execute_cancelled k start now s =
      let t : Service = emit (was_cancelled k.id k.request.session_id (now - start)) s in
      forget_task k.id (
        settle
          (update_status k.id cancelled
            (record no_changes {
              completed_at = some (iso now);
              duration = some (now - start);
              event_count = some k.event_count;
            })
            t.table)
          t)

  -- `task.cancel()`: before a task's first step asyncio ends it at the top of `_execute`, outside
  -- its `try`, so that only the done callback runs.
  abbrev pub cancel_task : ℕ → Task → Option ℕ → Service → Service
  cancel_task now k none s = forget_task k.id s
  cancel_task now k (some start) s = execute_cancelled k start now s

  abbrev cancel_found : ℕ → Option Task → Service → Bool × Service
  cancel_found now none s = (false, s)
  cancel_found now (some k) s = (true, cancel_task now k k.begun s)

  unfoldable pub cancel : ℕ → ℕ → Service → Bool × Service
  unfolding find_task execute_cancelled
  cancel now id s = cancel_found now (find_task id s.tasks) s

  -- `stop`, where every task ends within the timeout.
  unfoldable pub stop_tasks : ℕ → List Task → Service → Service
  unfolding execute_cancelled
  stop_tasks now [] s = s
  stop_tasks now (k ∷ ks) s = stop_tasks now ks (cancel_task now k k.begun s)

  unfoldable pub stop : ℕ → Service → Service
  unfolding stop_tasks
  stop now s = stop_tasks now s.tasks s
