-- ===== src/Opencode/Intervention.antt =====
-- The bounded interventions: src/ansina/opencode/interventions.py and `apply_intervention` of
-- src/ansina/opencode/service.py.
pub mod Resubmit
pub mod Unmade
use ansina.Prelude.{ℕ, String, Option, none, some, false, if◌then◌else◌, Result, ok, err}
use ansina.Opencode.Run.{OpencodeRun, RunRequest, is_retryable}
use ansina.Opencode.Repository.{Table, get, increment_intervention_count}
use ansina.Opencode.Service.{
  Service, OpencodeSettings, OpencodeAction, retry, nudge, compact, pause_intake_action,
  escalate_to_brain, InterventionStatus, applied, declined, unsupported, error, Detail,
  intake_paused_detail, compact_unsupported, resubmitted_as, nudged_via, not_found, not_retryable,
  intervention, Refusal, assertion_failed, pause_intake, submit, emit,
}

unfoldable pub build_retry_request : OpencodeRun → RunRequest
build_retry_request r = record {
  prompt = r.prompt;
  session_id = none;
  continue_last = false;
  fork = false;
  model = r.model;
  agent = r.agent;
  auto_approve = none;
}

abbrev pub nudge_continuation_prompt : String
nudge_continuation_prompt =
    "Continue from where you left off. If you are stuck or waiting on something, state plainly what you need."

unfoldable pub build_nudge_request : OpencodeRun → RunRequest
build_nudge_request r = record {
  prompt = nudge_continuation_prompt;
  session_id = r.session_id;
  continue_last = false;
  fork = false;
  model = r.model;
  agent = r.agent;
  auto_approve = none;
}

abbrev pub Reply : Type 0
Reply = Result Refusal (InterventionStatus × Detail)

abbrev session_of : Option OpencodeRun → Option String
session_of none = none
session_of (some r) = r.session_id

module _ (length : String → ℕ) (c : OpencodeSettings) where
  -- Counts the attempt against the run and reports it.
  abbrev pub report :
      OpencodeRun
      → OpencodeAction
      → InterventionStatus
      → Detail
      → Option Table
      → Service
      → Reply × Service
  report r a st d none s = (err assertion_failed, s)
  report r a st d (some t) s = (
    ok (st, d),
    emit length c (intervention (some r.id) r.session_id a st d) (record s { table = t }),
  )

  abbrev pub resubmitted :
      OpencodeRun → OpencodeAction → (ℕ → Detail) → Result Refusal ℕ × Service → Reply × Service
  resubmitted r a d (err e, s) = (err e, s)
  resubmitted r a d (ok new, s) =
      report r a applied (d new) (increment_intervention_count r.id s.table) s

  -- The actions on a run that is in the table; `new` is the id that is drawn for a submission.
  abbrev on_run : ℕ → ℕ → OpencodeRun → OpencodeAction → Service → Reply × Service
  on_run new now r retry s =
      if is_retryable r.status
      then resubmitted r retry resubmitted_as
          (submit length c new now (build_retry_request r) (some r.id) s)
      else (ok (declined, not_retryable r.status), s)
  on_run new now r nudge s =
      resubmitted r nudge nudged_via (submit length c new now (build_nudge_request r) (some r.id) s)
  on_run new now r compact s =
      report r compact unsupported compact_unsupported (increment_intervention_count r.id s.table) s
  on_run new now r pause_intake_action s = (err assertion_failed, s)
  on_run new now r escalate_to_brain s = (err assertion_failed, s)

  abbrev on_found : ℕ → ℕ → ℕ → Option OpencodeRun → OpencodeAction → Service → Reply × Service
  on_found new now id none a s = (ok (error, not_found id), s)
  on_found new now id (some r) a s = on_run new now r a s

  abbrev paused_report : Option ℕ → Option String → Service → Reply × Service
  paused_report id session s = (
    ok (applied, intake_paused_detail),
    emit length c (intervention id session pause_intake_action applied intake_paused_detail) s,
  )

  abbrev pause_counted : ℕ → Option Table → Service → Reply × Service
  pause_counted id none s = (err assertion_failed, s)
  pause_counted id (some t) s =
      paused_report (some id) (session_of (get id t)) (record s { table = t })

  -- `apply_intervention`. Only a pause comes without a run.
  unfoldable pub apply_intervention : ℕ → ℕ → Option ℕ → OpencodeAction → Service → Reply × Service
  unfolding pause_intake emit get
  apply_intervention new now none pause_intake_action s = paused_report none none (pause_intake s)
  apply_intervention new now (some id) pause_intake_action s =
      pause_counted id (increment_intervention_count id s.table) (pause_intake s)
  apply_intervention new now none a s = (err assertion_failed, s)
  apply_intervention new now (some id) a s = on_found new now id (get id s.table) a s
