-- ===== src/Tests/Runs.antt =====
-- The runs, their service and its policy of src/ansina/opencode and src/ansina/heart/tick at
-- concrete inputs.
use Prim.Native.String.{count as chars}
use ansina.Prelude.{
  ℕ, ◌≤◌, ◌≡◌, ◌↔◌, refl, none, some, List, [], ◌∷◌, true, false, arith, length, keep,
}
use ansina.Opencode.Run.{
  Status, OpencodeRun, RunRequest, is_terminal, queued, running, succeeded, failed, cancelled,
}
use ansina.Opencode.Repository.{Table, new_run, get, count_active, count_where}
use ansina.Opencode.Repository.Laws.{Unique}
use ansina.Opencode.Repository.History.{
  Ended, updated, incremented, booted, write_all, write_all-Ended,
}
use ansina.Opencode.Service.{
  Service, OpencodeSettings, RunOutcome, Task, completed, admit, execute_finish, cancel, no_changes,
  retry, find_task,
}
use ansina.Opencode.Service.Submit.{interleaved, interleaved_submissions_overfill}
use ansina.Opencode.Service.Lifecycle.{EndedAs, execute_finish-EndedAs, cancel-EndedAs}
use ansina.Opencode.Policy.{
  PolicySettings, Probe, InterventionDecision, initial, decide, exhausted, recent, ladder,
  first_retryable,
}
use ansina.Opencode.Policy.Ladder.{IsQuiet, Grounds, decide-Grounds, decide-none_iff}
use ansina.Opencode.Policy.Budget.{Consult, consult_all, hourly_ceiling}
use ansina.Opencode.Service.{submit, busy, applied, resubmitted_as}
use ansina.Opencode.Intervention.{build_retry_request, apply_intervention}
use ansina.Opencode.Intervention.Resubmit.{Resubmits, apply_intervention-Resubmits}
use ansina.Prelude.{ok, err, arith}

abbrev request : RunRequest
request = record {
  prompt = "fix the build";
  session_id = none;
  continue_last = false;
  fork = false;
  model = none;
  agent = none;
  auto_approve = none;
}

abbrev row : ℕ → Status → OpencodeRun
row id status = record (new_run id 1000 request none) { status = status }

-- A run that is running, one that waits and one that has failed.
abbrev table : Table
table = row 1 running ∷ row 2 queued ∷ row 3 failed ∷ []

row_found : get 1 table ≡ some (row 1 running)
unfolding get new_run
row_found = refl

unique : Unique table
unfolding get new_run
unique = (refl, (refl, (refl, tt)))

failed_closed : (r : OpencodeRun) → get 3 table ≡ some r → is_terminal r.status ≡ true
unfolding get new_run
failed_closed r e = ground arith

failed-Ended : Ended 3 failed table
unfolding get new_run
failed-Ended = record { row = row 3 failed; found = refl; status = refl }

write_all-Ended_example :
    Ended 3 failed
      (write_all (updated 3 succeeded no_changes ∷ incremented 3 ∷ booted 5000 ∷ []) table)
write_all-Ended_example =
    write_all-Ended (updated 3 succeeded no_changes ∷ incremented 3 ∷ booted 5000 ∷ []) 3 failed
      table refl failed-Ended

abbrev new_id : ℕ
new_id = 7

abbrev settings : OpencodeSettings
settings = record { max_prompt_chars = 100; queue_max_depth = 3; telemetry_on = true }

abbrev waiting : Task
waiting = record { id = 2; request = request; begun = none; event_count = 0 }

abbrev under_way : Task
under_way = record { id = 1; request = request; begun = some 2000; event_count = 4 }

abbrev service : Service
service = record {
  paused = false;
  table = table;
  tasks = under_way ∷ waiting ∷ [];
  last_event_at = [];
  log = [];
}

abbrev full : OpencodeSettings
full = record settings { queue_max_depth = 2 }

interleaved_submissions_overfill_example :
    let (r, r', t) = interleaved chars settings 7 8 9000 9001 request request service in
    let (first, u) = submit chars settings 7 9000 request none service in
    let (second, v) = submit chars settings 8 9001 request none u in
    (r ≡ ok 7)
    × (r' ≡ ok 8)
    × (count_active t.table ≡ 4)
    × (first ≡ ok 7)
    × (second ≡ err busy)
    × (count_active v.table ≡ 3)
unfolding count_active count_where new_run
interleaved_submissions_overfill_example =
    interleaved_submissions_overfill chars settings 7 8 9000 9001 request request service refl
      (omega arith) (omega arith) refl

abbrev done : RunOutcome
done = record {
  status = completed;
  exit_code = none;
  error = none;
  events_emitted = 4;
  truncated = false;
  events_skipped = 0;
  duration = 700;
}

execute_finish-EndedAs_example :
    EndedAs 1 succeeded 2700 4 700 service
      (execute_finish chars settings under_way 2700 done service)
execute_finish-EndedAs_example =
    execute_finish-EndedAs chars settings under_way 2700 done service (row 1 running) unique
      row_found refl

cancel-EndedAs_example :
    let (stopped, t) = cancel chars settings 2700 1 service in
    (stopped ≡ true) × EndedAs 1 cancelled 2700 4 700 service t
unfolding find_task
cancel-EndedAs_example =
    cancel-EndedAs chars settings 1 2700 2000 under_way service (row 1 running) refl refl unique
      row_found refl

abbrev policy_settings : PolicySettings
policy_settings = record {
  max_retries_per_run = 2;
  cooldown_ticks = 3;
  max_interventions_per_hour = 1;
  stall = 60000000;
  recent_window_minutes = 60;
}

abbrev one_failed : Probe
one_failed = record { retry_candidates = row 3 failed ∷ []; stalled_id = none; failure_total = 1 }

abbrev retry_third : InterventionDecision
retry_third = record { action = retry; run_id = some 3 }

decide-Grounds_example :
    (exhausted policy_settings (recent policy_settings 500 []) ≡ false)
    × Grounds policy_settings 12 initial one_failed retry (some 3)
unfolding decide recent ladder first_retryable keep new_run
decide-Grounds_example = decide-Grounds policy_settings 12 500 one_failed initial retry_third refl

decide-none_iff_example :
    ((decide policy_settings 12 500 one_failed initial).0 ≡ none) ↔ IsQuiet one_failed
unfolding recent keep
decide-none_iff_example = decide-none_iff policy_settings 12 500 one_failed initial refl

abbrev consults : List Consult
consults =
    record { ticks_run = 12; clock = 500; probe = one_failed }
    ∷ record { ticks_run = 20; clock = 900; probe = one_failed }
    ∷ []

hourly_ceiling_example :
    length (recent policy_settings 1000 (consult_all policy_settings consults initial []).1) ≤ 1
hourly_ceiling_example =
    hourly_ceiling policy_settings consults 0 1000 (omega arith, (omega arith, tt)) (omega arith)

apply_intervention-Resubmits_example :
    let (reply, t) = apply_intervention chars settings 7 9000 (some 3) retry service in
    (reply ≡ ok (applied, resubmitted_as 7))
    × Resubmits chars settings 7 9000
        (row 3 failed)
        (build_retry_request (row 3 failed))
        table
        t.table
unfolding get new_run admit count_active count_where build_retry_request
apply_intervention-Resubmits_example =
    apply_intervention-Resubmits chars settings 7 9000 retry (row 3 failed)
      (build_retry_request (row 3 failed)) service unique refl refl (refl, refl) refl
