-- ===== src/Opencode/Runner.antt =====
-- src/ansina/opencode/runner.py, `OpencodeCliRunner._run_one`, and `parse_run_event` of events.py.
-- What the reader thread and the clock give a round of the loop is a `Read`; the rounds are a
-- stream. `json.loads`, `str.isspace`, the patterns of the redaction and the child are parameters.
pub mod Admission
pub mod Bounded
pub mod Bytes
pub mod Outcome
pub mod Reported
use ansina.Prelude.{
  ℕ, zero, suc, ◌+◌, ◌-◌, Option, none, some, List, [], ◌∷◌, ◌++◌, Bool, true, false, ◌||◌, leb,
  ltb, ◌==◌, if◌then◌else◌, length, Result, ok, err, ℤ, pos, String,
}
use ansina.Heart.Decision.{codes, strip}
use ansina.Json.{Json, text, Loaded, object, not_object, decode_error, raised, field}
use ansina.Logging.Redaction.{Pattern, redact}
use ansina.Opencode.Events.{EncodeError, encode, truncate_utf8}
use ansina.Opencode.Run.{RunRequest}
use ansina.Opencode.Service.{RunStatus, completed, failed_run, timed_out}

pub data RunEventType : Type 0 where
  other : RunEventType

pub record RunEvent : Type 0 where
  pub type : RunEventType
  pub raw_type : List ℕ
  pub payload : List ℕ
  pub sequence : ℕ

-- What the code reads of a text, outside the repository, and the registered secrets.
pub record Reader : Type 0 where
  pub is_space : ℕ → Bool
  pub loads : List ℕ → Loaded
  pub patterns : List Pattern
  pub secrets : List (List ℕ)

-- What is raised: by `json.loads`, or by `str.encode` on a lone surrogate.
pub data Raised : Type 0 where
  loads_raised encode_raised : Raised

abbrev pub or_else : Option Json → List ℕ → List ℕ
or_else (some (text t)) d = t
or_else _ d = d

abbrev pub raw_type_of : List (List ℕ × Json) → List ℕ
raw_type_of fields =
    or_else (field (codes "type") fields) (or_else (field (codes "event") fields) [])

-- `redact(_truncate_utf8(text, max_event_bytes))`
unfoldable pub captured : Reader → ℕ → List ℕ → Result Raised (List ℕ)
unfolding truncate_utf8
captured r max_event_bytes t = elim (truncate_utf8 t max_event_bytes) [
  | err e ↦ err encode_raised
  | ok kept ↦ ok (redact r.patterns r.secrets kept)
]

abbrev pub event_with :
    ℕ → Result Raised (List ℕ) → Result Raised (List ℕ) → Result Raised (Option RunEvent)
event_with sequence (err e) raw = err e
event_with sequence (ok payload) (err e) = err e
event_with sequence (ok payload) (ok raw) =
    ok (some (record { type = other; raw_type = raw; payload = payload; sequence = sequence }))

abbrev pub event_from : Reader → ℕ → ℕ → List ℕ → Loaded → Result Raised (Option RunEvent)
event_from r max_event_bytes sequence stripped (object fields) =
    event_with sequence (captured r max_event_bytes stripped)
      (captured r max_event_bytes (raw_type_of fields))
event_from r max_event_bytes sequence stripped not_object = ok none
event_from r max_event_bytes sequence stripped decode_error = ok none
event_from r max_event_bytes sequence stripped raised = err loads_raised

unfoldable pub parse_run_event : Reader → List ℕ → ℕ → ℕ → Result Raised (Option RunEvent)
unfolding strip captured field
parse_run_event r t max_event_bytes sequence =
    let stripped = strip r.is_space t in
    if length stripped == 0
    then ok none
    else event_from r max_event_bytes sequence stripped (r.loads stripped)

pub record RunnerSettings : Type 0 where
  pub run_timeout : ℕ
  pub max_run_output_bytes : ℕ
  pub max_event_bytes : ℕ

-- What `wait_for(queue.get())` does: a line, the `None` at the end of the output, a TimeoutError or a
-- cancellation.
pub data Got : Type 0 where
  line : List ℕ → Got
  eof no_line cancellation : Got

-- The clock's reading at the beginning of a round, and what the queue gives.
pub record Read : Type 0 where
  pub now : ℕ
  pub got : Got

-- How the loop ended, if it has.
pub data End : Type 0 where
  reads_on ended timed_out_end truncated_end cancelled_end : End
  raised_end : Raised → End

-- The loop's variables; `events` is what `on_event` was called with, in that order.
pub record Progress : Type 0 where
  pub events_emitted : ℕ
  pub events_skipped : ℕ
  pub output_bytes : ℕ
  pub sequence : ℕ
  pub events : List RunEvent
  pub end : End

abbrev pub started : Progress
started = record {
  events_emitted = 0;
  events_skipped = 0;
  output_bytes = 0;
  sequence = 0;
  events = [];
  end = End.reads_on;
}

abbrev pub stop : End → Progress → Progress
stop e p = record p { end = e }

abbrev pub count : Result Raised (Option RunEvent) → Progress → Progress
count (err e) p = stop (raised_end e) p
count (ok none) p = record p { events_skipped = suc p.events_skipped }
count (ok (some event)) p = record p {
  sequence = suc p.sequence;
  events_emitted = suc p.events_emitted;
  events = p.events ++ event ∷ [];
}

abbrev pub take_line :
    Reader → RunnerSettings → List ℕ → Progress → Result EncodeError (List ℕ) → Progress
take_line r s t p (err e) = stop (raised_end encode_raised) p
take_line r s t p (ok bytes) =
    let q : Progress = record p { output_bytes = p.output_bytes + length bytes } in
    if ltb s.max_run_output_bytes q.output_bytes
    then stop End.truncated_end q
    else count (parse_run_event r t s.max_event_bytes q.sequence) q

-- One round of the loop.
unfoldable pub round : Reader → RunnerSettings → ℕ → Read → Progress → Progress
unfolding encode parse_run_event
round r s start x p =
    if leb s.run_timeout (x.now - start) then stop End.timed_out_end p else elim x.got [
      | line t ↦ take_line r s t p (encode t)
      | eof ↦ stop End.ended p
      | no_line ↦ stop End.timed_out_end p
      | cancellation ↦ stop End.cancelled_end p
    ]

abbrev pub is_reading : End → Bool
is_reading reads_on = true
is_reading _ = false

-- `while True`, from the round `k` on.
unfoldable pub read_loop : ℕ → Reader → RunnerSettings → ℕ → (ℕ → Read) → ℕ → Progress → Progress
unfolding round
read_loop zero r s start reads k p = p
read_loop (suc fuel) r s start reads k p =
    let q = round r s start (reads k) p in
    let rest = read_loop fuel r s start reads (suc k) q in if is_reading q.end then rest else q

-- What the runner does to the child.
pub data Call : Type 0 where
  terminate wait_shutdown kill wait : Call

-- The calls of `_finish`, where `expired` says whether the bounded wait raises `TimeoutExpired`.
unfoldable pub finish : Bool → Bool → List Call
finish force expired =
    if force
    then terminate ∷ wait_shutdown ∷ (if expired then kill ∷ wait ∷ [] else [])
    else wait ∷ []

-- Whether the last wait of `_finish` returns. It has no time limit: after `kill` the child is gone, and
-- without force it is for the child to exit.
unfoldable pub finish_returns : Bool → Bool → Bool
finish_returns force exits = force || exits

pub data RunError : Type 0 where
  failed_to_spawn run_timeout_exceeded output_exceeded : RunError
  exited_with : Option ℤ → RunError

pub record RunOutcome : Type 0 where
  pub status : RunStatus
  pub exit_code : Option ℤ
  pub events_emitted : ℕ
  pub events_skipped : ℕ
  pub duration : ℕ
  pub truncated : Bool
  pub error : Option RunError

abbrev pub is_zero : Option ℤ → Bool
is_zero (some (pos n)) = n == 0
is_zero _ = false

abbrev pub outcome : Progress → Option ℤ → ℕ → RunStatus → Bool → Option RunError → RunOutcome
outcome p exit_code duration status truncated error = record {
  status = status;
  exit_code = exit_code;
  events_emitted = p.events_emitted;
  events_skipped = p.events_skipped;
  duration = duration;
  truncated = truncated;
  error = error;
}

-- Why there is no outcome: a CancelledError or another exception leaves `run`, the read loop goes on,
-- or the run waits for the child for ever.
pub data Escape : Type 0 where
  cancelled_error endless hangs : Escape
  exception : Raised → Escape

abbrev pub is_forced : End → Bool
is_forced timed_out_end = true
is_forced truncated_end = true
is_forced cancelled_end = true
is_forced _ = false

abbrev pub result_of : Progress → Option ℤ → ℕ → End → Result Escape RunOutcome
result_of p exit_code duration timed_out_end =
    ok (outcome p exit_code duration timed_out false (some run_timeout_exceeded))
result_of p exit_code duration truncated_end =
    ok (outcome p exit_code duration failed_run true (some output_exceeded))
result_of p exit_code duration ended =
    if is_zero exit_code
    then ok (outcome p exit_code duration completed false none)
    else ok (outcome p exit_code duration failed_run false (some (exited_with exit_code)))
result_of p exit_code duration cancelled_end = err cancelled_error
result_of p exit_code duration (raised_end e) = err (exception e)
result_of p exit_code duration reads_on = err endless

-- The child as the run sees it: whether the spawn raises an `OSError`, what the rounds read, whether
-- it outlives `terminate`, whether it exits when it is not forced to once the loop has ended, and what
-- `poll` gives at last.
pub record Child : Type 0 where
  pub spawns : Bool
  pub reads : ℕ → Read
  pub outlives : Bool
  pub exits : Bool
  pub exit_code : Option ℤ

pub record Execution : Type 0 where
  pub events : List RunEvent
  pub calls : List Call
  pub result : Result Escape RunOutcome

abbrev pub unspawned : RunOutcome → Execution
unspawned o = record { events = []; calls = []; result = ok o }

abbrev pub concluded : Child → ℕ → Progress → Execution
concluded child duration p = record {
  events = p.events;
  calls = finish (is_forced p.end) child.outlives;
  result =
      if finish_returns (is_forced p.end) child.exits
      then result_of p child.exit_code duration p.end
      else err hangs;
}

-- One unit of fuel more than the bytes that a run may put out.
unfoldable pub run_one : Reader → RunnerSettings → Child → ℕ → ℕ → Execution
unfolding read_loop
run_one r s child start stopped =
    if child.spawns
    then concluded child (stopped - start)
        (read_loop (suc s.max_run_output_bytes) r s start child.reads 0 started)
    else unspawned (outcome started none (stopped - start) failed_run false (some failed_to_spawn))
