-- ===== src/Tests/Runner.antt =====
-- Runs of a child at concrete inputs.
use ansina.Prelude.{
  ℕ, ◌≡◌, refl, inl, none, some, [], ◌∷◌, true, false, ◌==◌, if◌then◌else◌, ok, err, pos, ◌++◌,
  zero, suc, All,
}
use ansina.Heart.Decision.{codes, same, after_prefix}
use ansina.Json.{text, object, decode_error}
use ansina.Opencode.Service.{completed, failed_run}
use ansina.Opencode.Runner.{
  Reader, RunnerSettings, Got, line, eof, Child, RunOutcome, output_exceeded, other, hangs,
  finish_returns, RunEvent, run_one, finish, wait, terminate, wait_shutdown, kill,
}
use ansina.Logging.Redaction.{register_secret, redact}
use ansina.Opencode.Runner.Bounded.{HasLines, Terminates, loop, run_one_ends}
use ansina.Opencode.Runner.Reported.{Reports, Hides, run_one-Reports, run_one-Hides}
use ansina.Tests.Logging.{secrets, first, first-Splits, hunter2-IsSecret}

-- One line is an object.
abbrev reader : Reader
reader = record {
  is_space = λ c. c == 10;
  loads = λ t.
      if same t (codes "{hunter2!}")
      then object ((codes "type", text (codes "say hunter2!")) ∷ [])
      else decode_error;
  patterns = first ∷ [];
  secrets = secrets;
}

abbrev settings : RunnerSettings
settings = record { run_timeout = 100; max_run_output_bytes = 20; max_event_bytes = 50 }

abbrev line_of : ℕ → Got
line_of zero = line (codes "{hunter2!}" ++ 10 ∷ [])
line_of (suc zero) = line (10 ∷ [])
line_of _ = eof

abbrev child : Child
child = record {
  spawns = true;
  reads = λ k. record { now = k; got = line_of k };
  outlives = false;
  exits = true;
  exit_code = some (pos 0);
}

-- It writes an empty line, again and again, and the clock stands still.
abbrev chatty : Child
chatty = record {
  spawns = true;
  reads = λ k. record { now = 0; got = line (10 ∷ []) };
  outlives = true;
  exits = false;
  exit_code = none;
}

abbrev event : RunEvent
event = record {
  type = other;
  raw_type = codes "***ay ***";
  payload = codes "***" ++ codes "***}";
  sequence = 0;
}

abbrev done : RunOutcome
done = record {
  status = completed;
  exit_code = some (pos 0);
  events_emitted = 1;
  events_skipped = 1;
  duration = 7;
  truncated = false;
  error = none;
}

one_event :
    run_one reader settings child 0 7
    ≡ record { events = event ∷ []; calls = wait ∷ []; result = ok done }
unfolding run_one finish finish_returns register_secret after_prefix redact
one_event = refl

abbrev overfull : RunOutcome
overfull = record {
  status = failed_run;
  exit_code = none;
  events_emitted = 0;
  events_skipped = 20;
  duration = 7;
  truncated = true;
  error = some output_exceeded;
}

stopped_at_the_bytes : run_one reader settings chatty 0 7 ≡ record {
  events = [];
  calls = terminate ∷ wait_shutdown ∷ kill ∷ wait ∷ [];
  result = ok overfull;
}
unfolding run_one finish finish_returns
stopped_at_the_bytes = refl

child-HasLines : HasLines child.reads
child-HasLines zero = λ e. cc
child-HasLines (suc zero) = λ e. cc
child-HasLines (suc (suc k)) = λ e. cc

chatty-HasLines : HasLines chatty.reads
chatty-HasLines k = λ e. cc

-- The output ends and the child stays.
abbrev silent : Child
silent = record child { exits = false }

silent_hangs : (run_one reader settings silent 0 7).result ≡ err hangs
unfolding run_one finish_returns
silent_hangs = refl

run_one_ends_example :
    Terminates chatty (loop reader settings chatty 0).end (run_one reader settings chatty 0 7)
run_one_ends_example = run_one_ends reader settings chatty 0 7 chatty-HasLines

run_one-Reports_example :
    Reports settings chatty 0 overfull
      (run_one reader settings chatty 0 7).events
      (run_one reader settings chatty 0 7).calls
unfolding run_one finish_returns
run_one-Reports_example = run_one-Reports reader settings chatty 0 7 overfull chatty-HasLines refl

run_one-Hides_example : All (Hides (codes "hunter2!")) (run_one reader settings child 0 7).events
unfolding register_secret
run_one-Hides_example =
    run_one-Hides reader settings child 0 7 (codes "hunter2!") child-HasLines (first-Splits, tt)
      (inl refl) hunter2-IsSecret
