-- ===== src/Tests/Admission.antt =====
-- The admission of calls at concrete inputs.
use ansina.Prelude.{ℕ, String, ◌≡◌, refl, arith, none, some, false, err}
use ansina.Opencode.Run.{RunRequest}
use ansina.Opencode.Runner.Admission.{
  AdmissionSettings, Admission, busy, admit, acquire, leave_waiting, leave, Reached, at_first,
  admits, acquires, leaves, leaves_waiting, IsBalanced, Reached-IsBalanced,
}

abbrev settings : AdmissionSettings
settings = record { max_prompt_chars = 10; queue_max_depth = 2; max_concurrent_runs = 1 }

abbrev request : RunRequest
request = record {
  prompt = "tidy";
  session_id = none;
  continue_last = false;
  fork = false;
  model = none;
  agent = none;
  auto_approve = none;
}

abbrev chars : String → ℕ
chars _ = 4

abbrev two_calls : Admission
two_calls = record { admitted = 2; free = 0; waiting = 1; running = 1 }

third_is_refused : admit chars settings (some "opencode") request two_calls ≡ err busy
unfolding admit
third_is_refused = refl

-- The first call runs, the second one waits.
two_calls-Reached : Reached chars settings two_calls
unfolding admit acquire
two_calls-Reached =
    acquires
      (admits (some "opencode") request (admits (some "opencode") request at_first refl) refl)
      (omega arith) (omega arith)

Reached-IsBalanced_example : IsBalanced settings (leave (leave_waiting two_calls))
unfolding leave_waiting
Reached-IsBalanced_example =
    Reached-IsBalanced chars settings (leave (leave_waiting two_calls))
      (leaves (leaves_waiting two_calls-Reached (omega arith)) (omega arith))
