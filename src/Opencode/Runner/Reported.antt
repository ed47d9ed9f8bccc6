-- ===== src/Opencode/Runner/Reported.antt =====
-- What a run reports of its child, and what it lets out.
use mathlib.Core.Path.{subst}
use ansina.Prelude.{
  ℕ, suc, ◌+◌, ◌-◌, ◌≡◌, refl, sym, Option, none, some, List, [], ◌∷◌, true, false, if◌then◌else◌,
  length, Result, ok, err, ◌<◌, Bool-cases, inl, inr, All, In, ◌⊎◌, ◌≤◌, arith,
}
use ansina.Logging.Redaction.{redact}
use ansina.Logging.Redaction.Hides.{Occurs, IsSecret, Splits, redact_hides}
use ansina.Opencode.Service.{completed, failed_run, timed_out}
use ansina.Opencode.Runner.{
  Reader, RunnerSettings, Read, Got, End, Progress, RunEvent, Call, terminate, wait_shutdown, kill,
  wait, RunError, failed_to_spawn, run_timeout_exceeded, output_exceeded, exited_with, RunOutcome,
  Escape, hangs, finish_returns, Child, Execution, finish, is_forced, is_zero, result_of, concluded,
  run_one,
}
use ansina.Opencode.Runner.Bounded.{HasLines, loop, loop_ends, run_one-spawned, run_one-unspawned}
use ansina.Opencode.Runner.Bytes.{bytes_read}
use ansina.Opencode.Runner.Outcome.{IsRedacted, Numbered, IsOver, started-IsOver, Cause}

-- The child is asked to end, and killed if it does not.
abbrev pub ended_by_force : Child → List Call
ended_by_force child = terminate ∷ wait_shutdown ∷ (if child.outlives then kill ∷ wait ∷ [] else [])

-- How many lines were counted, as events or as skipped.
abbrev pub lines : RunOutcome → ℕ
lines o = o.events_emitted + o.events_skipped

abbrev pub last_read : Child → RunOutcome → Read
last_read child o = child.reads (lines o)

-- The status, the calls of the child and the last round, by the error that an outcome has.
abbrev pub Because : RunnerSettings → Child → ℕ → RunOutcome → List Call → Option RunError → Type 0
Because s child start o calls none =
    (o.status ≡ completed)
    × (o.truncated ≡ false)
    × (is_zero child.exit_code ≡ true)
    × ((last_read child o).got ≡ Got.eof)
    × (child.exits ≡ true)
    × (calls ≡ wait ∷ [])
Because s child start o calls (some failed_to_spawn) =
    (o.status ≡ failed_run) × (o.truncated ≡ false) × (child.spawns ≡ false) × (calls ≡ [])
Because s child start o calls (some run_timeout_exceeded) =
    (o.status ≡ timed_out)
    × (o.truncated ≡ false)
    × ((s.run_timeout ≤ (last_read child o).now - start) ⊎ ((last_read child o).got ≡ Got.no_line))
    × (calls ≡ ended_by_force child)
Because s child start o calls (some output_exceeded) =
    (o.status ≡ failed_run)
    × (o.truncated ≡ true)
    × ((t : List ℕ) × ((last_read child o).got ≡ Got.line t))
    × (s.max_run_output_bytes < bytes_read child.reads (suc (lines o)))
    × (calls ≡ ended_by_force child)
Because s child start o calls (some (exited_with code)) =
    (o.status ≡ failed_run)
    × (o.truncated ≡ false)
    × (is_zero child.exit_code ≡ false)
    × (code ≡ child.exit_code)
    × ((last_read child o).got ≡ Got.eof)
    × (child.exits ≡ true)
    × (calls ≡ wait ∷ [])

abbrev pub Reports : RunnerSettings → Child → ℕ → RunOutcome → List RunEvent → List Call → Type 0
Reports s child start o events calls =
    (o.events_emitted ≡ length events)
    × Numbered 0 events
    × (bytes_read child.reads (lines o) ≤ s.max_run_output_bytes)
    × Because s child start o calls o.error

-- An outcome is reported right if it is the one that a report is right for.
Reports-ok :
    (s : RunnerSettings) (child : Child) (start : ℕ) (x o : RunOutcome) (events : List RunEvent)
    (calls : List Call)
    → ◌≡◌ {A = Result Escape RunOutcome} (ok x) (ok o)
    → Reports s child start x events calls
    → Reports s child start o events calls
Reports-ok s child start x o events calls same h =
    let e : x ≡ o = cc in subst (λ y. Reports s child start y events calls) e h

-- The result and the calls of a run whose loop has ended so.
abbrev result_at : Child → ℕ → Progress → End → Result Escape RunOutcome
result_at child duration p e =
    if finish_returns (is_forced e) child.exits
    then result_of p child.exit_code duration e
    else err hangs

result_of-Reports :
    (s : RunnerSettings) (child : Child) (start duration : ℕ) (p : Progress) (o : RunOutcome)
    (e : End)
    → p.events_emitted ≡ length p.events
    → Numbered 0 p.events
    → Cause s start e (child.reads (p.events_emitted + p.events_skipped))
    → bytes_read child.reads (p.events_emitted + p.events_skipped) ≤ s.max_run_output_bytes
    → (e ≡ End.truncated_end
        → s.max_run_output_bytes
          < bytes_read child.reads (suc (p.events_emitted + p.events_skipped)))
    → result_at child duration p e ≡ ok o
    → Reports s child start o p.events (finish (is_forced e) child.outlives)
unfolding finish finish_returns
result_of-Reports s child start duration p o End.reads_on n numbered cause fits over h =
    absurd cause
result_of-Reports s child start duration p o End.timed_out_end n numbered cause fits over h =
    Reports-ok s child start _ o p.events _ h (n, numbered, fits, (refl, refl, cause, refl))
result_of-Reports s child start duration p o End.truncated_end n numbered cause fits over h =
    Reports-ok s child start _ o p.events _ h
      (n, numbered, fits, (refl, refl, cause, over refl, refl))
result_of-Reports s child start duration p o End.ended n numbered cause fits over h =
    elim (Bool-cases child.exits) [
      | inr stays ↦ let h' = rw stays at h in cc
      | inl exits ↦ elim (Bool-cases (is_zero child.exit_code)) [
        | inl succeeds ↦
            Reports-ok s child start _ o p.events _ (rw (exits, succeeds) at h)
              (n, numbered, fits, (refl, refl, succeeds, cause, exits, refl))
        | inr fails ↦
            Reports-ok s child start _ o p.events _ (rw (exits, fails) at h)
              (n, numbered, fits, (refl, refl, fails, refl, cause, exits, refl))
      ]
    ]
result_of-Reports s child start duration p o End.cancelled_end n numbered cause fits over h = cc
result_of-Reports s child start duration p o (End.raised_end e) n numbered cause fits over h =
    elim (Bool-cases child.exits) [
      | inr stays ↦ let h' = rw stays at h in cc
      | inl exits ↦ let h' = rw exits at h in cc
    ]

abbrev Says : RunnerSettings → Child → ℕ → RunOutcome → Execution → Type 0
Says s child start o x = x.result ≡ ok o → Reports s child start o x.events x.calls

concluded-Says :
    (r : Reader) (s : RunnerSettings) (child : Child) (start duration : ℕ) (p : Progress)
    (o : RunOutcome)
    → IsOver r s start child.reads p
    → Says s child start o (concluded child duration p)
concluded-Says r s child start duration p o ((n, _, _, numbered, _), cause, fits, over) h =
    result_of-Reports s child start duration p o p.end n numbered cause fits over h

loop-IsOver :
    (r : Reader) (s : RunnerSettings) (child : Child) (start : ℕ)
    → HasLines child.reads
    → IsOver r s start child.reads (loop r s child start)
loop-IsOver r s child start lines =
    started-IsOver (suc s.max_run_output_bytes) r s start child.reads
      (loop_ends r s child start lines)

nothing_read :
    (s : RunnerSettings) (child : Child) → bytes_read child.reads 0 ≤ s.max_run_output_bytes
unfolding bytes_read
nothing_read s child = omega arith

-- An outcome counts the events that were passed on, which are numbered from 0 in their order, and its
-- error tells what happened: no error, after the end of the output and the exit code 0, with the
-- status completed; a failed spawn, with no call of the child; the time limit, reached by the clock or
-- the wait; too much output, where the bytes of the lines that were counted, as events or as skipped,
-- are within `max_run_output_bytes` and those of the next line go over it; or another exit code, after
-- the end of the output. The lines that were counted are within that limit in each case. For the limits
-- the child is terminated, and killed if it does not exit in time; otherwise it is only waited for, and
-- exits. The round that decides is the one after the counted lines. For lines that have a character
-- each.
pub run_one-Reports :
    (r : Reader) (s : RunnerSettings) (child : Child) (start stopped : ℕ) (o : RunOutcome)
    → HasLines child.reads
    → (run_one r s child start stopped).result ≡ ok o
    → Reports s child start o
        (run_one r s child start stopped).events
        (run_one r s child start stopped).calls
run_one-Reports r s child start stopped o lines = elim (Bool-cases child.spawns) [
  | inl spawned ↦
      subst (Says s child start o) (sym (run_one-spawned r s child start stopped spawned)) (
        concluded-Says r s child start (stopped - start) (loop r s child start) o
          (loop-IsOver r s child start lines))
  | inr failed ↦
      subst (Says s child start o) (sym (run_one-unspawned r s child start stopped failed)) (λ h.
        Reports-ok s child start _ o [] [] h
          (refl, tt, nothing_read s child, (refl, refl, failed, refl)))
]

-- The texts of an event hide a secret.
abbrev pub Hides : List ℕ → RunEvent → Type 0
Hides secret e = ¬ Occurs secret e.payload × ¬ Occurs secret e.raw_type

All-Hides :
    (r : Reader) (secret : List ℕ) (es : List RunEvent)
    → All Splits r.patterns
    → In secret r.secrets
    → IsSecret secret
    → All (IsRedacted r) es
    → All (Hides secret) es
All-Hides r secret [] splits registered secret_text all = tt
All-Hides r secret (e ∷ es) splits registered secret_text (((t, payload), (u, raw)), all) =
    let hidden : (x t : List ℕ) → x ≡ redact r.patterns r.secrets t → ¬ Occurs secret x =
      λ x t same.
        subst (λ y. ¬ Occurs secret y) (sym same)
          (redact_hides r.patterns r.secrets secret t splits registered secret_text) in
    (
      (hidden e.payload t payload, hidden e.raw_type u raw),
      All-Hides r secret es splits registered secret_text all,
    )

-- No event of a run, however it ends, has a registered secret in its payload or its type: for a secret
-- without an asterisk, patterns that split a text into pieces of it, and lines that have a character
-- each.
pub run_one-Hides :
    (r : Reader) (s : RunnerSettings) (child : Child) (start stopped : ℕ) (secret : List ℕ)
    → HasLines child.reads
    → All Splits r.patterns
    → In secret r.secrets
    → IsSecret secret
    → All (Hides secret) (run_one r s child start stopped).events
run_one-Hides r s child start stopped secret lines splits registered secret_text =
    elim (Bool-cases child.spawns) [
      | inl spawned ↦
          let ((_, _, _, _, all), _, _, _) = loop-IsOver r s child start lines in
          subst (λ (x : Execution). All (Hides secret) x.events)
            (sym (run_one-spawned r s child start stopped spawned))
            (All-Hides r secret (loop r s child start).events splits registered secret_text all)
      | inr failed ↦
          subst (λ (x : Execution). All (Hides secret) x.events)
            (sym (run_one-unspawned r s child start stopped failed)) tt
    ]
