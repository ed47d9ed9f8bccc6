-- ===== src/Opencode/Runner/Admission.antt =====
-- `OpencodeCliRunner.run`, but for what `_run_one` does: the guards, the counter of the admitted calls
-- and the semaphore. A call waits for the semaphore or runs; where a call stands is kept beside the
-- counters. `len` of a prompt is a parameter.
use ansina.Prelude.{
  ℕ, suc, ◌+◌, ◌-◌, ◌≤◌, ◌<◌, ◌≡◌, refl, String, Option, none, some, ltb, leb, if◌then◌else◌,
  Result, ok, err, arith, Bool-cases, inl, inr,
}
use mathlib.Core.Path.{subst}
use ansina.Opencode.Run.{RunRequest}

pub record AdmissionSettings : Type 0 where
  pub max_prompt_chars : ℕ
  pub queue_max_depth : ℕ
  pub max_concurrent_runs : ℕ

-- OpencodeUnavailableError, OpencodeRunFailedError and OpencodeBusyError.
pub data AdmissionError : Type 0 where
  unavailable run_failed busy : AdmissionError

-- `free` is the value of the semaphore.
pub record Admission : Type 0 where
  pub admitted : ℕ
  pub free : ℕ
  pub waiting : ℕ
  pub running : ℕ

abbrev pub fresh : AdmissionSettings → Admission
fresh s = record { admitted = 0; free = s.max_concurrent_runs; waiting = 0; running = 0 }

-- The semaphore lets a call in.
unfoldable pub acquire : Admission → Admission
acquire a = record a { free = a.free - 1; waiting = a.waiting - 1; running = suc a.running }

-- The `finally`, after the semaphore's own end.
unfoldable pub leave : Admission → Admission
leave a = record a { admitted = a.admitted - 1; free = suc a.free; running = a.running - 1 }

-- The `finally`, for a call that is cancelled while it waits.
unfoldable pub leave_waiting : Admission → Admission
leave_waiting a = record a { admitted = a.admitted - 1; waiting = a.waiting - 1 }

abbrev pub IsBalanced : AdmissionSettings → Admission → Type 0
IsBalanced s a =
    (a.admitted ≡ a.waiting + a.running)
    × (a.running + a.free ≡ s.max_concurrent_runs)
    × (a.admitted ≤ s.queue_max_depth)

module _ (length : String → ℕ) (s : AdmissionSettings) where
  -- `run`, up to the semaphore.
  unfoldable pub admit : Option String → RunRequest → Admission → Result AdmissionError Admission
  admit none request a = err unavailable
  admit (some path) request a =
      if ltb s.max_prompt_chars (length request.prompt)
      then err run_failed
      else if leb s.queue_max_depth a.admitted
      then err busy
      else ok (record a { admitted = suc a.admitted; waiting = suc a.waiting })

  -- What the calls of `run` do, in any order.
  pub data Reached : Admission → Type 0 where
    at_first : Reached (fresh s)
    admits :
        {a b : Admission} (path : Option String) (request : RunRequest)
        → Reached a
        → admit path request a ≡ ok b
        → Reached b
    acquires : {a : Admission} → Reached a → 0 < a.waiting → 0 < a.free → Reached (acquire a)
    leaves : {a : Admission} → Reached a → 0 < a.running → Reached (leave a)
    leaves_waiting : {a : Admission} → Reached a → 0 < a.waiting → Reached (leave_waiting a)

  admit-IsBalanced :
      (path : Option String) (request : RunRequest) (a b : Admission)
      → IsBalanced s a
      → admit path request a ≡ ok b
      → IsBalanced s b
  unfolding admit
  admit-IsBalanced none request a b balanced h = cc
  admit-IsBalanced (some path) request a b (total, slots, capped) h =
      elim (Bool-cases (ltb s.max_prompt_chars (length request.prompt))) [
        | inl too_long ↦ let h' = rw too_long at h in cc
        | inr fits ↦ elim (Bool-cases (leb s.queue_max_depth a.admitted)) [
          | inl full ↦ let h' = rw (fits, full) at h in cc
          | inr room ↦
              let next : Admission = record a {
                admitted = suc a.admitted;
                waiting = suc a.waiting;
              } in
              let h' : ok next ≡ ok b = rw (fits, room) at h in
              let e : next ≡ b = cc in
              subst (IsBalanced s) e (omega (arith, total), slots, ground (arith, room))
        ]
      ]

  -- Whatever the calls of `run` do, and in whatever order they wait, run, end and are cancelled: the
  -- counter of the admitted calls is the number of those that wait or run, and is at most
  -- `queue_max_depth`; at most `max_concurrent_runs` calls run, and as many slots are free as do not.
  pub Reached-IsBalanced : (a : Admission) → Reached a → IsBalanced s a
  unfolding acquire leave leave_waiting
  Reached-IsBalanced a at_first = (refl, omega arith, omega arith)
  Reached-IsBalanced b (admits {a = a} path request before h) =
      admit-IsBalanced path request a b (Reached-IsBalanced a before) h
  Reached-IsBalanced b (acquires {a = a} before some_wait some_free) =
      let (total, slots, capped) = Reached-IsBalanced a before in
      (omega (arith, total, some_wait), omega (arith, slots, some_free), capped)
  Reached-IsBalanced b (leaves {a = a} before some_run) =
      let (total, slots, capped) = Reached-IsBalanced a before in
      (omega (arith, total, some_run), omega (arith, slots, some_run), omega (arith, capped))
  Reached-IsBalanced b (leaves_waiting {a = a} before some_wait) =
      let (total, slots, capped) = Reached-IsBalanced a before in
      (omega (arith, total, some_wait), slots, omega (arith, capped))
