-- ===== src/Opencode/Runner/Bounded.antt =====
-- The read loop of a run ends.
use mathlib.Core.Path.{subst}
use ansina.Prelude.{
  sym, ◌↔◌, ℕ, zero, suc, ◌+◌, ◌-◌, ◌≤◌, ◌<◌, ◌≡◌, ◌≢◌, refl, Option, none, some, List, [], ◌∷◌,
  ◌++◌, true, false, ltb, leb, length, length-append, Result, ok, err, arith, Bool-cases, inl, inr,
  ap, ℤ,
}
use ansina.Opencode.Events.{EncodeError, encode_char, is_surrogate, encode}
use ansina.Opencode.Service.{failed_run}
use ansina.Opencode.Runner.{
  Execution, hangs, wait, finish, finish_returns, is_forced, concluded, unspawned, outcome,
  failed_to_spawn, Reader, RunnerSettings, Read, Got, End, Progress, Child, RunEvent, Raised, count,
  take_line, round, read_loop, started, run_one, endless, result_of, is_zero, is_reading,
}

-- Each line has a character: its line break at least.
abbrev pub HasLines : (ℕ → Read) → Type 0
HasLines reads = (k : ℕ) → (reads k).got ≢ Got.line []

encode_char_some : (c : ℕ) → 0 < length (encode_char c)
encode_char_some c = ground arith

encode_some : (c : ℕ) (t bytes : List ℕ) → encode (c ∷ t) ≡ ok bytes → 0 < length bytes
unfolding encode
encode_some c t bytes h = go (encode t) refl
  where
    go : (o : Result EncodeError (List ℕ)) → encode t ≡ o → 0 < length bytes
    go (err e) same = let h' = rw same at h in cc
    go (ok more) same = elim (Bool-cases (is_surrogate c)) [
      | inl bad ↦ let h' = rw (same, bad) at h in cc
      | inr fine ↦
          let h' : ok (encode_char c ++ more) ≡ ok bytes = rw (same, fine) at h in
          let e : encode_char c ++ more ≡ bytes = cc in
          let n = ap (λ l. length l) e in
          omega (arith, n, length-append (encode_char c) more, encode_char_some c)
    ]

-- A round that reads on has read a byte more, and stays within the bytes of a run.
abbrev Grows : RunnerSettings → Progress → Progress → Type 0
Grows s p q =
    is_reading q.end ≡ true
    → (p.output_bytes < q.output_bytes) × (q.output_bytes ≤ s.max_run_output_bytes)

count-output_bytes :
    (o : Result Raised (Option RunEvent)) (p : Progress) → (count o p).output_bytes ≡ p.output_bytes
count-output_bytes (err e) p = refl
count-output_bytes (ok none) p = refl
count-output_bytes (ok (some e)) p = refl

take_line-Grows :
    (r : Reader) (s : RunnerSettings) (t : List ℕ) (p : Progress) (o : Result EncodeError (List ℕ))
    → ((bytes : List ℕ) → o ≡ ok bytes → 0 < length bytes)
    → Grows s p (take_line r s t p o)
take_line-Grows r s t p (err e) some_bytes h = cc
take_line-Grows r s t p (ok bytes) some_bytes h =
    let more = some_bytes bytes refl in
    elim (Bool-cases (ltb s.max_run_output_bytes (p.output_bytes + length bytes))) [
      | inl over ↦ let h' = rw over at h in cc
      | inr within ↦ rw (within, count-output_bytes) (omega arith, ground (arith, within))
    ]

round-Grows :
    (r : Reader) (s : RunnerSettings) (start : ℕ) (x : Read) (p : Progress)
    → x.got ≢ Got.line []
    → Grows s p (round r s start x p)
unfolding round
round-Grows r s start x p some_line = elim (Bool-cases (leb s.run_timeout (x.now - start))) [
  | inl late ↦ rw late (λ h. cc)
  | inr early ↦ rw early (go x.got refl)
]
  where
    go :
        (g : Got)
        → x.got ≡ g
        → Grows s p (elim g as (λ _. Progress) [
          | Got.line t ↦ take_line r s t p (encode t)
          | Got.eof ↦ record p { end = End.ended }
          | Got.no_line ↦ record p { end = End.timed_out_end }
          | Got.cancellation ↦ record p { end = End.cancelled_end }
        ])
    go (Got.line []) same = absurd (some_line same)
    go (Got.line (c ∷ t)) same = take_line-Grows r s (c ∷ t) p (encode (c ∷ t)) (encode_some c t)
    go Got.eof same = λ h. cc
    go Got.no_line same = λ h. cc
    go Got.cancellation same = λ h. cc

-- Enough fuel for the bytes that are left.
read_loop_ends :
    (fuel : ℕ) (r : Reader) (s : RunnerSettings) (start : ℕ) (reads : ℕ → Read) (k : ℕ)
    (p : Progress)
    → HasLines reads
    → s.max_run_output_bytes < fuel + p.output_bytes
    → p.output_bytes ≤ s.max_run_output_bytes
    → is_reading (read_loop fuel r s start reads k p).end ≡ false
unfolding read_loop
read_loop_ends zero r s start reads k p lines enough within = absurd (omega arith)
read_loop_ends (suc fuel) r s start reads k p lines enough within =
    elim (Bool-cases (is_reading (round r s start (reads k) p).end)) [
      | inl on ↦
          let (more, capped) = round-Grows r s start (reads k) p (lines k) on in
          rw on (
            read_loop_ends fuel r s start reads (suc k) (round r s start (reads k) p) lines
              (omega arith) capped)
      | inr off ↦ rw off off
    ]

result_of_ended :
    (p : Progress) (exit_code : Option ℤ) (duration : ℕ) (e : End)
    → is_reading e ≡ false
    → result_of p exit_code duration e ≢ err endless
result_of_ended p exit_code duration End.reads_on off h = cc
result_of_ended p exit_code duration End.timed_out_end off h = cc
result_of_ended p exit_code duration End.truncated_end off h = cc
result_of_ended p exit_code duration End.cancelled_end off h = cc
result_of_ended p exit_code duration (End.raised_end e) off h = cc
result_of_ended p exit_code duration End.ended off h = elim (Bool-cases (is_zero exit_code)) [
  | inl zero_code ↦ let h' = rw zero_code at h in cc
  | inr other ↦ let h' = rw other at h in cc
]

result_of_real :
    (p : Progress) (exit_code : Option ℤ) (duration : ℕ) (e : End)
    → result_of p exit_code duration e ≢ err hangs
result_of_real p exit_code duration End.reads_on h = cc
result_of_real p exit_code duration End.timed_out_end h = cc
result_of_real p exit_code duration End.truncated_end h = cc
result_of_real p exit_code duration End.cancelled_end h = cc
result_of_real p exit_code duration (End.raised_end e) h = cc
result_of_real p exit_code duration End.ended h = elim (Bool-cases (is_zero exit_code)) [
  | inl zero_code ↦ let h' = rw zero_code at h in cc
  | inr other ↦ let h' = rw other at h in cc
]

-- The read loop of a run.
abbrev pub loop : Reader → RunnerSettings → Child → ℕ → Progress
loop r s child start = read_loop (suc s.max_run_output_bytes) r s start child.reads 0 started

pub loop_ends :
    (r : Reader) (s : RunnerSettings) (child : Child) (start : ℕ)
    → HasLines child.reads
    → is_reading (loop r s child start).end ≡ false
loop_ends r s child start lines =
    read_loop_ends (suc s.max_run_output_bytes) r s start child.reads 0 started lines (omega arith)
      (omega arith)

pub run_one-spawned :
    (r : Reader) (s : RunnerSettings) (child : Child) (start stopped : ℕ)
    → child.spawns ≡ true
    → run_one r s child start stopped ≡ concluded child (stopped - start) (loop r s child start)
unfolding run_one
run_one-spawned r s child start stopped spawned = rw spawned refl

pub run_one-unspawned :
    (r : Reader) (s : RunnerSettings) (child : Child) (start stopped : ℕ)
    → child.spawns ≡ false
    → run_one r s child start stopped
      ≡ unspawned (outcome started none (stopped - start) failed_run false (some failed_to_spawn))
unfolding run_one
run_one-unspawned r s child start stopped failed = rw failed refl

-- Nothing that the runner limits has ended the loop: the output has ended, or a line has raised.
abbrev pub IsUnforced : End → Type 0
IsUnforced End.ended = Unit {0}
IsUnforced (End.raised_end e) = Unit {0}
IsUnforced _ = ⊥

IsUnforced-iff :
    (e : End)
    → is_reading e ≡ false
    → (is_forced e ≡ true → IsUnforced e → ⊥) × (is_forced e ≡ false → IsUnforced e)
IsUnforced-iff End.reads_on off = ((λ h. cc), (λ h. cc))
IsUnforced-iff End.ended off = ((λ h. cc), (λ h. tt))
IsUnforced-iff End.timed_out_end off = ((λ h u. u), (λ h. cc))
IsUnforced-iff End.truncated_end off = ((λ h u. u), (λ h. cc))
IsUnforced-iff End.cancelled_end off = ((λ h u. u), (λ h. cc))
IsUnforced-iff (End.raised_end e) off = ((λ h. cc), (λ h. tt))

-- A run that has no end waits, without force, for a child that does not exit.
abbrev pub Terminates : Child → End → Execution → Type 0
Terminates child e x =
    (x.result ≢ err endless)
    × ((x.result ≡ err hangs) ↔ (child.spawns ≡ true) × (child.exits ≡ false) × IsUnforced e)
    × (x.result ≡ err hangs → x.calls ≡ wait ∷ [])

concluded-Terminates :
    (child : Child) (duration : ℕ) (p : Progress)
    → child.spawns ≡ true
    → is_reading p.end ≡ false
    → Terminates child p.end (concluded child duration p)
unfolding finish finish_returns
concluded-Terminates child duration p spawned off =
    let real = result_of_real p child.exit_code duration p.end in
    let ended = result_of_ended p child.exit_code duration p.end off in
    let (never, always) = IsUnforced-iff p.end off in
    elim (Bool-cases (is_forced p.end)) [
      | inl forced ↦ rw forced (
        ended,
        ((λ h. absurd (real h)), (λ (_, _, u). absurd (never forced u))),
        (λ h. absurd (real h)),
      )
      | inr free ↦ elim (Bool-cases child.exits) [
        | inl exits ↦
            rw (free, exits)
              (ended, ((λ h. absurd (real h)), (λ (_, h, _). cc)), (λ h. absurd (real h)))
        | inr stays ↦
            rw (free, stays)
              ((λ h. cc), ((λ _. (spawned, refl, always free)), (λ _. refl)), (λ _. refl))
      ]
    ]

-- The read loop ends after no more lines than `max_run_output_bytes`, plus one, whatever the child
-- writes and even if the clock stands still; so a run has an outcome or raises what `run` lets through,
-- but in one case, in which its one call of the child is a wait that never returns: exactly if a child
-- that was spawned does not exit, after the end of its output or an exception in a line. A timeout, a
-- truncation or a cancellation never ends so. For lines that have a character each, and a child that
-- exits when it is killed.
pub run_one_ends :
    (r : Reader) (s : RunnerSettings) (child : Child) (start stopped : ℕ)
    → HasLines child.reads
    → Terminates child (loop r s child start).end (run_one r s child start stopped)
run_one_ends r s child start stopped lines = elim (Bool-cases child.spawns) [
  | inl spawned ↦
      subst (Terminates child (loop r s child start).end)
        (sym (run_one-spawned r s child start stopped spawned))
        (concluded-Terminates child (stopped - start) (loop r s child start) spawned
          (loop_ends r s child start lines))
  | inr failed ↦
      subst (Terminates child (loop r s child start).end)
        (sym (run_one-unspawned r s child start stopped failed))
        ((λ h. cc), ((λ h. cc), (λ (h, _, _). cc)), (λ h. cc))
]
