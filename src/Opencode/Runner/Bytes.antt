-- ===== src/Opencode/Runner/Bytes.antt =====
-- The bytes that the read loop counts are those of the lines that it reads.
use ansina.Prelude.{
  ℕ, zero, suc, ◌+◌, ◌-◌, ◌≤◌, ◌<◌, ◌≡◌, Option, none, some, List, true, ltb, leb, length, Result,
  ok, err, arith, Bool-cases, inl, inr,
}
use ansina.Opencode.Events.{EncodeError, encode}
use ansina.Opencode.Runner.{
  Reader, RunnerSettings, Read, Got, End, Progress, RunEvent, Raised, count, take_line, round,
  is_reading, parse_run_event,
}

abbrev measure : Result EncodeError (List ℕ) → ℕ
measure (err e) = 0
measure (ok bytes) = length bytes

abbrev bytes_of : Got → ℕ
bytes_of (Got.line t) = measure (encode t)
bytes_of Got.eof = 0
bytes_of Got.no_line = 0
bytes_of Got.cancellation = 0

-- The bytes of the lines that the first rounds read.
unfoldable pub bytes_read : (ℕ → Read) → ℕ → ℕ
unfolding encode
bytes_read reads zero = 0
bytes_read reads (suc k) = bytes_read reads k + bytes_of (reads k).got

abbrev pub IsMeasured : RunnerSettings → ℕ → Progress → Type 0
IsMeasured s o p = (p.output_bytes ≡ o) × (o ≤ s.max_run_output_bytes)

-- A round that reads on counts its bytes, within the limit; one that truncates has gone over it.
abbrev Measures : RunnerSettings → ℕ → ℕ → Progress → Type 0
Measures s o n q =
    (is_reading q.end ≡ true → IsMeasured s (o + n) q)
    × (q.end ≡ End.truncated_end → s.max_run_output_bytes < o + n)

count-Measures :
    (s : RunnerSettings) (o : ℕ) (e : Result Raised (Option RunEvent)) (p : Progress)
    → is_reading p.end ≡ true
    → IsMeasured s o p
    → (is_reading (count e p).end ≡ true → IsMeasured s o (count e p))
      × ((count e p).end ≡ End.truncated_end → ⊥)
count-Measures s o (err e) p on m = ((λ h. cc), (λ h. cc))
count-Measures s o (ok none) p on m = ((λ h. m), (λ h. cc))
count-Measures s o (ok (some e)) p on m = ((λ h. m), (λ h. cc))

take_line-Measures :
    (r : Reader) (s : RunnerSettings) (o : ℕ) (t : List ℕ) (p : Progress)
    (e : Result EncodeError (List ℕ))
    → is_reading p.end ≡ true
    → IsMeasured s o p
    → Measures s o (measure e) (take_line r s t p e)
take_line-Measures r s o t p (err e) on m = ((λ h. cc), (λ h. cc))
take_line-Measures r s o t p (ok bytes) on (same, within) =
    elim (Bool-cases (ltb s.max_run_output_bytes (p.output_bytes + length bytes))) [
      | inl over ↦ rw over ((λ h. cc), (λ h. ground (arith, over, same)))
      | inr fits ↦
          let (a, b) =
            count-Measures s (o + length bytes) (parse_run_event r t s.max_event_bytes p.sequence)
              (record p { output_bytes = p.output_bytes + length bytes }) on
              (omega (arith, same), ground (arith, fits, same)) in
          rw fits (a, (λ h. absurd (b h)))
    ]

pub round-Measures :
    (r : Reader) (s : RunnerSettings) (start o : ℕ) (x : Read) (p : Progress)
    → is_reading p.end ≡ true
    → IsMeasured s o p
    → Measures s o (bytes_of x.got) (round r s start x p)
unfolding round
round-Measures r s start o x p on m = elim (Bool-cases (leb s.run_timeout (x.now - start))) [
  | inl late ↦ rw late ((λ h. cc), (λ h. cc))
  | inr early ↦ rw early (go x.got)
]
  where
    go :
        (g : Got)
        → Measures s o (bytes_of g) (elim g as (λ _. Progress) [
          | Got.line t ↦ take_line r s t p (encode t)
          | Got.eof ↦ record p { end = End.ended }
          | Got.no_line ↦ record p { end = End.timed_out_end }
          | Got.cancellation ↦ record p { end = End.cancelled_end }
        ])
    go (Got.line t) = take_line-Measures r s o t p (encode t) on m
    go Got.eof = ((λ h. cc), (λ h. cc))
    go Got.no_line = ((λ h. cc), (λ h. cc))
    go Got.cancellation = ((λ h. cc), (λ h. cc))
