-- ===== src/Opencode/Runner/Outcome.antt =====
-- What the read loop counts, what it passes on, and why it ends.
use ansina.Prelude.{
  ℕ, zero, suc, ◌+◌, ◌<◌, ◌-◌, ◌≡◌, refl, Option, none, some, List, [], ◌∷◌, ◌++◌, true, false, ltb,
  leb, ◌==◌, length, length-append, Result, ok, err, arith, Bool-cases, inl, inr, All, All-snoc,
  sym, ◌⊎◌, ◌≤◌,
}
use mathlib.Core.Path.{subst}
use ansina.Heart.Decision.{strip}
use ansina.Json.{Loaded, object, not_object, decode_error, raised}
use ansina.Logging.Redaction.{redact}
use ansina.Opencode.Events.{EncodeError, encode, truncate_utf8}
use ansina.Opencode.Runner.Bytes.{bytes_read, IsMeasured, round-Measures}
use ansina.Opencode.Runner.{
  Reader, RunnerSettings, Read, Got, End, Progress, RunEvent, Raised, count, take_line, round,
  read_loop, started, captured, event_with, event_from, raw_type_of, parse_run_event, is_reading,
}

-- The texts of an event have been through the redaction.
abbrev pub IsRedacted : Reader → RunEvent → Type 0
IsRedacted r e =
    ((t : List ℕ) × (e.payload ≡ redact r.patterns r.secrets t))
    × ((t : List ℕ) × (e.raw_type ≡ redact r.patterns r.secrets t))

-- The events are numbered one by one, from a number on.
abbrev pub Numbered : ℕ → List RunEvent → Type 0
Numbered n [] = Unit {0}
Numbered n (e ∷ es) = (e.sequence ≡ n) × Numbered (suc n) es

Numbered-append :
    (n : ℕ) (es : List RunEvent) (e : RunEvent)
    → Numbered n es
    → e.sequence ≡ n + length es
    → Numbered n (es ++ e ∷ [])
Numbered-append n [] e all last = (omega (arith, last), tt)
Numbered-append n (x ∷ es) e (first, all) last =
    (first, Numbered-append (suc n) es e all (omega (arith, last)))

-- What a line becomes, if it becomes an event.
abbrev IsNext : Reader → ℕ → Result Raised (Option RunEvent) → Type 0
IsNext r n (err e) = Unit {0}
IsNext r n (ok none) = Unit {0}
IsNext r n (ok (some e)) = (e.sequence ≡ n) × IsRedacted r e

abbrev IsCaptured : Reader → Result Raised (List ℕ) → Type 0
IsCaptured r (err e) = Unit {0}
IsCaptured r (ok t) = (kept : List ℕ) × (t ≡ redact r.patterns r.secrets kept)

captured-IsCaptured : (r : Reader) (n : ℕ) (t : List ℕ) → IsCaptured r (captured r n t)
unfolding captured
captured-IsCaptured r n t = go (truncate_utf8 t n) refl
  where
    go : (o : Result EncodeError (List ℕ)) → truncate_utf8 t n ≡ o → IsCaptured r (captured r n t)
    go (err e) same = rw (IsCaptured, same) tt
    go (ok kept) same = rw (IsCaptured, same) (kept, refl)

event_with-IsNext :
    (r : Reader) (n : ℕ) (payload raw : Result Raised (List ℕ))
    → IsCaptured r payload
    → IsCaptured r raw
    → IsNext r n (event_with n payload raw)
event_with-IsNext r n (err e) raw p q = tt
event_with-IsNext r n (ok payload) (err e) p q = tt
event_with-IsNext r n (ok payload) (ok raw) p q = (refl, (p, q))

event_from-IsNext :
    (r : Reader) (m n : ℕ) (t : List ℕ) (o : Loaded) → IsNext r n (event_from r m n t o)
event_from-IsNext r m n t (object fields) =
    event_with-IsNext r n (captured r m t) (captured r m (raw_type_of fields))
      (captured-IsCaptured r m t) (captured-IsCaptured r m (raw_type_of fields))
event_from-IsNext r m n t not_object = tt
event_from-IsNext r m n t decode_error = tt
event_from-IsNext r m n t raised = tt

parse_run_event-IsNext : (r : Reader) (t : List ℕ) (m n : ℕ) → IsNext r n (parse_run_event r t m n)
unfolding parse_run_event
parse_run_event-IsNext r t m n = elim (Bool-cases (length (strip r.is_space t) == 0)) [
  | inl blank ↦ rw blank tt
  | inr more ↦ rw more (event_from-IsNext r m n (strip r.is_space t) (r.loads (strip r.is_space t)))
]

-- The counters after `k` rounds.
abbrev pub IsCounted : Reader → ℕ → Progress → Type 0
IsCounted r k p =
    (p.events_emitted ≡ length p.events)
    × (p.sequence ≡ length p.events)
    × (p.events_emitted + p.events_skipped ≡ k)
    × Numbered 0 p.events
    × All (IsRedacted r) p.events

-- Why the loop ends, by what its last round reads.
abbrev pub Cause : RunnerSettings → ℕ → End → Read → Type 0
Cause s start End.reads_on x = ⊥
Cause s start End.ended x = x.got ≡ Got.eof
Cause s start End.timed_out_end x = (s.run_timeout ≤ x.now - start) ⊎ (x.got ≡ Got.no_line)
Cause s start End.truncated_end x = (t : List ℕ) × (x.got ≡ Got.line t)
Cause s start End.cancelled_end x = x.got ≡ Got.cancellation
Cause s start (End.raised_end e) x = (t : List ℕ) × (x.got ≡ Got.line t)

-- A round counts its line, or ends the loop and leaves the counters.
abbrev Steps : Reader → RunnerSettings → ℕ → ℕ → Read → Progress → Type 0
Steps r s start k x q =
    ((is_reading q.end ≡ true) × IsCounted r (suc k) q)
    ⊎ ((is_reading q.end ≡ false) × IsCounted r k q × Cause s start q.end x)

count-Steps :
    (r : Reader) (s : RunnerSettings) (start k : ℕ) (x : Read) (t : List ℕ)
    (o : Result Raised (Option RunEvent)) (p : Progress)
    → x.got ≡ Got.line t
    → is_reading p.end ≡ true
    → IsNext r p.sequence o
    → IsCounted r k p
    → Steps r s start k x (count o p)
count-Steps r s start k x t (err e) p got on next c = inr (refl, c, (t, got))
count-Steps r s start k x t (ok none) p got on next (e, n, total, numbered, all) =
    inl (on, (e, n, omega (arith, total), numbered, all))
count-Steps r s start k x t (ok (some v)) p got on (number, redacted) (e, n, total, numbered, all) =
    let more : length (p.events ++ v ∷ []) ≡ suc (length p.events) =
      omega (arith, length-append p.events (v ∷ [])) in
    inl (
      on,
      (
        omega (arith, e, more),
        omega (arith, n, more),
        omega (arith, total),
        Numbered-append 0 p.events v numbered (omega (arith, number, n)),
        All-snoc (IsRedacted r) v p.events all redacted,
      ),
    )

take_line-Steps :
    (r : Reader) (s : RunnerSettings) (start k : ℕ) (x : Read) (t : List ℕ) (p : Progress)
    (o : Result EncodeError (List ℕ))
    → x.got ≡ Got.line t
    → is_reading p.end ≡ true
    → IsCounted r k p
    → Steps r s start k x (take_line r s t p o)
take_line-Steps r s start k x t p (err e) got on c = inr (refl, c, (t, got))
take_line-Steps r s start k x t p (ok bytes) got on c =
    elim (Bool-cases (ltb s.max_run_output_bytes (p.output_bytes + length bytes))) [
      | inl over ↦ rw over (inr (refl, c, (t, got)))
      | inr within ↦ rw within (
          count-Steps r s start k x t (parse_run_event r t s.max_event_bytes p.sequence)
            (record p { output_bytes = p.output_bytes + length bytes }) got on
            (parse_run_event-IsNext r t s.max_event_bytes p.sequence) c)
    ]

round-Steps :
    (r : Reader) (s : RunnerSettings) (start k : ℕ) (x : Read) (p : Progress)
    → is_reading p.end ≡ true
    → IsCounted r k p
    → Steps r s start k x (round r s start x p)
unfolding round
round-Steps r s start k x p on c = elim (Bool-cases (leb s.run_timeout (x.now - start))) [
  | inl late ↦ rw late (inr (refl, c, inl (ground (arith, late))))
  | inr early ↦ rw early (go x.got refl)
]
  where
    go :
        (g : Got)
        → x.got ≡ g
        → Steps r s start k x (elim g as (λ _. Progress) [
          | Got.line t ↦ take_line r s t p (encode t)
          | Got.eof ↦ record p { end = End.ended }
          | Got.no_line ↦ record p { end = End.timed_out_end }
          | Got.cancellation ↦ record p { end = End.cancelled_end }
        ])
    go (Got.line t) got = take_line-Steps r s start k x t p (encode t) got on c
    go Got.eof got = inr (refl, c, got)
    go Got.no_line got = inr (refl, c, inr got)
    go Got.cancellation got = inr (refl, c, got)

-- How the loop's variables stand when it has ended, in the round that ends it.
abbrev pub IsOver : Reader → RunnerSettings → ℕ → (ℕ → Read) → Progress → Type 0
IsOver r s start reads q =
    let n = q.events_emitted + q.events_skipped in
    IsCounted r n q
    × Cause s start q.end (reads n)
    × (bytes_read reads n ≤ s.max_run_output_bytes)
    × (q.end ≡ End.truncated_end → s.max_run_output_bytes < bytes_read reads (suc n))

read_loop-IsOver :
    (fuel : ℕ) (r : Reader) (s : RunnerSettings) (start : ℕ) (reads : ℕ → Read) (k : ℕ)
    (p : Progress)
    → is_reading p.end ≡ true
    → IsCounted r k p
    → IsMeasured s (bytes_read reads k) p
    → is_reading (read_loop fuel r s start reads k p).end ≡ false
    → IsOver r s start reads (read_loop fuel r s start reads k p)
unfolding read_loop bytes_read
read_loop-IsOver zero r s start reads k p on c m off = cc
read_loop-IsOver (suc fuel) r s start reads k p on c m off =
    let (measured, limit) = round-Measures r s start (bytes_read reads k) (reads k) p on m in
    elim (round-Steps r s start k (reads k) p on c) [
      | inl (still, next) ↦ rw still (
          read_loop-IsOver fuel r s start reads (suc k) (round r s start (reads k) p) still next
            (measured still) (rw still at off))
      | inr (over, (e, n, total, numbered, all), cause) ↦ rw over (
          subst
            (λ j.
              IsCounted r j (round r s start (reads k) p)
              × Cause s start (round r s start (reads k) p).end (reads j)
              × (bytes_read reads j ≤ s.max_run_output_bytes)
              × ((round r s start (reads k) p).end ≡ End.truncated_end
                  → s.max_run_output_bytes < bytes_read reads (suc j)))
            (sym total) ((e, n, total, numbered, all), cause, m.1, limit))
    ]

pub started-IsOver :
    (fuel : ℕ) (r : Reader) (s : RunnerSettings) (start : ℕ) (reads : ℕ → Read)
    → is_reading (read_loop fuel r s start reads 0 started).end ≡ false
    → IsOver r s start reads (read_loop fuel r s start reads 0 started)
unfolding bytes_read
started-IsOver fuel r s start reads =
    read_loop-IsOver fuel r s start reads 0 started refl (refl, refl, refl, tt, tt)
      (refl, omega arith)
