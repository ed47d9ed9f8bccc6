-- ===== src/Heart/Tick/Schedule.antt =====
-- `_next_tick_number`: which slot `TickLoop.run` goes on after.
use native.Mathlib.Decide.{dec_le}
use ansina.Prelude.{
  ℕ, zero, suc, ◌+◌, ◌*◌, ◌≤◌, ◌<◌, ◌≡◌, Option, none, some, leb, arith, if◌then◌else◌, Bool-cases,
  inl, inr,
}

-- The loop of `_next_tick_number`; `none` means that the fuel ran out.
unfoldable next_from : ℕ → ℕ → ℕ → ℕ → ℕ → Option ℕ
next_from zero start now interval n = none
next_from (suc fuel) start now interval n =
    let rest = next_from fuel start now interval (n + 1) in
    if leb (start + (n + 1) * interval) now then rest else some n

-- `_next_tick_number`. Each round of its loop needs another `interval` of the time up to `now`.
unfoldable pub next_tick_number : ℕ → ℕ → ℕ → ℕ → Option ℕ
unfolding next_from
next_tick_number n start now interval = next_from (now + 1) start now interval n

-- The slot that the loop is to catch up to.
pub record NextSlot (n start now interval r : ℕ) : Type 0 where
  pub forward : n ≤ r
  pub future : now < start + (r + 1) * interval
  pub elapsed : (m : ℕ) → n ≤ m → m < r → start + (m + 1) * interval ≤ now

-- A slot whose deadline has passed has a number up to `now`.
late_slot : (start now interval n : ℕ) → 0 < interval → start + n * interval ≤ now → n ≤ now
late_slot start now interval n pos h = grind arith

at_start : (n m : ℕ) → n ≤ m → ¬ (n + 1 ≤ m) → m ≡ n
at_start n m p q = omega arith

skip_late :
    (start now interval n r : ℕ)
    → start + (n + 1) * interval ≤ now
    → NextSlot (n + 1) start now interval r
    → NextSlot n start now interval r
skip_late start now interval n r passed v = record {
  forward = omega (arith, v.forward);
  future = v.future;
  elapsed = λ m p q. elim (dec_le (n + 1) m) [
    | yes above ↦ v.elapsed m above q
    | no below ↦ rw (at_start n m p below) passed
  ];
}

stop_due :
    (start now interval n : ℕ) → now < start + (n + 1) * interval → NextSlot n start now interval n
stop_due start now interval n h = record {
  forward = omega arith;
  future = h;
  elapsed = λ m p q. absurd (omega arith);
}

next_from-NextSlot :
    (fuel start now interval n : ℕ)
    → 0 < interval
    → 0 < fuel
    → now < fuel + n
    → (r : ℕ) × (next_from fuel start now interval n ≡ some r) × NextSlot n start now interval r
unfolding next_from
next_from-NextSlot zero start now interval n pos some_fuel enough = absurd (omega arith)
next_from-NextSlot (suc fuel) start now interval n pos some_fuel enough =
    elim (Bool-cases (leb (start + (n + 1) * interval) now)) [
      | inl late ↦
          let passed : start + (n + 1) * interval ≤ now = ground arith in
          let small = late_slot start now interval (n + 1) pos passed in
          let (r, e, v) =
            next_from-NextSlot fuel start now interval (n + 1) pos (omega arith) (omega arith) in
          (r, rw late e, skip_late start now interval n r passed v)
      | inr due ↦ (n, rw due, stop_due start now interval n (ground arith))
    ]

-- Slots are never run late in a burst: for a positive interval and from slot `n`,
-- `_next_tick_number` always returns, and its result is the last slot at or above `n` whose
-- successor's deadline is still to come; every slot from `n` up to it has a successor whose
-- deadline has passed.
pub next_tick_number-NextSlot :
    (n start now interval : ℕ)
    → 0 < interval
    → (r : ℕ) × (next_tick_number n start now interval ≡ some r) × NextSlot n start now interval r
unfolding next_tick_number
next_tick_number-NextSlot n start now interval pos =
    next_from-NextSlot (now + 1) start now interval n pos (omega arith) (omega arith)
