-- ===== src/Heart/Faults/Unambiguous.antt =====
-- What a schedule promises once `load_fault_schedule` has returned it.
use mathlib.Core.Path.{subst}
use ansina.Prelude.{
  String, ℕ, zero, suc, ◌≤◌, ◌≡◌, ◌↔◌, ◌⊎◌, refl, Option, none, some, List, [], ◌∷◌, Bool, true,
  false, ◌||◌, leb, if◌then◌else◌, keep, arith, length, Bool-cases, inl, inr, All, Result, ok, err,
  ℤ, pos, negsuc,
}
use ansina.Heart.Decision.{TickDecision}
use ansina.Heart.Faults.{
  Float, finite, nan, infinity, minus_infinity, is_truthy, FaultKind, FaultWindow, Entry, Raw,
  RawWindow, FaultError, and_then, at_least_one, sleep_of, guarded, optional, parse_object,
  parse_window, parse_all, duplicate_ids, same_kind_overlap, insert_window, sort_windows, validated,
  load_fault_schedule, active,
}
use ansina.Heart.Faults.Overlap.{count, hits, Lasts, count-sort_windows, same_kind_overlap_iff}

and_then-ok {ℓ κ} :
    {A : Type ℓ} {B : Type κ} (r : Result FaultError A) (f : A → Result FaultError B) (b : B)
    → and_then r f ≡ ok b
    → (a : A) × (r ≡ ok a) × (f a ≡ ok b)
unfolding and_then
and_then-ok (ok a) f b h = (a, refl, h)
and_then-ok (err e) f b h = cc

-- How long a window may sleep: an overrun for a positive time, or for no number of seconds at all, as
-- nothing refuses infinity and NaN; a window of another kind not at all.
abbrev pub Sleeps : FaultKind → Float → Type 0
Sleeps FaultKind.tick_overrun (finite z) = (n : ℕ) × (z ≡ pos (suc n))
Sleeps FaultKind.tick_overrun nan = Unit {0}
Sleeps FaultKind.tick_overrun infinity = Unit {0}
Sleeps FaultKind.tick_overrun minus_infinity = ⊥
Sleeps FaultKind.readiness_check f = f ≡ finite (pos 0)
Sleeps FaultKind.tick_failure f = f ≡ finite (pos 0)

-- A window covers a tick, counted from 1, and sleeps as its kind may.
pub record IsWellFormed (w : FaultWindow) : Type 0 where
  pub starts : 1 ≤ w.at_tick
  pub lasts : 1 ≤ w.duration_ticks
  pub sleeps : Sleeps w.fault w.sleep_seconds

at_least_one-le : (z : ℤ) (n : ℕ) → at_least_one z ≡ ok n → 1 ≤ n
at_least_one-le (pos zero) n h = cc
at_least_one-le (pos (suc m)) n h = let same : n ≡ suc m = ground arith in omega arith
at_least_one-le (negsuc m) n h = cc

idle :
    (f g : Float)
    → ◌≡◌ {A = Result FaultError Float}
        (if is_truthy f then err FaultError.schedule_error else ok f)
        (ok g)
    → g ≡ finite (pos 0)
idle (finite (pos zero)) g h = cc
idle (finite (pos (suc n))) g h = cc
idle (finite (negsuc n)) g h = cc
idle nan g h = cc
idle infinity g h = cc
idle minus_infinity g h = cc

sleep_of-Sleeps : (k : FaultKind) (f g : Float) → sleep_of k f ≡ ok g → Sleeps k g
sleep_of-Sleeps FaultKind.tick_overrun (finite (pos zero)) g h = cc
sleep_of-Sleeps FaultKind.tick_overrun (finite (pos (suc n))) g h =
    let same : finite (pos (suc n)) ≡ g = cc in subst (Sleeps FaultKind.tick_overrun) same (n, refl)
sleep_of-Sleeps FaultKind.tick_overrun (finite (negsuc n)) g h = cc
sleep_of-Sleeps FaultKind.tick_overrun nan g h =
    let same : nan ≡ g = cc in subst (Sleeps FaultKind.tick_overrun) same tt
sleep_of-Sleeps FaultKind.tick_overrun infinity g h =
    let same : infinity ≡ g = cc in subst (Sleeps FaultKind.tick_overrun) same tt
sleep_of-Sleeps FaultKind.tick_overrun minus_infinity g h = cc
sleep_of-Sleeps FaultKind.readiness_check f g h = idle f g h
sleep_of-Sleeps FaultKind.tick_failure f g h = idle f g h

IsWellFormed-ok :
    (id : String) (fault : FaultKind) (first ticks : ℕ) (decision : TickDecision) (note : String)
    (seconds : Float) (w : FaultWindow)
    → 1 ≤ first
    → 1 ≤ ticks
    → Sleeps fault seconds
    → ◌≡◌ {A = Result FaultError FaultWindow}
        (ok (record {
          id = id;
          fault = fault;
          at_tick = first;
          duration_ticks = ticks;
          expected_decision = decision;
          note = note;
          sleep_seconds = seconds;
        }))
        (ok w)
    → IsWellFormed w
IsWellFormed-ok id fault first ticks decision note seconds w a b c h =
    let same_at : first ≡ w.at_tick = ground arith in
    let same_ticks : ticks ≡ w.duration_ticks = ground arith in
    let same_fault : fault ≡ w.fault = ground arith in
    let same_sleep : seconds ≡ w.sleep_seconds = ground arith in
    record {
      starts = rw same_at at a;
      lasts = rw same_ticks at b;
      sleeps = rw (← same_sleep, ← same_fault) c;
    }

parse_object-IsWellFormed :
    (r : RawWindow) (w : FaultWindow) → parse_object r ≡ ok w → IsWellFormed w
unfolding parse_object
parse_object-IsWellFormed r w h =
    let (id, _, h1) = and_then-ok (guarded r.id) _ w h in
    let (fault, _, h2) = and_then-ok (guarded r.fault) _ w h1 in
    let (at_tick, _, h3) = and_then-ok (guarded r.at_tick) _ w h2 in
    let (duration, _, h4) = and_then-ok (guarded r.duration_ticks) _ w h3 in
    let (decision, _, h5) = and_then-ok (guarded r.expected_decision) _ w h4 in
    let (sleep, _, h6) = and_then-ok (optional r.sleep_seconds) _ w h5 in
    let (first, starts, h7) = and_then-ok (at_least_one at_tick) _ w h6 in
    let (ticks, lasts, h8) = and_then-ok (at_least_one duration) _ w h7 in
    let (seconds, sleeps, h9) = and_then-ok (sleep_of fault sleep) _ w h8 in
    IsWellFormed-ok id fault first ticks decision r.note seconds w
      (at_least_one-le at_tick first starts) (at_least_one-le duration ticks lasts)
      (sleep_of-Sleeps fault sleep seconds sleeps) h9

pub parse_window-IsWellFormed :
    (e : Entry) (w : FaultWindow) → parse_window e ≡ ok w → IsWellFormed w
unfolding parse_window
parse_window-IsWellFormed Entry.not_object w h = cc
parse_window-IsWellFormed (Entry.object r) w h = parse_object-IsWellFormed r w h

pub parse_all-IsWellFormed :
    (es : List Entry) (ws : List FaultWindow) → parse_all es ≡ ok ws → All IsWellFormed ws
unfolding parse_all
parse_all-IsWellFormed [] [] h = tt
parse_all-IsWellFormed [] (w ∷ ws) h = cc
parse_all-IsWellFormed (e ∷ es) ws h =
    let (v, here, h1) = and_then-ok (parse_window e) _ ws h in
    let (vs, there, h2) = and_then-ok (parse_all es) _ ws h1 in
    let same : v ∷ vs ≡ ws = ground arith in
    rw (← same) (parse_window-IsWellFormed e v here, parse_all-IsWellFormed es vs there)

All-Lasts : (ws : List FaultWindow) → All IsWellFormed ws → Lasts ws
All-Lasts [] all = tt
All-Lasts (w ∷ ws) (h, all) = (h.lasts, All-Lasts ws all)

insert_window-IsWellFormed :
    (x : FaultWindow) (ys : List FaultWindow)
    → IsWellFormed x
    → All IsWellFormed ys
    → All IsWellFormed (insert_window x ys)
unfolding insert_window
insert_window-IsWellFormed x [] h l = (h, tt)
insert_window-IsWellFormed x (y ∷ ys) h (g, l) = elim (Bool-cases (leb y.at_tick x.at_tick)) [
  | inl behind ↦ rw behind (g, insert_window-IsWellFormed x ys h l)
  | inr before ↦ rw before (h, (g, l))
]

sort_windows-IsWellFormed :
    (sorted xs : List FaultWindow)
    → All IsWellFormed sorted
    → All IsWellFormed xs
    → All IsWellFormed (sort_windows sorted xs)
unfolding sort_windows
sort_windows-IsWellFormed sorted [] k l = k
sort_windows-IsWellFormed sorted (x ∷ xs) k (h, l) =
    sort_windows-IsWellFormed (insert_window x sorted) xs (insert_window-IsWellFormed x sorted h k)
      l

-- The one window that a look-up may give.
abbrev pub listed : Option FaultWindow → List FaultWindow
listed none = []
listed (some w) = w ∷ []

length-nil : (ws : List FaultWindow) → length ws ≡ 0 → ws ≡ []
length-nil [] h = refl
length-nil (w ∷ ws) h = absurd (omega arith)

count-nil : (p : FaultWindow → Bool) → count p [] ≡ 0
unfolding keep
count-nil p = refl

count-tail :
    (k : FaultKind) (t : ℕ) (w : FaultWindow) (ws : List FaultWindow)
    → hits k t w ≡ true
    → count (hits k t) (w ∷ ws) ≤ 1
    → count (hits k t) ws ≡ 0
unfolding keep
count-tail k t w ws hit h = let more : suc (count (hits k t) ws) ≤ 1 = rw hit at h in omega arith

active-listed :
    (k : FaultKind) (t : ℕ) (ws : List FaultWindow)
    → count (hits k t) ws ≤ 1
    → keep (hits k t) ws ≡ listed (active k t ws)
unfolding keep active
active-listed k t [] h = refl
active-listed k t (w ∷ ws) h = elim (Bool-cases (hits k t w)) [
  | inl hit ↦
      let none_left : keep (hits k t) ws ≡ [] =
        length-nil (keep (hits k t) ws) (count-tail k t w ws hit h) in
      rw (hit, none_left) refl
  | inr miss ↦
      let tail : count (hits k t) ws ≤ 1 = rw miss at h in rw miss (active-listed k t ws tail)
]

-- What the roles of the injector rely on.
pub record IsSchedule (ws : List FaultWindow) : Type 0 where
  pub well_formed : All IsWellFormed ws
  pub unambiguous : (k : FaultKind) (t : ℕ) → keep (hits k t) ws ≡ listed (active k t ws)

validated-IsSchedule :
    (ws loaded : List FaultWindow)
    → All IsWellFormed ws
    → validated ws ≡ ok loaded
    → IsSchedule loaded
validated-IsSchedule ws loaded all h =
    elim (Bool-cases (duplicate_ids [] ws || same_kind_overlap ws)) [
      | inl refused ↦ let bad : err FaultError.schedule_error ≡ ok loaded = rw refused at h in cc
      | inr passed ↦
          let kept : ok (sort_windows [] ws) ≡ ok loaded = rw passed at h in
          let same : sort_windows [] ws ≡ loaded = ground arith in
          let apart : same_kind_overlap ws ≡ false = ground arith in
          let one = (same_kind_overlap_iff ws (All-Lasts ws all)).0 apart in
          rw (← same) (record {
            well_formed = sort_windows-IsWellFormed [] ws tt all;
            unambiguous = λ k t.
                active-listed k t _ (
                  omega
                    (arith, one k t, count-sort_windows (hits k t) [] ws, count-nil (hits k t)));
          })
    ]

-- When a schedule loads, every window starts at tick 1 or later and lasts a tick at least; its
-- `sleep_seconds` is positive, infinite or NaN if it forces an overrun, and 0 otherwise; and at every tick the windows of one kind that cover it are just
-- the one that `_active` finds, or none: no window is shadowed by another.
pub load_fault_schedule-IsSchedule :
    (raw : Raw) (ws : List FaultWindow) → load_fault_schedule raw ≡ ok ws → IsSchedule ws
unfolding load_fault_schedule
load_fault_schedule-IsSchedule Raw.not_array ws h = cc
load_fault_schedule-IsSchedule (Raw.array es) ws h =
    let (parsed, here, there) = and_then-ok (parse_all es) validated ws h in
    validated-IsSchedule parsed ws (parse_all-IsWellFormed es parsed here) there

-- Entries that parse make a schedule that loads exactly if no identifier comes twice and, at every
-- tick, at most one window of each kind covers it; otherwise it is refused as a schedule error.
pub load_fault_schedule-accepts :
    (es : List Entry) (ws : List FaultWindow)
    → parse_all es ≡ ok ws
    → ((load_fault_schedule (Raw.array es) ≡ ok (sort_windows [] ws))
        ↔ (duplicate_ids [] ws ≡ false) × ((k : FaultKind) (t : ℕ) → count (hits k t) ws ≤ 1))
      × ((load_fault_schedule (Raw.array es) ≡ ok (sort_windows [] ws))
          ⊎ (load_fault_schedule (Raw.array es) ≡ err FaultError.schedule_error))
unfolding load_fault_schedule and_then
load_fault_schedule-accepts es ws parsed =
    let iff = same_kind_overlap_iff ws (All-Lasts ws (parse_all-IsWellFormed es ws parsed)) in
    elim (Bool-cases (duplicate_ids [] ws || same_kind_overlap ws)) [
      | inl refused ↦
          rw (parsed, refused)
            (((λ h. cc), (λ (d, u). let apart = iff.1 u in ground arith)), inr refl)
      | inr passed ↦
          rw (parsed, passed)
            (
              (
                (λ h.
                    let apart : same_kind_overlap ws ≡ false = ground arith in
                    (ground arith, iff.0 apart)),
                (λ _. refl),
              ),
              inl refl,
            )
    ]
