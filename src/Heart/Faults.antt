-- ===== src/Heart/Faults.antt =====
-- src/ansina/heart/tick/fault_injection.py: a schedule of forced faults, its validation, and the
-- roles of `FaultInjector`. Reading the file and `json.loads` are left out: a schedule is what they
-- return, with Python's conversions of the fields done.
pub mod Unambiguous
pub mod Overlap
use ansina.Prelude.{
  ℕ, zero, suc, ◌+◌, ◌-◌, Option, none, some, List, [], ◌∷◌, Bool, true, false, not, ◌&&◌, ◌||◌,
  leb, if◌then◌else◌, String, str_eq, keep, Result, ok, err, ℤ, pos, negsuc,
}
use ansina.Heart.Decision.{TickDecision}

pub data FaultKind : Type 0 where
  readiness_check tick_failure tick_overrun : FaultKind

abbrev pub same_kind : FaultKind → FaultKind → Bool
same_kind FaultKind.readiness_check FaultKind.readiness_check = true
same_kind FaultKind.tick_failure FaultKind.tick_failure = true
same_kind FaultKind.tick_overrun FaultKind.tick_overrun = true
same_kind _ _ = false

-- A Python float: a whole number of a unit that is small enough, or one of the values that `json.loads`
-- and `float` give beside the finite ones.
pub data Float : Type 0 where
  finite : ℤ → Float
  nan infinity minus_infinity : Float

pub record FaultWindow : Type 0 where
  pub id : String
  pub fault : FaultKind
  pub at_tick : ℕ
  pub duration_ticks : ℕ
  pub expected_decision : TickDecision
  pub note : String
  pub sleep_seconds : Float

abbrev pub end_tick : FaultWindow → ℕ
end_tick w = w.at_tick + w.duration_ticks - 1

abbrev pub covers : FaultWindow → ℕ → Bool
covers w tick_number = leb w.at_tick tick_number && leb tick_number (end_tick w)

-- What reading one field of an object gives: no such key, a `ValueError`, a `TypeError` or an
-- `OverflowError` of the conversion, or the converted value.
pub data Field {ℓ} (A : Type ℓ) : Type ℓ where
  missing bad_value bad_type overflow : Field A
  read : A → Field A

-- What `load_fault_schedule` raises; the other exceptions come out of it as they are.
pub data FaultError : Type 0 where
  schedule_error type_error value_error overflow_error : FaultError

pub record RawWindow : Type 0 where
  pub id : Field String
  pub fault : Field FaultKind
  pub at_tick : Field ℤ
  pub duration_ticks : Field ℤ
  pub expected_decision : Field TickDecision
  pub note : String
  pub sleep_seconds : Field Float

pub data Entry : Type 0 where
  not_object : Entry
  object : RawWindow → Entry

pub data Raw : Type 0 where
  not_array : Raw
  array : List Entry → Raw

unfoldable pub and_then {ℓ κ} :
    {A : Type ℓ} {B : Type κ}
    → Result FaultError A
    → (A → Result FaultError B)
    → Result FaultError B
and_then (ok a) f = f a
and_then (err e) f = err e

-- Inside the `try` of `_parse_window`.
abbrev pub guarded {ℓ} : {A : Type ℓ} → Field A → Result FaultError A
guarded missing = err schedule_error
guarded bad_value = err schedule_error
guarded bad_type = err type_error
guarded overflow = err overflow_error
guarded (read a) = ok a

-- `float(entry.get("sleep_seconds", 0.0))`, behind the `try`.
abbrev pub optional : Field Float → Result FaultError Float
optional missing = ok (finite (pos 0))
optional bad_value = err value_error
optional bad_type = err type_error
optional overflow = err overflow_error
optional (read a) = ok a

-- `n >= 1` for an integer, with the natural number that it then is.
abbrev pub at_least_one : ℤ → Result FaultError ℕ
at_least_one (pos zero) = err schedule_error
at_least_one (pos (suc n)) = ok (suc n)
at_least_one (negsuc n) = err schedule_error

-- `f <= 0`; no comparison with NaN holds.
abbrev pub at_most_zero : Float → Bool
at_most_zero (finite (pos zero)) = true
at_most_zero (finite (pos (suc n))) = false
at_most_zero (finite (negsuc n)) = true
at_most_zero nan = false
at_most_zero infinity = false
at_most_zero minus_infinity = true

-- `bool(f)`
abbrev pub is_truthy : Float → Bool
is_truthy (finite (pos zero)) = false
is_truthy _ = true

-- The two guards on `sleep_seconds`.
abbrev pub sleep_of : FaultKind → Float → Result FaultError Float
sleep_of FaultKind.tick_overrun s = if at_most_zero s then err schedule_error else ok s
sleep_of FaultKind.readiness_check s = if is_truthy s then err schedule_error else ok s
sleep_of FaultKind.tick_failure s = if is_truthy s then err schedule_error else ok s

unfoldable pub parse_object : RawWindow → Result FaultError FaultWindow
unfolding and_then
parse_object r = and_then (guarded r.id) (λ id. and_then (guarded r.fault) (λ fault.
    and_then (guarded r.at_tick) (λ at_tick. and_then (guarded r.duration_ticks) (λ duration.
      and_then (guarded r.expected_decision) (λ decision.
        and_then (optional r.sleep_seconds) (λ sleep. and_then (at_least_one at_tick) (λ first.
          and_then (at_least_one duration) (λ ticks. and_then (sleep_of fault sleep) (λ seconds.
            ok (record {
              id = id;
              fault = fault;
              at_tick = first;
              duration_ticks = ticks;
              expected_decision = decision;
              note = r.note;
              sleep_seconds = seconds;
            }))))))))))

unfoldable pub parse_window : Entry → Result FaultError FaultWindow
unfolding parse_object
parse_window not_object = err schedule_error
parse_window (object r) = parse_object r

unfoldable pub parse_all : List Entry → Result FaultError (List FaultWindow)
unfolding parse_window and_then
parse_all [] = ok []
parse_all (e ∷ es) = and_then (parse_window e) (λ w. and_then (parse_all es) (λ ws. ok (w ∷ ws)))

unfoldable pub seen_id : String → List String → Bool
seen_id i [] = false
seen_id i (j ∷ js) = str_eq i j || seen_id i js

-- The loop of `_validate_no_duplicate_ids`.
unfoldable pub duplicate_ids : List String → List FaultWindow → Bool
unfolding seen_id
duplicate_ids seen [] = false
duplicate_ids seen (w ∷ ws) = seen_id w.id seen || duplicate_ids (w.id ∷ seen) ws

-- `sorted(…, key=lambda window: window.at_tick)`, which is stable.
unfoldable pub insert_window : FaultWindow → List FaultWindow → List FaultWindow
insert_window x [] = x ∷ []
insert_window x (y ∷ ys) =
    let rest = insert_window x ys in if leb y.at_tick x.at_tick then y ∷ rest else x ∷ y ∷ ys

unfoldable pub sort_windows : List FaultWindow → List FaultWindow → List FaultWindow
unfolding insert_window
sort_windows sorted [] = sorted
sort_windows sorted (x ∷ xs) = sort_windows (insert_window x sorted) xs

-- The inner loop of `_validate_no_same_kind_overlap`, over `pairwise(ordered)`.
unfoldable pub overlap : List FaultWindow → Bool
overlap [] = false
overlap (x ∷ []) = false
overlap (x ∷ y ∷ ys) = leb y.at_tick (end_tick x) || overlap (y ∷ ys)

abbrev pub of_kind : FaultKind → List FaultWindow → List FaultWindow
of_kind k = keep (λ w. same_kind w.fault k)

-- The groups are made for every kind here; a kind that no window has makes an empty one.
unfoldable pub same_kind_overlap : List FaultWindow → Bool
unfolding overlap sort_windows keep
same_kind_overlap ws =
    overlap (sort_windows [] (of_kind FaultKind.readiness_check ws))
    || overlap (sort_windows [] (of_kind FaultKind.tick_failure ws))
    || overlap (sort_windows [] (of_kind FaultKind.tick_overrun ws))

abbrev pub validated : List FaultWindow → Result FaultError (List FaultWindow)
validated ws =
    if duplicate_ids [] ws || same_kind_overlap ws
    then err schedule_error
    else ok (sort_windows [] ws)

unfoldable pub load_fault_schedule : Raw → Result FaultError (List FaultWindow)
unfolding and_then parse_all duplicate_ids same_kind_overlap sort_windows
load_fault_schedule not_array = err schedule_error
load_fault_schedule (array es) = and_then (parse_all es) validated

-- `FaultInjector`: `ticks_run` is `none` before `bind()`, and the bound loop's counter after it.
pub record FaultInjector : Type 0 where
  pub schedule : List FaultWindow
  pub ticks_run : Option ℕ

pub data InjectorError : Type 0 where
  runtime_error : InjectorError
  injected : String → InjectorError

unfoldable pub active : FaultKind → ℕ → List FaultWindow → Option FaultWindow
active k t [] = none
active k t (w ∷ ws) =
    let rest = active k t ws in if same_kind w.fault k && covers w t then some w else rest

unfoldable pub upcoming_tick_number : FaultInjector → Result InjectorError ℕ
upcoming_tick_number i = elim i.ticks_run [ none ↦ err runtime_error | some n ↦ ok (n + 1) ]

-- What `collect` calls `sleep` with, if it does; it has no items.
abbrev sleep_for : Option FaultWindow → Option Float
sleep_for none = none
sleep_for (some w) = some w.sleep_seconds

abbrev is_none : Option FaultWindow → Bool
is_none none = true
is_none (some w) = false

unfoldable pub collect : FaultInjector → Result InjectorError (Option Float)
unfolding active upcoming_tick_number
collect i = elim (upcoming_tick_number i) [
  | err e ↦ err e
  | ok t ↦ ok (sleep_for (active FaultKind.tick_overrun t i.schedule))
]

unfoldable pub readiness_ok : FaultInjector → Result InjectorError Bool
unfolding active upcoming_tick_number
readiness_ok i = elim (upcoming_tick_number i) [
  | err e ↦ err e
  | ok t ↦ ok (is_none (active FaultKind.readiness_check t i.schedule))
]

unfoldable pub handle : FaultInjector → ℕ → Result InjectorError (Unit {0})
unfolding active
handle i tick_number = elim (active FaultKind.tick_failure tick_number i.schedule) [
  | none ↦ ok tt
  | some w ↦ err (injected w.id)
]
