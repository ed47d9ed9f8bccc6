-- ===== src/Heart/Faults/Overlap.antt =====
-- Which schedules `_validate_no_same_kind_overlap` refuses: it compares neighbours in the order of
-- their first ticks only.
use ansina.Prelude.{
  ℕ, suc, ◌+◌, ◌≤◌, ◌≡◌, ◌↔◌, refl, List, [], ◌∷◌, Bool, true, false, ◌&&◌, leb, if◌then◌else◌,
  keep, arith, length, Bool-cases, inl, inr, All,
}
use ansina.Heart.Faults.{
  FaultKind, FaultWindow, same_kind, end_tick, covers, of_kind, insert_window, sort_windows,
  overlap, same_kind_overlap,
}

-- How many windows pass a test.
abbrev pub count : (FaultWindow → Bool) → List FaultWindow → ℕ
count p ws = length (keep p ws)

-- A window of this kind that covers this tick.
abbrev pub hits : FaultKind → ℕ → FaultWindow → Bool
hits k t w = same_kind w.fault k && covers w t

abbrev pub Lasts : List FaultWindow → Type 0
Lasts = All (λ w. 1 ≤ w.duration_ticks)

abbrev Ascends : List FaultWindow → Type 0
Ascends [] = Unit {0}
Ascends (x ∷ []) = Unit {0}
Ascends (x ∷ y ∷ ys) = (x.at_tick ≤ y.at_tick) × Ascends (y ∷ ys)

insert_window-Ascends :
    (x : FaultWindow) (ys : List FaultWindow) → Ascends ys → Ascends (insert_window x ys)
unfolding insert_window
insert_window-Ascends x [] a = tt
insert_window-Ascends x (y ∷ []) a = ground arith
insert_window-Ascends x (y ∷ z ∷ zs) a = ground (arith, insert_window-Ascends x (z ∷ zs) a.1)

sort_windows-Ascends :
    (sorted xs : List FaultWindow) → Ascends sorted → Ascends (sort_windows sorted xs)
unfolding sort_windows
sort_windows-Ascends sorted [] a = a
sort_windows-Ascends sorted (x ∷ xs) a =
    sort_windows-Ascends (insert_window x sorted) xs (insert_window-Ascends x sorted a)

insert_window-Lasts :
    (x : FaultWindow) (ys : List FaultWindow)
    → 1 ≤ x.duration_ticks
    → Lasts ys
    → Lasts (insert_window x ys)
unfolding insert_window
insert_window-Lasts x [] h l = (h, tt)
insert_window-Lasts x (y ∷ ys) h (g, l) = elim (Bool-cases (leb y.at_tick x.at_tick)) [
  | inl behind ↦ rw behind (g, insert_window-Lasts x ys h l)
  | inr before ↦ rw before (h, (g, l))
]

pub sort_windows-Lasts :
    (sorted xs : List FaultWindow) → Lasts sorted → Lasts xs → Lasts (sort_windows sorted xs)
unfolding sort_windows
sort_windows-Lasts sorted [] k l = k
sort_windows-Lasts sorted (x ∷ xs) k (h, l) =
    sort_windows-Lasts (insert_window x sorted) xs (insert_window-Lasts x sorted h k) l

keep-Lasts : (p : FaultWindow → Bool) (xs : List FaultWindow) → Lasts xs → Lasts (keep p xs)
unfolding keep
keep-Lasts p [] l = tt
keep-Lasts p (x ∷ xs) (h, l) = elim (Bool-cases (p x)) [
  | inl kept ↦ rw kept (h, keep-Lasts p xs l)
  | inr left ↦ rw left (keep-Lasts p xs l)
]

count-insert_window :
    (p : FaultWindow → Bool) (x : FaultWindow) (ys : List FaultWindow)
    → count p (insert_window x ys) ≡ count p (x ∷ ys)
unfolding insert_window keep
count-insert_window p x [] = refl
count-insert_window p x (y ∷ ys) = ground (arith, count-insert_window p x ys)

count-cons :
    (p : FaultWindow → Bool) (x : FaultWindow) (ys : List FaultWindow)
    → count p (x ∷ ys) ≡ (if p x then 1 else 0) + count p ys
unfolding keep
count-cons p x ys = ground arith

count-cons-miss :
    (p : FaultWindow → Bool) (x : FaultWindow) (ys : List FaultWindow)
    → p x ≡ false
    → count p (x ∷ ys) ≡ count p ys
unfolding keep
count-cons-miss p x ys h = rw h refl

count-cons-hit :
    (p : FaultWindow → Bool) (x : FaultWindow) (ys : List FaultWindow)
    → p x ≡ true
    → count p (x ∷ ys) ≡ suc (count p ys)
unfolding keep
count-cons-hit p x ys h = rw h refl

pub count-sort_windows :
    (p : FaultWindow → Bool) (sorted xs : List FaultWindow)
    → count p (sort_windows sorted xs) ≡ count p sorted + count p xs
unfolding sort_windows keep
count-sort_windows p sorted [] = omega arith
count-sort_windows p sorted (x ∷ xs) = omega (
  arith,
  count-sort_windows p (insert_window x sorted) xs,
  count-insert_window p x sorted,
  count-cons p x sorted,
  count-cons p x xs,
)

module _ (t : ℕ) where
  abbrev at_t : FaultWindow → Bool
  at_t w = covers w t

  -- Behind a window that has not ended, none covers the tick.
  none_later :
      (x : FaultWindow) (ys : List FaultWindow)
      → Lasts ys
      → overlap (x ∷ ys) ≡ false
      → t ≤ end_tick x
      → count at_t ys ≡ 0
  unfolding overlap keep
  none_later x [] l o h = refl
  none_later x (y ∷ ys) (g, l) o h =
      let apart : leb y.at_tick (end_tick x) ≡ false = ground arith in
      let rest : overlap (y ∷ ys) ≡ false = ground arith in
      ground (arith, none_later y ys l rest (ground arith))

  at_most_one : (ys : List FaultWindow) → Lasts ys → overlap ys ≡ false → count at_t ys ≤ 1
  unfolding overlap keep
  at_most_one [] l o = omega arith
  at_most_one (x ∷ []) l o = ground arith
  at_most_one (x ∷ y ∷ ys) (g, l) o =
      let rest : overlap (y ∷ ys) ≡ false = ground arith in
      let tail : count at_t (y ∷ ys) ≤ 1 = at_most_one (y ∷ ys) l rest in
      elim (Bool-cases (at_t x)) [
        | inl now ↦
            let later : count at_t (y ∷ ys) ≡ 0 = none_later x (y ∷ ys) l o (ground arith) in
            omega (arith, later, count-cons-hit at_t x (y ∷ ys) now)
        | inr not_now ↦ omega (arith, tail, count-cons-miss at_t x (y ∷ ys) not_now)
      ]

-- What the check refuses, two windows cover indeed.
overlap-count :
    (ys : List FaultWindow)
    → Ascends ys
    → Lasts ys
    → ((t : ℕ) → count (λ w. covers w t) ys ≤ 1)
    → overlap ys ≡ false
unfolding overlap
overlap-count [] a l u = refl
overlap-count (x ∷ []) a l u = refl
overlap-count (x ∷ y ∷ ys) (h, a) (m, (n, l)) u =
    let first : count (λ w. covers w y.at_tick) (x ∷ y ∷ ys) ≡ _ =
      count-cons (λ w. covers w y.at_tick) x (y ∷ ys) in
    let second : count (λ w. covers w y.at_tick) (y ∷ ys) ≡ _ =
      count-cons (λ w. covers w y.at_tick) y ys in
    let tail =
      overlap-count (y ∷ ys) a (n, l)
        (λ t. let c = count-cons (λ w. covers w t) x (y ∷ ys) in omega (arith, c, u t)) in
    elim (Bool-cases (leb y.at_tick (end_tick x))) [
      | inr apart ↦ rw apart tail
      | inl meets ↦
          let p : covers x y.at_tick ≡ true = ground arith in
          let q : covers y y.at_tick ≡ true = ground arith in
          absurd (omega (arith, rw p at first, rw q at second, u y.at_tick))
    ]

same_kind-sorted :
    (k : FaultKind) (t : ℕ) (ws : List FaultWindow)
    → count (λ w. covers w t) (sort_windows [] (of_kind k ws)) ≡ count (hits k t) ws
unfolding keep
same_kind-sorted k t [] = count-sort_windows (λ w. covers w t) [] []
same_kind-sorted k t (w ∷ ws) =
    let here = count-sort_windows (λ v. covers v t) [] (of_kind k (w ∷ ws)) in
    let there = count-sort_windows (λ v. covers v t) [] (of_kind k ws) in
    ground (arith, here, there, same_kind-sorted k t ws)

kind_ok :
    (k : FaultKind) (ws : List FaultWindow)
    → Lasts ws
    → (overlap (sort_windows [] (of_kind k ws)) ≡ false) ↔ ((t : ℕ) → count (hits k t) ws ≤ 1)
kind_ok k ws l =
    let ordered = sort_windows-Lasts [] (of_kind k ws) tt (keep-Lasts _ ws l) in
    (
      (λ o t. rw (← same_kind-sorted k t ws) (at_most_one t _ ordered o)),
      (λ u.
          overlap-count _ (sort_windows-Ascends [] _ tt) ordered
            (λ t. rw (same_kind-sorted k t ws) (u t))),
    )

-- For windows that last a tick at least, the check of neighbours passes exactly if, at every tick,
-- at most one window of each kind covers it.
pub same_kind_overlap_iff :
    (ws : List FaultWindow)
    → Lasts ws
    → (same_kind_overlap ws ≡ false) ↔ ((k : FaultKind) (t : ℕ) → count (hits k t) ws ≤ 1)
unfolding same_kind_overlap
same_kind_overlap_iff ws l =
    let r = kind_ok FaultKind.readiness_check ws l in
    let f = kind_ok FaultKind.tick_failure ws l in
    let o = kind_ok FaultKind.tick_overrun ws l in
    (
      (λ h k. elim k as (λ k. (t : ℕ) → count (hits k t) ws ≤ 1) [
        | FaultKind.readiness_check ↦ r.0 (ground arith)
        | FaultKind.tick_failure ↦ f.0 (ground arith)
        | FaultKind.tick_overrun ↦ o.0 (ground arith)
      ]),
      (λ u.
          let a = r.1 (u FaultKind.readiness_check) in
          let b = f.1 (u FaultKind.tick_failure) in
          let c = o.1 (u FaultKind.tick_overrun) in rw (a, b, c) refl),
    )
