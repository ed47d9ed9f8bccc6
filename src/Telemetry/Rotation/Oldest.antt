-- ===== src/Telemetry/Rotation/Oldest.antt =====
-- Which files `_enforce_budget` deletes to meet the cap.
use ansina.Prelude.{
  ℕ, ◌+◌, ◌-◌, ◌≤◌, ◌<◌, ◌≡◌, refl, ap, inl, inr, List, [], ◌∷◌, Bool, true, false, leb, arith,
  keep, All, In, All-In, Bool-cases,
}
use ansina.Heart.Decision.{same}
use ansina.Telemetry.Rotation.{
  FileName, is_active, name_eq, SpoolFile, exists_named, total_size, survives, insert_oldest,
  by_oldest, cap_loop, RotationSettings, enforce_budget,
}
use ansina.Telemetry.Rotation.Cap.{All-cap_loop, All-insert_oldest}

-- The oldest file stands first.
abbrev Ascends : List SpoolFile → Type 0
Ascends [] = Unit {0}
Ascends (f ∷ fs) = All (λ g. f.mtime ≤ g.mtime) fs × Ascends fs

All-later :
    (x y : SpoolFile) (fs : List SpoolFile)
    → x.mtime ≤ y.mtime
    → All (λ g. y.mtime ≤ g.mtime) fs
    → All (λ g. x.mtime ≤ g.mtime) fs
All-later x y [] h all = tt
All-later x y (f ∷ fs) h (first, all) = (omega arith, All-later x y fs h all)

insert_oldest-Ascends :
    (x : SpoolFile) (fs : List SpoolFile) → Ascends fs → Ascends (insert_oldest x fs)
unfolding insert_oldest
insert_oldest-Ascends x [] a = (tt, tt)
insert_oldest-Ascends x (y ∷ ys) (first, a) = elim (Bool-cases (leb x.mtime y.mtime)) [
  | inl before ↦ rw before ((ground arith, All-later x y ys (ground arith) first), (first, a))
  | inr behind ↦ rw behind (
    All-insert_oldest (λ g. y.mtime ≤ g.mtime) x ys (ground arith) first,
    insert_oldest-Ascends x ys a,
  )
]

by_oldest-Ascends : (fs : List SpoolFile) → Ascends (by_oldest fs)
unfolding by_oldest
by_oldest-Ascends [] = tt
by_oldest-Ascends (f ∷ fs) = insert_oldest-Ascends f (by_oldest fs) (by_oldest-Ascends fs)

In-insert_oldest :
    (e x : SpoolFile) (fs : List SpoolFile) → In e (x ∷ fs) → In e (insert_oldest x fs)
unfolding insert_oldest
In-insert_oldest e x [] i = i
In-insert_oldest e x (y ∷ ys) i = elim (Bool-cases (leb x.mtime y.mtime)) [
  | inl before ↦ rw before i
  | inr behind ↦ rw behind (elim i [
    | inl same ↦ inr (In-insert_oldest e x ys (inl same))
    | inr (inl same) ↦ inl same
    | inr (inr later) ↦ inr (In-insert_oldest e x ys (inr later))
  ])
]

In-by_oldest : (e : SpoolFile) (fs : List SpoolFile) → In e fs → In e (by_oldest fs)
unfolding by_oldest
In-by_oldest e [] i = i
In-by_oldest e (f ∷ fs) (inl same) = In-insert_oldest e f (by_oldest fs) (inl same)
In-by_oldest e (f ∷ fs) (inr i) = In-insert_oldest e f (by_oldest fs) (inr (In-by_oldest e fs i))

In-keep :
    (p : SpoolFile → Bool) (e : SpoolFile) (fs : List SpoolFile)
    → In e fs
    → p e ≡ true
    → In e (keep p fs)
unfolding keep
In-keep p e [] i h = i
In-keep p e (f ∷ fs) (inl same) h = rw (same, h) (inl refl)
In-keep p e (f ∷ fs) (inr i) h = elim (Bool-cases (p f)) [
  | inl kept ↦ rw kept (inr (In-keep p e fs i h))
  | inr gone ↦ rw gone (In-keep p e fs i h)
]

total_size-insert_oldest :
    (x : SpoolFile) (fs : List SpoolFile) → total_size (insert_oldest x fs) ≡ x.size + total_size fs
unfolding insert_oldest total_size
total_size-insert_oldest x [] = refl
total_size-insert_oldest x (y ∷ ys) = ground (arith, total_size-insert_oldest x ys)

total_size-by_oldest : (fs : List SpoolFile) → total_size (by_oldest fs) ≡ total_size fs
unfolding by_oldest total_size
total_size-by_oldest [] = refl
total_size-by_oldest (f ∷ fs) =
    omega (arith, total_size-insert_oldest f (by_oldest fs), total_size-by_oldest fs)

name_eq_refl : (n : FileName) → name_eq n n ≡ true
name_eq_refl FileName.active = refl
name_eq_refl (FileName.rotated s k) = ground arith
name_eq_refl (FileName.foreign text) = same_refl text
  where
    same_refl : (xs : List ℕ) → same xs xs ≡ true
    same_refl [] = refl
    same_refl (x ∷ xs) = ground (arith, same_refl xs)

In-exists_named : (e : SpoolFile) (fs : List SpoolFile) → In e fs → exists_named e.name fs ≡ true
unfolding exists_named
In-exists_named e [] i = elim i [ ]
In-exists_named e (f ∷ fs) (inl same) = rw same (ground (arith, name_eq_refl e.name))
In-exists_named e (f ∷ fs) (inr i) = ground (arith, In-exists_named e fs i)

-- What the loop deletes, it deletes over the limit, and no rotated file that it leaves is older.
cap_loop-oldest :
    (limit total : ℕ) (fs : List SpoolFile) (gone left : SpoolFile)
    → Ascends fs
    → In gone fs
    → exists_named gone.name (cap_loop limit total fs) ≡ false
    → In left (cap_loop limit total fs)
    → is_active left.name ≡ false
    → (limit < total) × (gone.mtime ≤ left.mtime)
unfolding cap_loop exists_named
cap_loop-oldest limit total [] gone left a i missing stays rotated = elim i [ ]
cap_loop-oldest limit total (f ∷ fs) gone left (first, a) i missing stays rotated =
    elim (Bool-cases (leb total limit)) [
      | inl fits ↦
          let found : exists_named gone.name (f ∷ fs) ≡ true = In-exists_named gone (f ∷ fs) i in
          let lost : exists_named gone.name (f ∷ fs) ≡ false = rw fits at missing in
          absurd (ground arith)
      | inr over ↦ elim (Bool-cases (is_active f.name)) [
        | inl is ↦ elim i [
          | inl same_file ↦
              let lost = rw (over, is) at missing in
              absurd (
                ground (
                  arith,
                  name_eq_refl gone.name,
                  ap (λ (g : SpoolFile). name_eq g.name gone.name) same_file,
                ))
          | inr later ↦ elim (rw (over, is) at stays) [
            | inl same_file ↦
                absurd (ground (arith, ap (λ (g : SpoolFile). is_active g.name) same_file))
            | inr rest ↦
                cap_loop-oldest limit total fs gone left a later
                  (let lost = rw (over, is) at missing in ground arith) rest rotated
          ]
        ]
        | inr not_active ↦
            let lost = rw (over, not_active) at missing in
            let rest = rw (over, not_active) at stays in
            elim i [
              | inl same_file ↦
                  let older : f.mtime ≤ left.mtime =
                    All-In (λ g. f.mtime ≤ g.mtime) _
                      (All-cap_loop limit (λ g. f.mtime ≤ g.mtime) (total - f.size) fs first)
                      rest in
                  (ground arith, omega (arith, older, ap (λ (g : SpoolFile). g.mtime) same_file))
              | inr later ↦
                  let (more, older) =
                    cap_loop-oldest limit (total - f.size) fs gone left a later lost rest rotated in
                  (omega arith, older)
            ]
      ]
    ]

-- What `_enforce_budget` deletes although it is not too old, it deletes because the files are over
-- the cap, and no rotated file that it leaves is older.
pub enforce_budget-oldest :
    (c : RotationSettings) (now : ℕ) (files : List SpoolFile) (gone left : SpoolFile)
    → In gone files
    → survives c.retention now gone ≡ true
    → exists_named gone.name (enforce_budget c now files) ≡ false
    → In left (enforce_budget c now files)
    → is_active left.name ≡ false
    → (c.max_spool_bytes < total_size (keep (survives c.retention now) files))
      × (gone.mtime ≤ left.mtime)
unfolding enforce_budget
enforce_budget-oldest c now files gone left here young missing stays rotated_away =
    let kept = keep (survives c.retention now) files in
    let (over, older) =
      cap_loop-oldest c.max_spool_bytes (total_size (by_oldest kept)) (by_oldest kept) gone left
        (by_oldest-Ascends kept)
        (In-by_oldest gone kept (In-keep (survives c.retention now) gone files here young)) missing
        stays rotated_away in
    (rw (← total_size-by_oldest kept) over, older)
