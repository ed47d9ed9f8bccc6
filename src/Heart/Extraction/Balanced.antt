-- ===== src/Heart/Extraction/Balanced.antt =====
-- `_first_balanced_object` against a description that counts braces.
use mathlib.Core.List.{append_assoc}
use ansina.Prelude.{
  ℕ, suc, ◌+◌, ◌<◌, ◌≡◌, ◌≢◌, ◌↔◌, refl, ap, ◌∙◌, inl, inr, some, List, [], ◌∷◌, ◌++◌, false, ◌&&◌,
  ◌==◌, if◌then◌else◌, arith, Bool-cases, Option-cases,
}
use ansina.Heart.Extraction.{from_brace, depth_after, scan, first_balanced_object}

-- How often a character stands in a text.
abbrev pub count : ℕ → List ℕ → ℕ
count x [] = 0
count x (c ∷ cs) = if c == x then suc (count x cs) else count x cs

abbrev pub openings : List ℕ → ℕ
openings = count b'{'

abbrev pub closings : List ℕ → ℕ
closings = count b'}'

-- As many braces close as open, counting `depth` that are open before, and some brace is open at
-- every place before the end.
abbrev ClosesFrom : ℕ → List ℕ → Type 0
ClosesFrom depth o =
    (closings o ≡ depth + openings o)
    × ((p q : List ℕ) → p ++ q ≡ o → p ≢ [] → q ≢ [] → closings p < depth + openings p)

-- A text with a brace in which the last brace closes the first one.
abbrev pub IsBalanced : List ℕ → Type 0
IsBalanced o =
    (0 < openings o)
    × (closings o ≡ openings o)
    × ((p q : List ℕ) → p ++ q ≡ o → p ≢ [] → q ≢ [] → closings p < openings p)

step_depth :
    (depth c : ℕ)
    → 0 < depth
    → depth_after c depth + (if c == b'}' then 1 else 0) ≡ depth + (if c == b'{' then 1 else 0)
step_depth depth c h = ground arith

uncons : {c d : ℕ} {cs ds : List ℕ} → c ∷ cs ≡ d ∷ ds → (c ≡ d) × (cs ≡ ds)
uncons h = (cc, cc)

-- The scan stops at the end of a text that closes, whatever follows.
scan-closes :
    (depth : ℕ) (seen o post : List ℕ)
    → 0 < depth
    → o ≢ []
    → ClosesFrom depth o
    → scan depth seen (o ++ post) ≡ some (seen ++ o)
unfolding scan
scan-closes depth seen [] post positive filled closes = absurd (filled refl)
scan-closes depth seen (c ∷ []) post positive filled (balance, inside) = ground arith
scan-closes depth seen (c ∷ d ∷ o) post positive filled (balance, inside) =
    let here : closings (c ∷ []) < depth + openings (c ∷ []) =
      inside (c ∷ []) (d ∷ o) refl (cc) (cc) in
    let open_still : 0 < depth_after c depth = ground arith in
    let goes_on : (c == b'}' && depth_after c depth == 0) ≡ false = ground arith in
    rw goes_on (
      scan-closes (depth_after c depth) (seen ++ c ∷ []) (d ∷ o) post open_still (cc) (
        ground arith,
        λ p q same some_p some_q. ground (arith, inside (c ∷ p) q (ap (◌∷◌ c) same) (cc) some_q),
      )
      ∙ ap some (append_assoc seen (c ∷ []) (d ∷ o)))

-- What the scan returns is such a text.
scan_sound :
    (depth : ℕ) (seen cs o : List ℕ)
    → 0 < depth
    → scan depth seen cs ≡ some o
    → (p : List ℕ) × (post : List ℕ) × (cs ≡ p ++ post)
      × (o ≡ seen ++ p)
      × (p ≢ [])
      × ClosesFrom depth p
unfolding scan
scan_sound depth seen [] o positive h = cc
scan_sound depth seen (c ∷ cs) o positive h =
    elim (Bool-cases (c == b'}' && depth_after c depth == 0)) [
      | inl ends ↦
          let result = rw ends at h in
          (c ∷ [], cs, refl, cc, (cc), (ground arith, singleton_inside depth c))
      | inr goes_on ↦
          let (p, post, splits, is, filled, (balance, inside)) =
            scan_sound (depth_after c depth) (seen ++ c ∷ []) cs o (ground arith)
              (rw goes_on at h) in
          (
            c ∷ p,
            post,
            ap (◌∷◌ c) splits,
            is ∙ append_assoc seen (c ∷ []) p,
            (cc),
            (ground arith, shifted depth c p positive (ground arith) inside),
          )
    ]
  where
    singleton_inside :
        (depth c : ℕ) (p q : List ℕ)
        → p ++ q ≡ c ∷ []
        → p ≢ []
        → q ≢ []
        → closings p < depth + openings p
    singleton_inside depth c [] q same some_p some_q = absurd (some_p refl)
    singleton_inside depth c (x ∷ []) q same some_p some_q = absurd (some_q (uncons same).1)
    singleton_inside depth c (x ∷ y ∷ p) q same some_p some_q = absurd (cc ((uncons same).1))

    shifted :
        (depth c : ℕ) (o : List ℕ)
        → 0 < depth
        → 0 < depth_after c depth
        → ((p q : List ℕ)
            → p ++ q ≡ o
            → p ≢ []
            → q ≢ []
            → closings p < depth_after c depth + openings p)
        → (p q : List ℕ) → p ++ q ≡ c ∷ o
        → p ≢ []
        → q ≢ []
        → closings p < depth + openings p
    shifted depth c o positive deeper inside [] q same some_p some_q = absurd (some_p refl)
    shifted depth c o positive deeper inside (x ∷ []) q same some_p some_q =
        ground (arith, (uncons same).0)
    shifted depth c o positive deeper inside (x ∷ y ∷ p) q same some_p some_q =
        ground (arith, (uncons same).0, inside (y ∷ p) q (uncons same).1 (cc) some_q)

from_brace_sound :
    (cs ds : List ℕ)
    → from_brace cs ≡ some ds
    → (pre : List ℕ) × (r : List ℕ) × (cs ≡ pre ++ ds) × (openings pre ≡ 0) × (ds ≡ b'{' ∷ r)
unfolding from_brace
from_brace_sound [] ds h = cc
from_brace_sound (c ∷ cs) ds h = elim (Bool-cases (c == b'{')) [
  | inl here ↦
      let found = rw here at h in let is : c ≡ b'{' = ground arith in ([], cs, cc, refl, cc is)
  | inr later ↦
      let (pre, r, splits, free, starts) = from_brace_sound cs ds (rw later at h) in
      (c ∷ pre, r, ap (◌∷◌ c) splits, ground arith, starts)
]

from_brace_complete :
    (pre r : List ℕ) → openings pre ≡ 0 → from_brace (pre ++ b'{' ∷ r) ≡ some (b'{' ∷ r)
unfolding from_brace
from_brace_complete [] r free = refl
from_brace_complete (c ∷ pre) r free = ground (arith, from_brace_complete pre r)

-- A balanced text begins with its first brace.
IsBalanced-starts : (o : List ℕ) → IsBalanced o → (r : List ℕ) × (o ≡ b'{' ∷ r) × (r ≢ [])
IsBalanced-starts [] (some_brace, balance, inside) = absurd (omega arith)
IsBalanced-starts (c ∷ []) (some_brace, balance, inside) = absurd (ground arith)
IsBalanced-starts (c ∷ d ∷ o) (some_brace, balance, inside) =
    let is : c ≡ b'{' = ground (arith, inside (c ∷ []) (d ∷ o) refl (cc) (cc)) in
    (d ∷ o, cc is, (cc))

IsBalanced-ClosesFrom : (r : List ℕ) → IsBalanced (b'{' ∷ r) → ClosesFrom 1 r
IsBalanced-ClosesFrom r (some_brace, balance, inside) = (
  ground arith,
  λ p q same some_p some_q. ground (arith, inside (b'{' ∷ p) q (ap (◌∷◌ b'{') same) (cc) some_q),
)

ClosesFrom-IsBalanced : (r : List ℕ) → r ≢ [] → ClosesFrom 1 r → IsBalanced (b'{' ∷ r)
ClosesFrom-IsBalanced r filled (balance, inside) = (ground arith, ground arith, longer)
  where
    longer : (p q : List ℕ) → p ++ q ≡ b'{' ∷ r → p ≢ [] → q ≢ [] → closings p < openings p
    longer [] q same some_p some_q = absurd (some_p refl)
    longer (x ∷ []) q same some_p some_q = ground (arith, (uncons same).0)
    longer (x ∷ y ∷ p) q same some_p some_q =
        ground (arith, (uncons same).0, inside (y ∷ p) q (uncons same).1 (cc) some_q)

pub first_balanced_object_complete :
    (pre o post : List ℕ)
    → openings pre ≡ 0
    → IsBalanced o
    → first_balanced_object (pre ++ (o ++ post)) ≡ some o
unfolding first_balanced_object scan
first_balanced_object_complete pre o post free balanced =
    let (r, starts, filled) = IsBalanced-starts o balanced in
    let closes = IsBalanced-ClosesFrom r (rw starts at balanced) in
    rw (starts, from_brace_complete pre (r ++ post) free)
      (scan-closes 1 (b'{' ∷ []) r post (omega arith) filled closes)

first_balanced_object_sound :
    (cs o : List ℕ)
    → first_balanced_object cs ≡ some o
    → (pre : List ℕ) × (post : List ℕ) × (cs ≡ pre ++ (o ++ post))
      × (openings pre ≡ 0)
      × IsBalanced o
unfolding first_balanced_object scan
first_balanced_object_sound cs o h = elim (Option-cases (from_brace cs)) [
  | inl absent ↦ absurd (cc (rw absent at h))
  | inr (ds, found) ↦
      let (pre, r, splits, free, starts) = from_brace_sound cs ds found in
      let scanned = rw (found, starts) at h in
      let (p, post, rest, is, filled, closes) =
        scan_sound 1 (b'{' ∷ []) r o (omega arith) scanned in
      (
        pre,
        post,
        splits ∙ rw (starts, is, rest) refl,
        free,
        rw is (ClosesFrom-IsBalanced p filled closes),
      )
]

-- `_first_balanced_object` returns `o` exactly when the text is something without an opening
-- brace, then `o`, then anything, and `o` is balanced: it has as many closing braces as opening
-- ones, and more opening than closing ones before each place inside it.
pub first_balanced_object_iff :
    (cs o : List ℕ)
    → (first_balanced_object cs ≡ some o) ↔ (
        (pre : List ℕ) × (post : List ℕ) × (cs ≡ pre ++ (o ++ post))
        × (openings pre ≡ 0)
        × IsBalanced o)
first_balanced_object_iff cs o = (
  first_balanced_object_sound cs o,
  λ (pre, post, splits, free, balanced).
      rw splits (first_balanced_object_complete pre o post free balanced),
)
