-- ===== src/Logging/Redaction/Hides.antt =====
-- No registered secret is left in a redacted text.
use mathlib.Core.Path.{subst}
use ansina.Prelude.{
  ℕ, zero, suc, ◌<◌, ◌≡◌, ◌≢◌, refl, sym, ap, inl, inr, ◌⊎◌, none, some, List, [], ◌∷◌, ◌++◌,
  length, length-append, leb, arith, All, In, Bool-cases, Option-cases,
}
use ansina.Heart.Decision.{after_prefix}
use ansina.Logging.Redaction.{
  redacted, insert_longest, longest_first, replace_from, replace, replace_all, Piece, plain, value,
  masked, joined, Pattern, mask_all, redact,
}

-- `s` stands at the beginning of the text.
abbrev Starts : List ℕ → List ℕ → Type 0
Starts [] t = Unit {0}
Starts (a ∷ s) [] = ⊥
Starts (a ∷ s) (c ∷ t) = (a ≡ c) × Starts s t

-- `s` stands somewhere in the text.
abbrev pub Occurs : List ℕ → List ℕ → Type 0
Occurs s [] = Starts s []
Occurs s (c ∷ t) = Starts s (c ∷ t) ⊎ Occurs s t

abbrev IsPlain : ℕ → Type 0
IsPlain c = c ≢ 42

-- A secret has a character, and no asterisk.
abbrev pub IsSecret : List ℕ → Type 0
IsSecret [] = ⊥
IsSecret (a ∷ s) = IsPlain a × All IsPlain s

-- Stretches of the first text are three asterisks in the second one.
data Blanked : List ℕ → List ℕ → Type 0 where
  done : Blanked [] []
  copy : {t o : List ℕ} (c : ℕ) → Blanked t o → Blanked (c ∷ t) (c ∷ o)
  blank :
      {t o whole out : List ℕ} (x : List ℕ)
      → Blanked t o
      → whole ≡ x ++ t
      → out ≡ redacted ++ o
      → Blanked whole out

Blanked-refl : (t : List ℕ) → Blanked t t
Blanked-refl [] = done
Blanked-refl (c ∷ t) = copy c (Blanked-refl t)

Blanked-append : {t o : List ℕ} (x : List ℕ) → Blanked t o → Blanked (x ++ t) (x ++ o)
Blanked-append [] b = b
Blanked-append (c ∷ x) b = copy c (Blanked-append x b)

Starts-Blanked : {t o : List ℕ} (s : List ℕ) → Blanked t o → All IsPlain s → Starts s o → Starts s t
Starts-Blanked [] b p h = tt
Starts-Blanked (a ∷ s) done p h = h
Starts-Blanked (a ∷ s) (copy c b) (q, p) (same, h) = (same, Starts-Blanked s b p h)
Starts-Blanked (a ∷ s) (blank x b whole out) (q, p) h =
    let (same, _) = subst (Starts (a ∷ s)) out h in absurd (q same)

Occurs-append : (s x t : List ℕ) → Occurs s t → Occurs s (x ++ t)
Occurs-append s [] t h = h
Occurs-append s (c ∷ x) t h = inr (Occurs-append s x t h)

Occurs-beyond :
    (a : ℕ) (s o : List ℕ) → IsSecret (a ∷ s) → Occurs (a ∷ s) (redacted ++ o) → Occurs (a ∷ s) o
Occurs-beyond a s o (q, p) (inl (same, _)) = absurd (q same)
Occurs-beyond a s o (q, p) (inr (inl (same, _))) = absurd (q same)
Occurs-beyond a s o (q, p) (inr (inr (inl (same, _)))) = absurd (q same)
Occurs-beyond a s o (q, p) (inr (inr (inr h))) = h

-- What occurs after a blanking has occurred before it.
Occurs-Blanked : {t o : List ℕ} (s : List ℕ) → Blanked t o → IsSecret s → Occurs s o → Occurs s t
Occurs-Blanked [] b p h = elim p [ ]
Occurs-Blanked (a ∷ s) done p h = h
Occurs-Blanked (a ∷ s) (copy c b) p (inl here) = inl (Starts-Blanked (a ∷ s) (copy c b) p here)
Occurs-Blanked (a ∷ s) (copy c b) p (inr later) = inr (Occurs-Blanked (a ∷ s) b p later)
Occurs-Blanked (a ∷ s) (blank {t = t} {o = o} x b whole out) p h =
    subst (Occurs (a ∷ s)) (sym whole) (
      Occurs-append (a ∷ s) x t
        (Occurs-Blanked (a ∷ s) b p (Occurs-beyond a s o p (subst (Occurs (a ∷ s)) out h))))

after_prefix_iff : (s t r : List ℕ) → after_prefix s t ≡ some r → t ≡ s ++ r
unfolding after_prefix
after_prefix_iff [] t r h = cc
after_prefix_iff (a ∷ s) [] r h = cc
after_prefix_iff (a ∷ s) (c ∷ t) r h = ground (arith, after_prefix_iff s t r)

after_prefix-none : (s t : List ℕ) → after_prefix s t ≡ none → Starts s t → ⊥
unfolding after_prefix
after_prefix-none [] t h st = cc
after_prefix-none (a ∷ s) [] h st = st
after_prefix-none (a ∷ s) (c ∷ t) h (same, st) = after_prefix-none s t (ground arith) st

replace_from-Blanked : (fuel : ℕ) (s t : List ℕ) → Blanked t (replace_from fuel s t)
unfolding replace_from
replace_from-Blanked zero s t = Blanked-refl t
replace_from-Blanked (suc fuel) s [] = done
replace_from-Blanked (suc fuel) s (c ∷ t) = elim (Option-cases (after_prefix s (c ∷ t))) [
  | inl no_match ↦ rw (replace_from, no_match) (copy c (replace_from-Blanked fuel s t))
  | inr (rest, match) ↦
      rw (replace_from, match)
        (blank s (replace_from-Blanked fuel s rest) (after_prefix_iff s (c ∷ t) rest match) refl)
]

-- With enough fuel, what was replaced occurs no more.
replace_from_gone :
    (fuel : ℕ) (s t : List ℕ) → length t < fuel → IsSecret s → Occurs s (replace_from fuel s t) → ⊥
unfolding replace_from
replace_from_gone zero s t short p h = absurd (omega arith)
replace_from_gone (suc fuel) [] t short p h = p
replace_from_gone (suc fuel) (a ∷ s) [] short p h = h
replace_from_gone (suc fuel) (a ∷ s) (c ∷ t) short p h =
    elim (Option-cases (after_prefix (a ∷ s) (c ∷ t))) [
      | inl no_match ↦ elim (rw (replace_from, no_match) at h) [
        | inl here ↦
            after_prefix-none (a ∷ s) (c ∷ t) no_match
              (Starts-Blanked (a ∷ s) (copy c (replace_from-Blanked fuel (a ∷ s) t)) p here)
        | inr later ↦ replace_from_gone fuel (a ∷ s) t (omega arith) p later
      ]
      | inr (rest, match) ↦
          let splits = after_prefix_iff (a ∷ s) (c ∷ t) rest match in
          let shorter : length rest < fuel =
            omega (arith, ap (λ (l : List ℕ). length l) splits, length-append (a ∷ s) rest) in
          replace_from_gone fuel (a ∷ s) rest shorter p
            (Occurs-beyond a s (replace_from fuel (a ∷ s) rest) p (rw (replace_from, match) at h))
    ]

replace-Blanked : (s t : List ℕ) → Blanked t (replace s t)
unfolding replace
replace-Blanked s t = replace_from-Blanked (suc (length t)) s t

-- A secret that does not occur before the other replacements does not occur after them.
replace_all_keeps :
    (ss : List (List ℕ)) (s t : List ℕ)
    → IsSecret s
    → (Occurs s t → ⊥)
    → Occurs s (replace_all ss t)
    → ⊥
unfolding replace_all
replace_all_keeps [] s t p absent h = absent h
replace_all_keeps (x ∷ ss) s t p absent h =
    replace_all_keeps ss s (replace x t) p
      (λ o. absent (Occurs-Blanked s (replace-Blanked x t) p o)) h

replace_all_hides :
    (ss : List (List ℕ)) (s t : List ℕ) → In s ss → IsSecret s → Occurs s (replace_all ss t) → ⊥
unfolding replace_all replace
replace_all_hides [] s t i p h = i
replace_all_hides (x ∷ ss) s t (inl same) p h =
    replace_all_keeps ss s (replace x t) p
      (λ o.
        replace_from_gone (suc (length t)) s t (omega arith) p
          (subst (λ y. Occurs s (replace_from (suc (length t)) y t)) same o))
      h
replace_all_hides (x ∷ ss) s t (inr i) p h = replace_all_hides ss s (replace x t) i p h

masked-Blanked : (ps : List Piece) → Blanked (joined ps) (masked ps)
unfolding masked joined
masked-Blanked [] = done
masked-Blanked (plain t ∷ ps) = Blanked-append t (masked-Blanked ps)
masked-Blanked (value t ∷ ps) = blank t (masked-Blanked ps) refl refl

-- The pieces that a pattern makes of a text are the text.
abbrev pub Splits : Pattern → Type 0
Splits pattern = (t : List ℕ) → joined (pattern t) ≡ t

mask_all_keeps :
    (ps : List Pattern) (s t : List ℕ)
    → All Splits ps
    → IsSecret s
    → (Occurs s t → ⊥)
    → Occurs s (mask_all ps t)
    → ⊥
unfolding mask_all
mask_all_keeps [] s t all p absent h = absent h
mask_all_keeps (m ∷ ps) s t (splits, all) p absent h =
    mask_all_keeps ps s (masked (m t)) all p
      (λ o. absent (subst (Occurs s) (splits t) (Occurs-Blanked s (masked-Blanked (m t)) p o))) h

In-insert_longest : (s x : List ℕ) (ss : List (List ℕ)) → In s (x ∷ ss) → In s (insert_longest x ss)
unfolding insert_longest
In-insert_longest s x [] i = i
In-insert_longest s x (y ∷ ys) i = elim (Bool-cases (leb (length y) (length x))) [
  | inl before ↦ rw before i
  | inr behind ↦ rw behind (elim i [
    | inl same ↦ inr (In-insert_longest s x ys (inl same))
    | inr (inl same) ↦ inl same
    | inr (inr later) ↦ inr (In-insert_longest s x ys (inr later))
  ])
]

In-longest_first : (s : List ℕ) (ss : List (List ℕ)) → In s ss → In s (longest_first ss)
unfolding longest_first
In-longest_first s [] i = i
In-longest_first s (x ∷ ss) (inl same) = In-insert_longest s x (longest_first ss) (inl same)
In-longest_first s (x ∷ ss) (inr i) =
    In-insert_longest s x (longest_first ss) (inr (In-longest_first s ss i))

-- No registered secret occurs in a redacted text, whatever the text and the other secrets are and
-- whatever the patterns match: for a secret without an asterisk, and patterns that split a text into
-- pieces of it.
pub redact_hides :
    (patterns : List Pattern) (secrets : List (List ℕ)) (s t : List ℕ)
    → All Splits patterns
    → In s secrets
    → IsSecret s
    → ¬ Occurs s (redact patterns secrets t)
unfolding redact
redact_hides patterns secrets s t splits registered p =
    mask_all_keeps patterns s (replace_all (longest_first secrets) t) splits p
      (replace_all_hides (longest_first secrets) s t (In-longest_first s secrets registered) p)
