-- ===== src/Tests/Logging.antt =====
-- The redaction at concrete inputs.
use mathlib.Core.List.{append-nil}
use ansina.Prelude.{ℕ, arith, ◌≡◌, refl, ap, inl, some, List, [], ◌∷◌}
use ansina.Heart.Decision.{codes, after_prefix}
use ansina.Logging.Redaction.{plain, value, joined, Pattern, register_secret, redact}
use ansina.Logging.Redaction.Hides.{Occurs, IsSecret, redact_hides}

-- A secret, and one that it is the beginning of.
abbrev pub secrets : List (List ℕ)
secrets =
    register_secret (some (codes "hunter2!"))
      (register_secret (some (codes "hunter2!hunter")) (register_secret (some (codes "short")) []))

-- A pattern that masks the first character.
abbrev pub first : Pattern
first [] = []
first (c ∷ t) = value (c ∷ []) ∷ plain t ∷ []

longest_goes_first :
    redact (first ∷ []) secrets (codes "a short hunter2!hunter, hunter2!")
    ≡ codes "*** short ***, ***"
unfolding redact register_secret after_prefix
longest_goes_first = refl

pub first-Splits : (t : List ℕ) → joined (first t) ≡ t
unfolding joined
first-Splits [] = refl
first-Splits (c ∷ t) = ap (λ r. c ∷ r) (append-nil t)

pub hunter2-IsSecret : IsSecret (codes "hunter2!")
hunter2-IsSecret = (
  λ e. omega (arith, e),
  (
    λ e. omega (arith, e),
    (
      λ e. omega (arith, e),
      (
        λ e. omega (arith, e),
        (
          λ e. omega (arith, e),
          (λ e. omega (arith, e), (λ e. omega (arith, e), (λ e. omega (arith, e), tt))),
        ),
      ),
    ),
  ),
)

redact_hides_example :
    ¬ Occurs
      (codes "hunter2!")
      (redact (first ∷ []) secrets (codes "a short hunter2!hunter, hunter2!"))
unfolding register_secret
redact_hides_example =
    redact_hides (first ∷ []) secrets (codes "hunter2!") (codes "a short hunter2!hunter, hunter2!")
      (first-Splits, tt) (inl refl) hunter2-IsSecret
