-- ===== src/Heart/Decision.antt =====
-- src/ansina/heart/tick/decision.py: from the model's free-form reply to a decision. A reply is a
-- list of code points. `str.isspace` and `str.lower` are Unicode tables, taken as parameters.
pub mod Thinking
use Prim.Native.Char.{code}
use ansina.Prelude.{
  ℕ, String, Option, none, some, List, [], ◌∷◌, Bool, true, false, ◌&&◌, ◌||◌, ◌==◌, if◌then◌else◌,
}

pub data TickDecision : Type 0 where
  idle act escalate : TickDecision

-- The code points of a text.
abbrev pub codes : String → List ℕ
codes String.[] = []
codes (String.◌∷◌ c s) = code c ∷ codes s

abbrev pub same : List ℕ → List ℕ → Bool
same [] [] = true
same (x ∷ xs) (y ∷ ys) = x == y && same xs ys
same _ _ = false

-- What follows `prefix` in a list that begins with it.
unfoldable pub after_prefix : List ℕ → List ℕ → Option (List ℕ)
after_prefix [] xs = some xs
after_prefix (p ∷ ps) [] = none
after_prefix (p ∷ ps) (x ∷ xs) = let rest = after_prefix ps xs in if p == x then rest else none

abbrev or_else {ℓ} : {A : Type ℓ} → Option A → Option A → Option A
or_else (some a) other = some a
or_else none other = other

-- What follows the last occurrence of `marker`.
unfoldable pub after_last : List ℕ → List ℕ → Option (List ℕ)
unfolding after_prefix
after_last marker [] = after_prefix marker []
after_last marker (x ∷ xs) = or_else (after_last marker xs) (after_prefix marker (x ∷ xs))

abbrev pub get_or : List ℕ → Option (List ℕ) → List ℕ
get_or d none = d
get_or d (some r) = r

abbrev pub think_end : List ℕ
think_end = codes "</think>"

-- `raw.rsplit("</think>", 1)[-1]`
unfoldable pub after_thinking : List ℕ → List ℕ
unfolding after_last
after_thinking raw = get_or raw (after_last think_end raw)

unfoldable pub strip_left : (ℕ → Bool) → List ℕ → List ℕ
strip_left p [] = []
strip_left p (x ∷ xs) = let rest = strip_left p xs in if p x then rest else x ∷ xs

abbrev cons_unless_blank : (ℕ → Bool) → ℕ → List ℕ → List ℕ
cons_unless_blank p x [] = if p x then [] else x ∷ []
cons_unless_blank p x (y ∷ ys) = x ∷ y ∷ ys

unfoldable pub strip_right : (ℕ → Bool) → List ℕ → List ℕ
strip_right p [] = []
strip_right p (x ∷ xs) = cons_unless_blank p x (strip_right p xs)

unfoldable pub strip : (ℕ → Bool) → List ℕ → List ℕ
unfolding strip_left strip_right
strip p xs = strip_right p (strip_left p xs)

-- The first of the words of a stripped text; the empty list for the empty text.
unfoldable pub first_word : (ℕ → Bool) → List ℕ → List ℕ
first_word p [] = []
first_word p (x ∷ xs) = let rest = first_word p xs in if p x then [] else x ∷ rest

abbrev pub is_punctuation : ℕ → Bool
is_punctuation c =
    c == b'.' || c == b',' || c == b':' || c == b';' || c == b'!' || c == b'?' || c == 34 || c == 39

abbrev pub word : TickDecision → List ℕ
word TickDecision.idle = codes "idle"
word TickDecision.act = codes "act"
word TickDecision.escalate = codes "escalate"

-- `TickDecision(first_word)`, with `none` for the `ValueError`.
unfoldable pub of_word : List ℕ → Option TickDecision
of_word w =
    if same w (word TickDecision.idle)
    then some TickDecision.idle
    else if same w (word TickDecision.act)
    then some TickDecision.act
    else if same w (word TickDecision.escalate)
    then some TickDecision.escalate
    else none

pub record Unicode : Type 0 where
  pub is_space : ℕ → Bool
  pub lower : List ℕ → List ℕ

module _ (u : Unicode) where
  unfoldable pub try_parse_decision : List ℕ → Option TickDecision
  unfolding after_thinking strip first_word of_word
  try_parse_decision raw =
      let normalized = u.lower (strip u.is_space (after_thinking raw)) in
      of_word (strip is_punctuation (first_word u.is_space normalized))

  unfoldable pub parse_decision : List ℕ → TickDecision
  unfolding try_parse_decision
  parse_decision raw = elim (try_parse_decision raw) [ none ↦ TickDecision.idle | some d ↦ d ]
