-- ===== src/Heart/Decision/Thinking.antt =====
-- The reasoning of a model, up to its closing tag, has no part in the decision.
use ansina.Prelude.{
  ℕ, ◌≡◌, refl, ap, sym, ◌∙◌, Option, none, some, List, [], ◌∷◌, ◌++◌, Option-cases, inl, inr,
}
use ansina.Heart.Decision.{
  after_prefix, after_last, get_or, think_end, after_thinking, Unicode, try_parse_decision,
  parse_decision,
}

-- What follows the last occurrence is the same behind any prefix.
after_last-append :
    (marker before text r : List ℕ)
    → after_last marker text ≡ some r
    → after_last marker (before ++ text) ≡ some r
unfolding after_last
after_last-append marker [] text r e = e
after_last-append marker (x ∷ before) text r e = rw (after_last-append marker before text r e) refl

-- The tag does not overlap with itself.
after_last-tag_found :
    (rest r : List ℕ)
    → after_last think_end rest ≡ some r
    → after_last think_end (think_end ++ rest) ≡ some r
unfolding after_last
after_last-tag_found rest r e = rw e refl

after_last-tag_none :
    (rest : List ℕ)
    → after_last think_end rest ≡ none
    → after_last think_end (think_end ++ rest) ≡ some rest
unfolding after_last after_prefix
after_last-tag_none rest e = rw e refl

after_thinking_lem :
    (raw : List ℕ) (o : Option (List ℕ))
    → after_last think_end raw ≡ o
    → after_thinking raw ≡ get_or raw o
unfolding after_thinking
after_thinking_lem raw o e = ap (get_or raw) e

after_thinking-append :
    (before rest : List ℕ) → after_thinking (before ++ (think_end ++ rest)) ≡ after_thinking rest
after_thinking-append before rest = elim (Option-cases (after_last think_end rest)) [
  | inl absent ↦
      after_thinking_lem (before ++ (think_end ++ rest)) (some rest) (
        after_last-append think_end before (think_end ++ rest) rest
          (after_last-tag_none rest absent))
      ∙ sym (after_thinking_lem rest none absent)
  | inr (r, found) ↦
      after_thinking_lem (before ++ (think_end ++ rest)) (some r) (
        after_last-append think_end before (think_end ++ rest) r
          (after_last-tag_found rest r found))
      ∙ sym (after_thinking_lem rest (some r) found)
]

try_parse_decision-append :
    (u : Unicode) (before rest : List ℕ)
    → try_parse_decision u (before ++ (think_end ++ rest)) ≡ try_parse_decision u rest
unfolding try_parse_decision
try_parse_decision-append u before rest = rw (after_thinking-append before rest) refl

-- A reply is parsed as what follows a closing think tag in it is parsed: whatever words the
-- reasoning before the tag has, they neither make nor change a decision.
pub parse_decision-append :
    (u : Unicode) (before rest : List ℕ)
    → (try_parse_decision u (before ++ (think_end ++ rest)) ≡ try_parse_decision u rest)
      × (parse_decision u (before ++ (think_end ++ rest)) ≡ parse_decision u rest)
unfolding parse_decision
parse_decision-append u before rest =
    let same = try_parse_decision-append u before rest in (same, rw (parse_decision, same) refl)
