-- ===== src/Heart/Triage/Routes.antt =====
-- When a request is kept from the Brain.
use ansina.Prelude.{ℕ, ◌≡◌, ◌↔◌, refl, List, false, not, arith}
use ansina.Heart.Decision.{codes, same, Unicode}
use ansina.Heart.Extraction.Wrapped.{same-eq}
use ansina.Heart.Triage.{
  routes_to_brain, variant_of, leading_word, try_parse_triage, parse_triage, class_of, classify,
  outcome_routes,
}

module _ (u : Unicode) where
  class_of_lem : (raw : List ℕ) → class_of u (try_parse_triage u raw) raw ≡ parse_triage u raw
  unfolding parse_triage
  class_of_lem raw = ground arith

  routes-parse_triage :
      (raw : List ℕ)
      → routes_to_brain (parse_triage u raw) ≡ not (same (leading_word u raw) (codes "trivial"))
  unfolding parse_triage try_parse_triage variant_of routes_to_brain
  routes-parse_triage raw = ground arith

  module _ (generate format : List ℕ → List ℕ) (token_count : List ℕ → ℕ) where
    -- A request is kept from the Brain exactly when the reply begins with the word "trivial":
    -- behind the last `</think>`, stripped, in lower case and without punctuation. Any other reply,
    -- one that no class can be read from included, sends the request to the Brain.
    pub classify-routes :
        (request : List ℕ)
        → (outcome_routes (classify u generate format token_count request) ≡ false)
          ↔ (leading_word u (generate (format request)) ≡ codes "trivial")
    unfolding classify
    classify-routes request =
        let raw = generate (format request) in
        rw (class_of_lem raw, routes-parse_triage raw)
          (λ h. same-eq (leading_word u raw) (codes "trivial") (ground arith), λ h. rw h refl)
