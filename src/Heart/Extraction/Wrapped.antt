-- ===== src/Heart/Extraction/Wrapped.antt =====
-- An answer inside other text is read as the answer alone.
use mathlib.Core.Path.{subst, sym}
use ansina.Prelude.{
  ℕ, ◌≡◌, refl, ap, ◌∙◌, inl, inr, Option, some, List, [], ◌∷◌, ◌++◌, true, arith, Bool-cases,
  Result, ok, err,
}
use ansina.Heart.Decision.{same, Unicode}
use ansina.Heart.Extraction.{
  ExtractionError, first_balanced_object, answer, first_object, parse_json_object,
}
use ansina.Json.{Json, Loaded, object, not_object, decode_error, raised}
use ansina.Heart.Extraction.Balanced.{openings, IsBalanced, first_balanced_object_complete}

pub same-eq : (xs ys : List ℕ) → same xs ys ≡ true → xs ≡ ys
same-eq [] [] h = refl
same-eq [] (y ∷ ys) h = cc
same-eq (x ∷ xs) [] h = cc
same-eq (x ∷ xs) (y ∷ ys) h = ground (arith, same-eq xs ys)

-- The text is no object by itself: it does not parse, or it is another value.
abbrev pub IsNoObject : Loaded → Type 0
IsNoObject (object fields) = ⊥
IsNoObject not_object = Unit {0}
IsNoObject decode_error = Unit {0}
IsNoObject raised = ⊥

module _ (u : Unicode) (loads : List ℕ → Loaded) where
  first_object-skips :
      (t : List ℕ) (ts : List (List ℕ))
      → IsNoObject (loads t)
      → first_object u loads (t ∷ ts) ≡ first_object u loads ts
  unfolding first_object
  first_object-skips t ts h = skips (loads t) h
    where
      skips :
          (l : Loaded)
          → IsNoObject l
          → (elim l as (λ _. Result ExtractionError (Option (List (List ℕ × Json)))) [
            | object fields ↦ ok (some fields)
            | not_object ↦ first_object u loads ts
            | decode_error ↦ first_object u loads ts
            | raised ↦ err ExtractionError.loads_raised
          ])
            ≡ first_object u loads ts
      skips (object fields) n = elim n [ ]
      skips not_object n = refl
      skips decode_error n = refl
      skips raised n = elim n [ ]

  first_object-takes :
      (t : List ℕ) (ts : List (List ℕ)) (fields : List (List ℕ × Json))
      → loads t ≡ object fields
      → first_object u loads (t ∷ ts) ≡ ok (some fields)
  unfolding first_object
  first_object-takes t ts fields h = rw (first_object, h) refl

  -- A reply whose answer, behind the last `</think>` and stripped, is a text without an opening
  -- brace, a balanced object, and any text: if the answer as a whole is no JSON object, what is read
  -- is the object in it. So a preamble or a code fence does not hide an object, whatever follows it.
  pub parse_json_object-wrapped :
      (raw pre o post : List ℕ) (fields : List (List ℕ × Json))
      → answer u raw ≡ pre ++ (o ++ post)
      → openings pre ≡ 0
      → IsBalanced o
      → IsNoObject (loads (answer u raw))
      → loads o ≡ object fields
      → parse_json_object u loads raw ≡ ok (some fields)
  unfolding parse_json_object
  parse_json_object-wrapped raw pre o post fields splits free balanced whole inner =
      let found : first_balanced_object (answer u raw) ≡ some o =
        ap first_balanced_object splits ∙ first_balanced_object_complete pre o post free balanced in
      rw found (elim (Bool-cases (same o (answer u raw))) [
        | inl all ↦
            absurd (subst IsNoObject (ap loads (sym (same-eq o (answer u raw) all)) ∙ inner) whole)
        | inr part ↦ rw part (
            first_object-skips (answer u raw) (o ∷ []) whole ∙ first_object-takes o [] fields inner)
      ])
