-- ===== src/Logging/Redaction.antt =====
-- src/ansina/logging/redaction.py. A text is a list of code points. The regular expressions are a
-- parameter: what a pattern makes of a text is the text in pieces, those that hold a secret marked.
pub mod Hides
use ansina.Prelude.{
  ℕ, zero, suc, ◌+◌, Option, none, some, List, [], ◌∷◌, ◌++◌, Bool, true, false, not, ◌&&◌, length,
  ltb, leb, if◌then◌else◌,
}
use ansina.Heart.Decision.{codes, same, after_prefix}

abbrev pub redacted : List ℕ
redacted = codes "***"

abbrev pub min_secret_length : ℕ
min_secret_length = 8

unfoldable pub is_registered : List ℕ → List (List ℕ) → Bool
is_registered s [] = false
is_registered s (x ∷ xs) = let rest = is_registered s xs in if same x s then true else rest

-- `register_secret`: a set, in some order.
unfoldable pub register_secret : Option (List ℕ) → List (List ℕ) → List (List ℕ)
unfolding is_registered
register_secret none secrets = secrets
register_secret (some value) secrets =
    if leb min_secret_length (length value) && not (is_registered value secrets)
    then value ∷ secrets
    else secrets

-- `sorted(secrets, key=len, reverse=True)`
unfoldable pub insert_longest : List ℕ → List (List ℕ) → List (List ℕ)
insert_longest x [] = x ∷ []
insert_longest x (y ∷ ys) =
    let rest = insert_longest x ys in if leb (length y) (length x) then x ∷ y ∷ ys else y ∷ rest

unfoldable pub longest_first : List (List ℕ) → List (List ℕ)
unfolding insert_longest
longest_first [] = []
longest_first (x ∷ xs) = insert_longest x (longest_first xs)

-- `text.replace(secret, REDACTED)`, with one unit of fuel for each character at least.
unfoldable pub replace_from : ℕ → List ℕ → List ℕ → List ℕ
replace_from zero secret t = t
replace_from (suc fuel) secret [] = []
replace_from (suc fuel) secret (c ∷ cs) = elim (after_prefix secret (c ∷ cs)) [
  | some rest ↦ redacted ++ replace_from fuel secret rest
  | none ↦ c ∷ replace_from fuel secret cs
]

unfoldable pub replace : List ℕ → List ℕ → List ℕ
unfolding replace_from
replace secret t = replace_from (suc (length t)) secret t

unfoldable pub replace_all : List (List ℕ) → List ℕ → List ℕ
unfolding replace
replace_all [] t = t
replace_all (s ∷ ss) t = replace_all ss (replace s t)

pub data Piece : Type 0 where
  plain : List ℕ → Piece
  value : List ℕ → Piece

-- `_mask_match` at each match.
unfoldable pub masked : List Piece → List ℕ
masked [] = []
masked (plain t ∷ ps) = t ++ masked ps
masked (value t ∷ ps) = redacted ++ masked ps

unfoldable pub joined : List Piece → List ℕ
joined [] = []
joined (plain t ∷ ps) = t ++ joined ps
joined (value t ∷ ps) = t ++ joined ps

abbrev pub Pattern : Type 0
Pattern = List ℕ → List Piece

unfoldable pub mask_all : List Pattern → List ℕ → List ℕ
unfolding masked
mask_all [] t = t
mask_all (p ∷ ps) t = mask_all ps (masked (p t))

unfoldable pub redact : List Pattern → List (List ℕ) → List ℕ → List ℕ
unfolding longest_first replace_all mask_all
redact patterns secrets t = mask_all patterns (replace_all (longest_first secrets) t)
