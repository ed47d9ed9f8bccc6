-- ===== src/Json.antt =====
-- What Python's `json.loads` gives, as far as the code tells its values apart; the function itself is a
-- parameter of those that call it.
use ansina.Prelude.{Option, none, some, List, [], ◌∷◌, ℕ, Bool, ℤ, if◌then◌else◌}
use ansina.Heart.Decision.{same}

pub data Json : Type 0 where
  text : List ℕ → Json
  number : ℤ → Json
  boolean : Bool → Json
  null other : Json

-- An object, another value, a `JSONDecodeError`, or another exception.
pub data Loaded : Type 0 where
  object : List (List ℕ × Json) → Loaded
  not_object decode_error raised : Loaded

-- `obj.get(key)`, for an object whose keys are distinct.
unfoldable pub field : List ℕ → List (List ℕ × Json) → Option Json
field key [] = none
field key ((k, v) ∷ fields) = let rest = field key fields in if same k key then some v else rest
