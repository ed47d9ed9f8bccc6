-- ===== src/Tests/Events.antt =====
-- Texts of events that are cut, at concrete inputs.
use ansina.Prelude.{ℕ, ◌≡◌, refl, List, [], ◌∷◌, ok, err, if◌then◌else◌, arith}
use ansina.Opencode.Events.{EncodeError, truncate_utf8}
use ansina.Opencode.Events.Truncate.{longest, has_surrogate, truncate_utf8-longest}

-- One letter of one byte, one of two, one of three and one of four: nine bytes end before the last.
abbrev letters : List ℕ
letters = 104 ∷ 233 ∷ 8364 ∷ 128512 ∷ []

cut_inside_a_character : truncate_utf8 letters 9 ≡ ok (104 ∷ 233 ∷ 8364 ∷ [])
unfolding truncate_utf8
cut_inside_a_character = refl

lone_surrogate : truncate_utf8 (104 ∷ 55296 ∷ []) 1 ≡ err EncodeError.surrogate_not_allowed
unfolding truncate_utf8
lone_surrogate = refl

truncate_utf8-longest_example : truncate_utf8 letters 9 ≡ (
    if has_surrogate letters then err EncodeError.surrogate_not_allowed else ok (longest 9 letters))
truncate_utf8-longest_example =
    truncate_utf8-longest letters 9 (omega arith, (omega arith, (omega arith, (omega arith, tt))))
