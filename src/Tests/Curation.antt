-- ===== src/Tests/Curation.antt =====
-- src/ansina/heart/curation.py at concrete inputs.
use ansina.Prelude.{
  ℕ, ◌-◌, ◌≡◌, refl, Option, none, some, List, [], ◌∷◌, ◌&&◌, length, leb, if◌then◌else◌, arith, ok,
}
use ansina.Heart.Decision.{codes}
use ansina.Heart.Curation.{
  CurationEvent, CurationOutcome, event_at, try_parse_curation, curate, render_event, decimal,
  member,
}
use ansina.Heart.Curation.Budget.{Fits}
use ansina.Heart.Curation.Returns.{curate-returns}
use ansina.Heart.Curation.RoundTrip.{ReadsAscii, listing, try_parse_curation-listing}

abbrev ascii_digit : ℕ → Option ℕ
ascii_digit c = if leb 48 c && leb c 57 then some (c - 48) else none

ascii_digit-ReadsAscii : ReadsAscii ascii_digit
ascii_digit-ReadsAscii = record { ten = λ d h. ground arith; comma = refl; blank = refl }

abbrev transcript : List CurationEvent
transcript =
    record { sequence = 1; raw_type = codes "start"; payload = codes "{}" }
    ∷ record { sequence = 12; raw_type = codes "error"; payload = codes "{}" }
    ∷ []

render_error :
    render_event (record { sequence = 12; raw_type = codes "error"; payload = codes "{}" })
    ≡ codes "[12] error: {}"
unfolding render_event decimal
render_error = refl

reply_in_words :
    try_parse_curation ascii_digit (codes "3, 1?</think>12 and 7, then 1; 12") (1 ∷ 12 ∷ [])
    ≡ ok (some (12 ∷ 1 ∷ []))
unfolding try_parse_curation
reply_in_words = refl

try_parse_curation-listing_example :
    try_parse_curation ascii_digit (listing (12 ∷ 1 ∷ [])) (1 ∷ 7 ∷ 12 ∷ [])
    ≡ ok (some (12 ∷ 1 ∷ []))
unfolding decimal member
try_parse_curation-listing_example =
    try_parse_curation-listing ascii_digit (1 ∷ 7 ∷ 12 ∷ []) 12 (1 ∷ []) ascii_digit-ReadsAscii
      (refl, refl, omega arith, (refl, refl, omega arith, tt))

-- The tokenizer counts characters, and the model asks for the second event and for one there is not.
curate-returns_example :
    (o : CurationOutcome) × (curate
        (λ t. length t)
        ascii_digit
        (λ t n. t)
        (λ t. codes "12, 99")
        transcript
        20
      ≡ ok o)
    × Fits (λ t. length t) transcript 20 0 o.selected
unfolding event_at curate
curate-returns_example =
    curate-returns ascii_digit (λ t. length t) (λ t n. t) (λ t. codes "12, 99") transcript 20
      (refl, (refl, tt)) (omega arith, (omega arith, tt))
