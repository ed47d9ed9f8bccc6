-- ===== src/Opencode/Events.antt =====
-- src/ansina/opencode/events.py: `_truncate_utf8`. A text is a list of code points, a lone surrogate
-- included; bytes are numbers below 256. UTF-8 is written out, both ways, as Python has it: encoding
-- raises on a surrogate, and decoding with `errors="ignore"` drops what is ill-formed.
pub mod Codec
pub mod Truncate
use ansina.Prelude.{
  ℕ, zero, suc, ◌+◌, ◌-◌, ◌*◌, ◌/◌, ◌%◌, Option, none, some, List, [], ◌∷◌, ◌++◌, Bool, true, false,
  not, ◌&&◌, ◌||◌, leb, ltb, ◌==◌, if◌then◌else◌, length, Result, ok, err,
}

pub data EncodeError : Type 0 where
  surrogate_not_allowed : EncodeError

abbrev pub encode_char : ℕ → List ℕ
encode_char c =
    if ltb c 128
    then c ∷ []
    else if ltb c 2048
    then (192 + c / 64) ∷ (128 + c % 64) ∷ []
    else if ltb c 65536
    then (224 + c / 4096) ∷ (128 + c / 64 % 64) ∷ (128 + c % 64) ∷ []
    else (240 + c / 262144) ∷ (128 + c / 4096 % 64) ∷ (128 + c / 64 % 64) ∷ (128 + c % 64) ∷ []

abbrev pub is_surrogate : ℕ → Bool
is_surrogate c = leb 55296 c && leb c 57343

unfoldable pub encode : List ℕ → Result EncodeError (List ℕ)
encode [] = ok []
encode (c ∷ cs) = elim (encode cs) [
  | err e ↦ err e
  | ok bytes ↦ if is_surrogate c then err surrogate_not_allowed else ok (encode_char c ++ bytes)
]

-- How many bytes a character still lacks, the bits so far, and the bounds of the next byte.
pub record Partial : Type 0 where
  pub need : ℕ
  pub bits : ℕ
  pub low : ℕ
  pub high : ℕ

abbrev pub complete : Partial
complete = record { need = 0; bits = 0; low = 128; high = 191 }

abbrev waits : ℕ → ℕ → ℕ → ℕ → List ℕ × Partial
waits need bits low high = ([], record { need = need; bits = bits; low = low; high = high })

abbrev pub lead : ℕ → List ℕ × Partial
lead b =
    if ltb b 128
    then (b ∷ [], complete)
    else if ltb b 194
    then ([], complete)
    else if ltb b 224
    then waits 1 (b - 192) 128 191
    else if b == 224
    then waits 2 0 160 191
    else if b == 237
    then waits 2 13 128 159
    else if ltb b 240
    then waits 2 (b - 224) 128 191
    else if b == 240
    then waits 3 0 144 191
    else if ltb b 244
    then waits 3 (b - 240) 128 191
    else if b == 244
    then waits 3 4 128 143
    else ([], complete)

abbrev pub take_byte : Partial → ℕ → List ℕ × Partial
take_byte p b =
    if p.need == 0 || ltb b p.low || ltb p.high b
    then lead b
    else if p.need == 1
    then ((p.bits * 64 + (b - 128)) ∷ [], complete)
    else waits (p.need - 1) (p.bits * 64 + (b - 128)) 128 191

unfoldable pub decode_ignore : Partial → List ℕ → List ℕ
decode_ignore p [] = []
decode_ignore p (b ∷ bs) = let (out, q) = take_byte p b in out ++ decode_ignore q bs

unfoldable pub take_bytes : ℕ → List ℕ → List ℕ
take_bytes zero bs = []
take_bytes (suc n) [] = []
take_bytes (suc n) (b ∷ bs) = b ∷ take_bytes n bs

abbrev cut : List ℕ → ℕ → Result EncodeError (List ℕ) → Result EncodeError (List ℕ)
cut text max_bytes (err e) = err e
cut text max_bytes (ok encoded) =
    if leb (length encoded) max_bytes
    then ok text
    else ok (decode_ignore complete (take_bytes max_bytes encoded))

unfoldable pub truncate_utf8 : List ℕ → ℕ → Result EncodeError (List ℕ)
unfolding encode decode_ignore take_bytes
truncate_utf8 text max_bytes = cut text max_bytes (encode text)
