-- ===== src/Opencode/Events/Codec.antt =====
-- UTF-8: a character's bytes give it back, and a beginning of them gives nothing.
use ansina.Prelude.{
  ℕ, zero, suc, ◌+◌, ◌-◌, ◌*◌, ◌/◌, ◌%◌, ◌≤◌, ◌<◌, ◌≡◌, refl, ap, ◌∙◌, List, [], ◌∷◌, ◌++◌, true,
  false, ltb, ◌==◌, length, arith, Bool-cases, inl, inr,
}
use ansina.Opencode.Events.{
  encode_char, is_surrogate, Partial, complete, lead, take_byte, decode_ignore, take_bytes,
}

abbrev state : ℕ → ℕ → ℕ → ℕ → Partial
state need bits low high = record { need = need; bits = bits; low = low; high = high }

-- A byte that continues a character.
take_byte-last :
    (bits low high b : ℕ)
    → low ≤ b
    → b ≤ high
    → take_byte (state 1 bits low high) b ≡ ((bits * 64 + (b - 128)) ∷ [], complete)
take_byte-last bits low high b h k =
    let x : ltb b low ≡ false = ground arith in
    let y : ltb high b ≡ false = ground arith in rw (x, y) refl

take_byte-two :
    (bits low high b : ℕ)
    → low ≤ b
    → b ≤ high
    → take_byte (state 2 bits low high) b ≡ ([], state 1 (bits * 64 + (b - 128)) 128 191)
take_byte-two bits low high b h k =
    let x : ltb b low ≡ false = ground arith in
    let y : ltb high b ≡ false = ground arith in rw (x, y) refl

take_byte-three :
    (bits low high b : ℕ)
    → low ≤ b
    → b ≤ high
    → take_byte (state 3 bits low high) b ≡ ([], state 2 (bits * 64 + (b - 128)) 128 191)
take_byte-three bits low high b h k =
    let x : ltb b low ≡ false = ground arith in
    let y : ltb high b ≡ false = ground arith in rw (x, y) refl

-- The first byte of a longer character, with bounds that its second byte keeps.
lead-two :
    (c : ℕ) → 128 ≤ c → c < 2048 → lead (192 + c / 64) ≡ ([], state 1 (192 + c / 64 - 192) 128 191)
lead-two c h k =
    let a : ltb (192 + c / 64) 128 ≡ false = ground arith in
    let b : ltb (192 + c / 64) 194 ≡ false = ground arith in
    let d : ltb (192 + c / 64) 224 ≡ true = ground arith in rw (a, b, d) refl

lead-three :
    (c : ℕ)
    → 2048 ≤ c
    → c < 65536
    → is_surrogate c ≡ false
    → (low : ℕ) × (high : ℕ) × (lead (224 + c / 4096) ≡ ([], state 2 (c / 4096) low high))
      × (low ≤ 128 + c / 64 % 64)
      × (128 + c / 64 % 64 ≤ high)
lead-three c h k s =
    let a : ltb (224 + c / 4096) 128 ≡ false = ground arith in
    let b : ltb (224 + c / 4096) 194 ≡ false = ground arith in
    let d : ltb (224 + c / 4096) 224 ≡ false = ground arith in
    elim (Bool-cases (224 + c / 4096 == 224)) [
      | inl first ↦
          let zero_bits : c / 4096 ≡ 0 = ground arith in
          (160, 191, rw (a, b, d, first, zero_bits) refl, omega arith, omega arith)
      | inr not_first ↦ elim (Bool-cases (224 + c / 4096 == 237)) [
        | inl before_surrogates ↦
            let bits : c / 4096 ≡ 13 = ground arith in
            let below : c < 55296 = ground arith in
            (
              128,
              159,
              rw (a, b, d, not_first, before_surrogates, bits) refl,
              omega arith,
              omega arith,
            )
        | inr other ↦
            let e : ltb (224 + c / 4096) 240 ≡ true = ground arith in
            let bits : 224 + c / 4096 - 224 ≡ c / 4096 = omega arith in
            (128, 191, rw (a, b, d, not_first, other, e, bits) refl, omega arith, omega arith)
      ]
    ]

lead-four :
    (c : ℕ)
    → 65536 ≤ c
    → c < 1114112
    → (low : ℕ) × (high : ℕ) × (lead (240 + c / 262144) ≡ ([], state 3 (c / 262144) low high))
      × (low ≤ 128 + c / 4096 % 64)
      × (128 + c / 4096 % 64 ≤ high)
lead-four c h k =
    let a : ltb (240 + c / 262144) 128 ≡ false = ground arith in
    let b : ltb (240 + c / 262144) 194 ≡ false = ground arith in
    let d : ltb (240 + c / 262144) 224 ≡ false = ground arith in
    let e : (240 + c / 262144 == 224) ≡ false = ground arith in
    let f : (240 + c / 262144 == 237) ≡ false = ground arith in
    let g : ltb (240 + c / 262144) 240 ≡ false = ground arith in
    elim (Bool-cases (240 + c / 262144 == 240)) [
      | inl first ↦
          let bits : c / 262144 ≡ 0 = ground arith in
          (144, 191, rw (a, b, d, e, f, g, first, bits) refl, omega arith, omega arith)
      | inr not_first ↦ elim (Bool-cases (ltb (240 + c / 262144) 244)) [
        | inl middle ↦
            let bits : 240 + c / 262144 - 240 ≡ c / 262144 = omega arith in
            (
              128,
              191,
              rw (a, b, d, e, f, g, not_first, middle, bits) refl,
              omega arith,
              omega arith,
            )
        | inr final ↦
            let bits : c / 262144 ≡ 4 = ground arith in
            (128, 143, rw (a, b, d, e, f, g, not_first, final, bits) refl, omega arith, omega arith)
      ]
    ]

decode-next :
    (p q : Partial) (b : ℕ) (out bs : List ℕ)
    → take_byte p b ≡ (out, q)
    → decode_ignore p (b ∷ bs) ≡ out ++ decode_ignore q bs
unfolding decode_ignore
decode-next p q b out bs h = ap (λ r. r.0 ++ decode_ignore r.1 bs) h

-- A character's bytes, one after the other, give it back, and fewer of them give nothing.
pub record Reads (c : ℕ) (bytes : List ℕ) : Type 0 where
  pub whole : (bs : List ℕ) → decode_ignore complete (bytes ++ bs) ≡ c ∷ decode_ignore complete bs
  pub part :
      (n : ℕ) (bs : List ℕ)
      → n < length bytes
      → decode_ignore complete (take_bytes n (bytes ++ bs)) ≡ []

one_byte : (c : ℕ) → c < 128 → Reads c (c ∷ [])
unfolding decode_ignore take_bytes
one_byte c h = record {
  whole = λ bs. let a : ltb c 128 ≡ true = ground arith in rw a refl;
  part = go;
}
  where
    go : (n : ℕ) (bs : List ℕ) → n < 1 → decode_ignore complete (take_bytes n (c ∷ bs)) ≡ []
    go zero bs k = refl
    go (suc n) bs k = absurd (omega arith)

chain-two :
    (c b1 b2 : ℕ) (p1 : Partial)
    → take_byte complete b1 ≡ ([], p1)
    → take_byte p1 b2 ≡ (c ∷ [], complete)
    → Reads c (b1 ∷ b2 ∷ [])
unfolding decode_ignore take_bytes
chain-two c b1 b2 p1 h1 h2 = record {
  whole =
      λ bs. decode-next complete p1 b1 [] (b2 ∷ bs) h1 ∙ decode-next p1 complete b2 (c ∷ []) bs h2;
  part = go;
}
  where
    go : (n : ℕ) (bs : List ℕ) → n < 2 → decode_ignore complete (take_bytes n (b1 ∷ b2 ∷ bs)) ≡ []
    go zero bs l = refl
    go (suc zero) bs l = decode-next complete p1 b1 [] [] h1
    go (suc (suc n)) bs l = absurd (omega arith)

chain-three :
    (c b1 b2 b3 : ℕ) (p1 p2 : Partial)
    → take_byte complete b1 ≡ ([], p1)
    → take_byte p1 b2 ≡ ([], p2)
    → take_byte p2 b3 ≡ (c ∷ [], complete)
    → Reads c (b1 ∷ b2 ∷ b3 ∷ [])
unfolding decode_ignore take_bytes
chain-three c b1 b2 b3 p1 p2 h1 h2 h3 = record {
  whole = λ bs.
      decode-next complete p1 b1 [] (b2 ∷ b3 ∷ bs) h1
      ∙ decode-next p1 p2 b2 [] (b3 ∷ bs) h2
      ∙ decode-next p2 complete b3 (c ∷ []) bs h3;
  part = go;
}
  where
    go :
        (n : ℕ) (bs : List ℕ)
        → n < 3
        → decode_ignore complete (take_bytes n (b1 ∷ b2 ∷ b3 ∷ bs)) ≡ []
    go zero bs l = refl
    go (suc zero) bs l = decode-next complete p1 b1 [] [] h1
    go (suc (suc zero)) bs l =
        decode-next complete p1 b1 [] (b2 ∷ []) h1 ∙ decode-next p1 p2 b2 [] [] h2
    go (suc (suc (suc n))) bs l = absurd (omega arith)

chain-four :
    (c b1 b2 b3 b4 : ℕ) (p1 p2 p3 : Partial)
    → take_byte complete b1 ≡ ([], p1)
    → take_byte p1 b2 ≡ ([], p2)
    → take_byte p2 b3 ≡ ([], p3)
    → take_byte p3 b4 ≡ (c ∷ [], complete)
    → Reads c (b1 ∷ b2 ∷ b3 ∷ b4 ∷ [])
unfolding decode_ignore take_bytes
chain-four c b1 b2 b3 b4 p1 p2 p3 h1 h2 h3 h4 = record {
  whole = λ bs.
      decode-next complete p1 b1 [] (b2 ∷ b3 ∷ b4 ∷ bs) h1
      ∙ decode-next p1 p2 b2 [] (b3 ∷ b4 ∷ bs) h2
      ∙ decode-next p2 p3 b3 [] (b4 ∷ bs) h3
      ∙ decode-next p3 complete b4 (c ∷ []) bs h4;
  part = go;
}
  where
    go :
        (n : ℕ) (bs : List ℕ)
        → n < 4
        → decode_ignore complete (take_bytes n (b1 ∷ b2 ∷ b3 ∷ b4 ∷ bs)) ≡ []
    go zero bs l = refl
    go (suc zero) bs l = decode-next complete p1 b1 [] [] h1
    go (suc (suc zero)) bs l =
        decode-next complete p1 b1 [] (b2 ∷ []) h1 ∙ decode-next p1 p2 b2 [] [] h2
    go (suc (suc (suc zero))) bs l =
        decode-next complete p1 b1 [] (b2 ∷ b3 ∷ []) h1
        ∙ decode-next p1 p2 b2 [] (b3 ∷ []) h2
        ∙ decode-next p2 p3 b3 [] [] h3
    go (suc (suc (suc (suc n)))) bs l = absurd (omega arith)

-- What a last byte gives, by the value that its bits make.
last-value :
    (c bits low high b : ℕ)
    → low ≤ b
    → b ≤ high
    → bits * 64 + (b - 128) ≡ c
    → take_byte (state 1 bits low high) b ≡ (c ∷ [], complete)
last-value c bits low high b h k e =
    take_byte-last bits low high b h k ∙ ap (λ v. (v ∷ [], complete)) e

pub encode_char-Reads : (c : ℕ) → c < 1114112 → is_surrogate c ≡ false → Reads c (encode_char c)
encode_char-Reads c h s = elim (Bool-cases (ltb c 128)) [
  | inl one ↦ rw one (one_byte c (ground arith))
  | inr more ↦ elim (Bool-cases (ltb c 2048)) [
    | inl two ↦
        rw (more, two)
          (chain-two c (192 + c / 64) (128 + c % 64) _ (lead-two c (ground arith) (ground arith)) (
            last-value c (192 + c / 64 - 192) 128 191 (128 + c % 64) (omega arith) (omega arith)
              (omega arith)))
    | inr three_or_four ↦ elim (Bool-cases (ltb c 65536)) [
      | inl three ↦
          let (low, high, first, l, u) = lead-three c (ground arith) (ground arith) s in
          rw (more, three_or_four, three)
            (chain-three c (224 + c / 4096) (128 + c / 64 % 64) (128 + c % 64) _ _ first
              (take_byte-two (c / 4096) low high (128 + c / 64 % 64) l u)
              (last-value c (c / 4096 * 64 + (128 + c / 64 % 64 - 128)) 128 191 (128 + c % 64)
                (omega arith) (omega arith) (omega arith)))
      | inr four ↦
          let (low, high, first, l, u) = lead-four c (ground arith) h in
          rw (more, three_or_four, four)
            (chain-four c (240 + c / 262144) (128 + c / 4096 % 64) (128 + c / 64 % 64)
              (128 + c % 64) _ _ _ first
              (take_byte-three (c / 262144) low high (128 + c / 4096 % 64) l u)
              (take_byte-two (c / 262144 * 64 + (128 + c / 4096 % 64 - 128)) 128 191
                (128 + c / 64 % 64) (omega arith) (omega arith))
              (last-value c
                ((c / 262144 * 64 + (128 + c / 4096 % 64 - 128)) * 64 + (128 + c / 64 % 64 - 128))
                128 191 (128 + c % 64) (omega arith) (omega arith) (omega arith)))
    ]
  ]
]
