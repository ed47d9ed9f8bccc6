-- ===== src/Opencode/Events/Truncate.antt =====
-- What is left of a text that is cut at a number of bytes.
use ansina.Prelude.{
  ℕ, zero, suc, ◌+◌, ◌-◌, ◌≤◌, ◌<◌, ◌≡◌, refl, ap, sym, ◌∙◌, List, [], ◌∷◌, ◌++◌, Bool, true, false,
  ◌||◌, leb, if◌then◌else◌, length, length-append, ok, err, arith, Bool-cases, inl, inr, All,
}
use ansina.Opencode.Events.{
  EncodeError, encode_char, is_surrogate, encode, complete, decode_ignore, take_bytes,
  truncate_utf8,
}
use ansina.Opencode.Events.Codec.{encode_char-Reads}

-- As many characters from the front as fit into a number of bytes.
pub longest : ℕ → List ℕ → List ℕ
longest n [] = []
longest n (c ∷ cs) =
    let rest = longest (n - length (encode_char c)) cs in
    if leb (length (encode_char c)) n then c ∷ rest else []

pub has_surrogate : List ℕ → Bool
has_surrogate [] = false
has_surrogate (c ∷ cs) = is_surrogate c || has_surrogate cs

bytes : List ℕ → List ℕ
bytes [] = []
bytes (c ∷ cs) = encode_char c ++ bytes cs

encode-bytes :
    (cs : List ℕ)
    → encode cs
      ≡ (if has_surrogate cs then err EncodeError.surrogate_not_allowed else ok (bytes cs))
unfolding encode has_surrogate bytes
encode-bytes [] = refl
encode-bytes (c ∷ cs) =
    let rest = encode-bytes cs in
    elim (Bool-cases (has_surrogate cs)) [
      | inl later ↦
          let e : encode cs ≡ err EncodeError.surrogate_not_allowed = rw later at rest in
          rw (encode, e, later) (ground arith)
      | inr none_later ↦
          let e : encode cs ≡ ok (bytes cs) = rw none_later at rest in
          elim (Bool-cases (is_surrogate c)) [
            | inl here ↦ rw (encode, e, here) refl
            | inr fine ↦ rw (encode, e, fine, none_later) refl
          ]
    ]

take_bytes-append :
    (n : ℕ) (xs ys : List ℕ)
    → length xs ≤ n
    → take_bytes n (xs ++ ys) ≡ xs ++ take_bytes (n - length xs) ys
unfolding take_bytes
take_bytes-append n [] ys h = let same : n - 0 ≡ n = omega arith in rw same refl
take_bytes-append zero (x ∷ xs) ys h = absurd (omega arith)
take_bytes-append (suc n) (x ∷ xs) ys h =
    let same : suc n - suc (length xs) ≡ n - length xs = omega arith in
    rw same (ap (λ r. x ∷ r) (take_bytes-append n xs ys (omega arith)))

decode_ignore-longest :
    (n : ℕ) (cs : List ℕ)
    → All (λ c. c < 1114112) cs
    → has_surrogate cs ≡ false
    → decode_ignore complete (take_bytes n (bytes cs)) ≡ longest n cs
unfolding longest bytes has_surrogate decode_ignore take_bytes
decode_ignore-longest zero [] all s = refl
decode_ignore-longest (suc n) [] all s = refl
decode_ignore-longest n (c ∷ cs) (h, all) s =
    let reads = encode_char-Reads c h (ground arith) in
    elim (Bool-cases (leb (length (encode_char c)) n)) [
      | inl fits ↦
          rw (fits, take_bytes-append n (encode_char c) (bytes cs) (ground arith))
            (reads.whole (take_bytes (n - length (encode_char c)) (bytes cs))
              ∙ ap (λ r. c ∷ r)
                  (decode_ignore-longest (n - length (encode_char c)) cs all (ground arith)))
      | inr cut_here ↦ rw cut_here (reads.part n (bytes cs) (ground arith))
    ]

longest-all : (n : ℕ) (cs : List ℕ) → length (bytes cs) ≤ n → longest n cs ≡ cs
unfolding longest bytes
longest-all n [] h = refl
longest-all n (c ∷ cs) h =
    let total = length-append (encode_char c) (bytes cs) in
    let bound : length (encode_char c) + length (bytes cs) ≤ n = omega (arith, total, h) in
    let fits : leb (length (encode_char c)) n ≡ true = ground arith in
    rw fits (ap (λ r. c ∷ r) (longest-all (n - length (encode_char c)) cs (omega (arith, bound))))

-- A text of Unicode's code points is cut to as many of its characters, from the front, as fit into
-- the given number of UTF-8 bytes, and never inside a character; but if it holds a lone surrogate
-- anywhere, however far behind the limit, the call raises.
pub truncate_utf8-longest :
    (cs : List ℕ) (n : ℕ)
    → All (λ c. c < 1114112) cs
    → truncate_utf8 cs n
      ≡ (if has_surrogate cs then err EncodeError.surrogate_not_allowed else ok (longest n cs))
unfolding truncate_utf8
truncate_utf8-longest cs n all = elim (Bool-cases (has_surrogate cs)) [
  | inl lone ↦
      let e : encode cs ≡ err EncodeError.surrogate_not_allowed = rw lone at (encode-bytes cs) in
      rw (truncate_utf8, e, lone) refl
  | inr none_lone ↦
      let e : encode cs ≡ ok (bytes cs) = rw none_lone at (encode-bytes cs) in
      elim (Bool-cases (leb (length (bytes cs)) n)) [
        | inl all_fit ↦
            rw (truncate_utf8, e, none_lone, all_fit)
              (ap ok (sym (longest-all n cs (ground arith))))
        | inr too_long ↦
            rw (truncate_utf8, e, none_lone, too_long)
              (ap ok (decode_ignore-longest n cs all none_lone))
      ]
]
