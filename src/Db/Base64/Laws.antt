-- ===== src/Db/Base64/Laws.antt =====
-- A cursor is read back as it was written.
use shaperail.Prelude.{
  ℕ, ◌+◌, ◌*◌, ◌%◌, ◌<◌, List, [], ◌∷◌, ◌++◌, All, length, ◌≡◌, refl, ap, arith,
}
use shaperail.Db.Base64.{
  good, char_of, six_bits, encode_one, encode_two, encode_three, base64_encode, base64_decode,
  decode_chunks,
}
use shaperail.Db.Base64.Digits.{
  char_of_ascii, char_to_val-char_of, char_of_not_padding, padding_value,
}

abbrev pub IsByte : ℕ → Type 0
IsByte b = b < 256

six : (triple at : ℕ) → six_bits triple at < 64
six triple at = omega arith

-- Four groups of six bits make up the triple.
joined :
    (triple : ℕ)
    → triple < 16777216
    → six_bits triple 262144 * 262144
        + six_bits triple 4096 * 4096
        + six_bits triple 64 * 64
        + six_bits triple 1
      ≡ triple
joined triple h = omega arith

joined_two :
    (triple : ℕ)
    → triple < 16777216
    → triple % 64 ≡ 0
    → six_bits triple 262144 * 262144 + six_bits triple 4096 * 4096 + six_bits triple 64 * 64 + 0
      ≡ triple
joined_two triple h e = omega arith

joined_one :
    (triple : ℕ)
    → triple < 16777216
    → triple % 4096 ≡ 0
    → six_bits triple 262144 * 262144 + six_bits triple 4096 * 4096 + 0 * 64 + 0 ≡ triple
joined_one triple h e = omega arith

good_cong :
    {a b c d e f : ℕ} {xs : List ℕ}
    → a ≡ d
    → b ≡ e
    → c ≡ f
    → good (a ∷ b ∷ c ∷ xs) ≡ good (d ∷ e ∷ f ∷ xs)
good_cong p q r = rw (p, q, r) refl

pair_cong : {a b c d : ℕ} → a ≡ c → b ≡ d → good (a ∷ b ∷ []) ≡ good (c ∷ d ∷ [])
pair_cong p q = rw (p, q) refl

module _ (b0 : ℕ) (h0 : IsByte b0) where
  decode_one : decode_chunks (encode_one b0) ≡ good (b0 ∷ [])
  unfolding decode_chunks
  decode_one =
      let triple : ℕ = b0 * 65536 in
      rw
        (
          char_to_val-char_of (six_bits triple 262144) (six triple 262144),
          char_to_val-char_of (six_bits triple 4096) (six triple 4096),
          padding_value,
          joined_one triple (omega arith) (omega arith),
        )
        (ap (λ b. good (b ∷ [])) (omega arith))

  module _ (b1 : ℕ) (h1 : IsByte b1) where
    decode_two : decode_chunks (encode_two b0 b1) ≡ good (b0 ∷ b1 ∷ [])
    unfolding decode_chunks
    decode_two =
        let triple : ℕ = b0 * 65536 + b1 * 256 in
        rw
          (
            char_to_val-char_of (six_bits triple 262144) (six triple 262144),
            char_to_val-char_of (six_bits triple 4096) (six triple 4096),
            char_to_val-char_of (six_bits triple 64) (six triple 64),
            char_of_not_padding (six_bits triple 64) (six triple 64),
            padding_value,
            joined_two triple (omega arith) (omega arith),
          )
          (pair_cong (omega arith) (omega arith))

    module _ (b2 : ℕ) (h2 : IsByte b2) where
      decode_three :
          (rest later : List ℕ)
          → decode_chunks rest ≡ good later
          → decode_chunks (encode_three b0 b1 b2 ++ rest) ≡ good (b0 ∷ b1 ∷ b2 ∷ later)
      unfolding decode_chunks
      decode_three rest later e =
          let triple : ℕ = b0 * 65536 + b1 * 256 + b2 in
          rw
            (
              char_to_val-char_of (six_bits triple 262144) (six triple 262144),
              char_to_val-char_of (six_bits triple 4096) (six triple 4096),
              char_to_val-char_of (six_bits triple 64) (six triple 64),
              char_to_val-char_of (six_bits triple 1) (six triple 1),
              char_of_not_padding (six_bits triple 64) (six triple 64),
              char_of_not_padding (six_bits triple 1) (six triple 1),
              e,
              joined triple (omega arith),
            )
            (good_cong (omega arith) (omega arith) (omega arith))

decode_chunks-base64_encode :
    (bytes : List ℕ) → All IsByte bytes → decode_chunks (base64_encode bytes) ≡ good bytes
unfolding base64_encode decode_chunks
decode_chunks-base64_encode [] h = refl
decode_chunks-base64_encode (b0 ∷ []) h = decode_one b0 h.0
decode_chunks-base64_encode (b0 ∷ b1 ∷ []) h = decode_two b0 h.0 b1 h.1.0
decode_chunks-base64_encode (b0 ∷ b1 ∷ b2 ∷ rest) h =
    decode_three b0 h.0 b1 h.1.0 b2 h.1.1.0 (base64_encode rest) rest
      (decode_chunks-base64_encode rest h.1.1.1)

length-base64_encode : (bytes : List ℕ) → length (base64_encode bytes) % 4 ≡ 0
unfolding base64_encode
length-base64_encode [] = refl
length-base64_encode (b0 ∷ []) = refl
length-base64_encode (b0 ∷ b1 ∷ []) = refl
length-base64_encode (b0 ∷ b1 ∷ b2 ∷ rest) = omega (arith, length-base64_encode rest)

-- Whatever bytes are written as base64, reading them gives the same bytes: chunks that are full and
-- the padded last one of one or two bytes.
pub base64_decode-base64_encode :
    (bytes : List ℕ) → All IsByte bytes → base64_decode (base64_encode bytes) ≡ good bytes
unfolding base64_decode
base64_decode-base64_encode bytes h =
    rw (length-base64_encode bytes) (decode_chunks-base64_encode bytes h)

abbrev pub IsAscii : ℕ → Type 0
IsAscii c = c < 128

sextet_ascii : (triple at : ℕ) → char_of (six_bits triple at) < 128
sextet_ascii triple at = char_of_ascii (six_bits triple at) (six triple at)

pub base64_encode-IsAscii : (bytes : List ℕ) → All IsAscii (base64_encode bytes)
unfolding base64_encode
base64_encode-IsAscii [] = tt
base64_encode-IsAscii (b0 ∷ []) =
    let triple : ℕ = b0 * 65536 in
    (sextet_ascii triple 262144, (sextet_ascii triple 4096, (omega arith, (omega arith, tt))))
base64_encode-IsAscii (b0 ∷ b1 ∷ []) =
    let triple : ℕ = b0 * 65536 + b1 * 256 in
    (
      sextet_ascii triple 262144,
      (sextet_ascii triple 4096, (sextet_ascii triple 64, (omega arith, tt))),
    )
base64_encode-IsAscii (b0 ∷ b1 ∷ b2 ∷ rest) =
    let triple : ℕ = b0 * 65536 + b1 * 256 + b2 in
    (
      sextet_ascii triple 262144,
      (
        sextet_ascii triple 4096,
        (sextet_ascii triple 64, (sextet_ascii triple 1, base64_encode-IsAscii rest)),
      ),
    )
