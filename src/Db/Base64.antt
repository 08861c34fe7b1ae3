-- ===== src/Db/Base64.antt =====
-- shaperail-runtime/src/db/pagination.rs: the base64 code of cursors, on bytes. The bits that the source joins
-- by `|` do not overlap, so that they are sums here.
pub mod Digits
pub mod Laws
use shaperail.Prelude.{
  ℕ, zero, suc, ◌+◌, ◌-◌, ◌*◌, ◌/◌, ◌%◌, String, List, [], ◌∷◌, ◌++◌, Option, none, some, Bool,
  true, false, ◌&&◌, leb, eqb, if◌then◌else◌, length, get_elem?, unwrap_or,
}
use Prim.Native.String as Str
use Prim.Native.Char.{code}

-- A value, or the text of an error.
pub data Decoded (A : Type 0) : Type 0 where
  good : A → Decoded A
  bad : String → Decoded A

infixl 5 ◌>>=◌
abbrev pub ◌>>=◌ : {A B : Type 0} → Decoded A → (A → Decoded B) → Decoded B
good a >>= next = next a
bad e >>= next = bad e

abbrev pub codes : String → List ℕ
codes Str.[] = []
codes (Str.◌∷◌ c s) = code c ∷ codes s

abbrev pub chars : List ℕ
chars = codes "ABCDEFGHIJKLMNOPQRSTUVWXYZabcdefghijklmnopqrstuvwxyz0123456789+/"

-- `CHARS[v]` for a value of six bits.
unfoldable pub char_of : ℕ → ℕ
char_of v = unwrap_or (get_elem? chars v) 0

unfoldable pub char_to_val : ℕ → Decoded ℕ
char_to_val c =
    if leb b'A' c && leb c b'Z'
    then good (c - b'A')
    else if leb b'a' c && leb c b'z'
    then good (c - b'a' + 26)
    else if leb b'0' c && leb c b'9'
    then good (c - b'0' + 52)
    else if eqb c b'+'
    then good 62
    else if eqb c b'/'
    then good 63
    else if eqb c b'='
    then good 0
    else bad "invalid base64 character"

-- The six bits of a triple of bytes that start at that power of two.
abbrev pub six_bits : (triple at : ℕ) → ℕ
six_bits triple at = triple / at % 64

-- A chunk of one, two or three bytes.
abbrev pub encode_one : ℕ → List ℕ
encode_one b0 =
    let triple : ℕ = b0 * 65536 in
    char_of (six_bits triple 262144) ∷ char_of (six_bits triple 4096) ∷ b'=' ∷ b'=' ∷ []

abbrev pub encode_two : ℕ → ℕ → List ℕ
encode_two b0 b1 =
    let triple : ℕ = b0 * 65536 + b1 * 256 in
    char_of (six_bits triple 262144)
    ∷ char_of (six_bits triple 4096)
    ∷ char_of (six_bits triple 64)
    ∷ b'='
    ∷ []

abbrev pub encode_three : ℕ → ℕ → ℕ → List ℕ
encode_three b0 b1 b2 =
    let triple : ℕ = b0 * 65536 + b1 * 256 + b2 in
    char_of (six_bits triple 262144)
    ∷ char_of (six_bits triple 4096)
    ∷ char_of (six_bits triple 64)
    ∷ char_of (six_bits triple 1)
    ∷ []

unfoldable pub base64_encode : List ℕ → List ℕ
base64_encode [] = []
base64_encode (b0 ∷ []) = encode_one b0
base64_encode (b0 ∷ b1 ∷ []) = encode_two b0 b1
base64_encode (b0 ∷ b1 ∷ b2 ∷ rest) = encode_three b0 b1 b2 ++ base64_encode rest

-- The bytes of four digits: a third and a second one only where the digit is no padding.
abbrev pub bytes_of : (third fourth triple : ℕ) → List ℕ
bytes_of third fourth triple =
    triple / 65536 % 256 ∷ (if eqb third b'=' then [] else triple / 256 % 256 ∷ [])
    ++ (if eqb fourth b'=' then [] else triple % 256 ∷ [])

abbrev pub decode_chunk : (c0 c1 c2 c3 : ℕ) → Decoded (List ℕ)
decode_chunk c0 c1 c2 c3 = do
  a ← char_to_val c0
  b ← char_to_val c1
  c ← char_to_val c2
  d ← char_to_val c3
  good (bytes_of c2 c3 (a * 262144 + b * 4096 + c * 64 + d))

-- Only called where the length is a multiple of four.
unfoldable pub decode_chunks : List ℕ → Decoded (List ℕ)
decode_chunks (c0 ∷ c1 ∷ c2 ∷ c3 ∷ rest) = do
  bytes ← decode_chunk c0 c1 c2 c3
  later ← decode_chunks rest
  good (bytes ++ later)
decode_chunks short = good []

unfoldable pub base64_decode : List ℕ → Decoded (List ℕ)
unfolding decode_chunks
base64_decode input =
    if eqb (length input % 4) 0 then decode_chunks input else bad "invalid base64 length"
