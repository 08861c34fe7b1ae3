-- ===== src/Db/Query/Cursor.antt =====
-- pagination.rs: the cursor, which is the base64 of an id.
use Prim.Native.String as Str
use shaperail.Prelude.{ℕ, String, List, [], ◌∷◌, Option, none, some, byte_char}
use shaperail.Core.Error.{Result, ok, err, invalid}
use shaperail.Db.Base64.{Decoded, good, bad, base64_encode, base64_decode}
use shaperail.Db.Query.{Libraries}

-- The characters that are pushed for the bytes of a code.
abbrev pub text_of : List ℕ → String
text_of [] = ""
text_of (b ∷ bs) = Str.◌∷◌ (byte_char b) (text_of bs)

abbrev pub encoding_of : Option String → Result String
encoding_of none = err (invalid "cursor" "Invalid cursor encoding" "invalid_cursor")
encoding_of (some id) = ok id

module _ (lib : Libraries) where
  abbrev pub id_of : Decoded (List ℕ) → Result String
  id_of (bad e) = err (invalid "cursor" "Invalid cursor format" "invalid_cursor")
  id_of (good bytes) = encoding_of (lib.from_utf8 bytes)

  unfoldable pub decode_cursor : String → Result String
  decode_cursor cursor = id_of (base64_decode (lib.as_bytes cursor))

  unfoldable pub encode_cursor : String → String
  encode_cursor id = text_of (base64_encode (lib.as_bytes id))
