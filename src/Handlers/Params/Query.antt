-- ===== src/Handlers/Params/Query.antt =====
-- params.rs: the query string as a map, with percent decoding.
use shaperail.Prelude.{
  ℕ, ◌+◌, ◌-◌, ◌*◌, String, List, [], ◌∷◌, Option, none, some, ◌&&◌, ◌==◌, leb, eqb, if◌then◌else◌,
  and_then, map_option, insert, split_on, split_once, byte_char,
}
use Prim.Native.String as Str
use Prim.Native.Char.{Char, code}
use shaperail.Handlers.Params.{QueryMap}

-- `replace('+', " ")`.
plus_to_space : String → String
plus_to_space Str.[] = ""
plus_to_space (Str.◌∷◌ c s) =
    let rest = plus_to_space s in if eqb (code c) b'+' then Str.◌∷◌ " " rest else Str.◌∷◌ c rest

-- `u8::from_str_radix(.., 16)` of one or two characters. A sign cannot stand there: `+` is replaced.
hex_value : Char → Option ℕ
hex_value c =
    let n : ℕ = code c in
    if leb b'0' n && leb n b'9'
    then some (n - b'0')
    else if leb b'a' n && leb n b'f'
    then some (n - b'a' + 10)
    else if leb b'A' n && leb n b'F'
    then some (n - b'A' + 10)
    else none

two_digits : Char → Char → Option ℕ
unfolding hex_value
two_digits d e = and_then (hex_value d) (λ high. map_option (λ low. high * 16 + low) (hex_value e))

-- What a percent sign and the characters behind it become: the byte as a character, or themselves.
escaped : String → Option ℕ → String
escaped hex none = Str.◌∷◌ "%" hex
escaped hex (some byte) = Str.◌∷◌ (byte_char byte) Str.[]

decode_percent : String → String
unfolding two_digits hex_value escaped
decode_percent Str.[] = ""
decode_percent (Str.◌∷◌ c Str.[]) = Str.◌∷◌ c Str.[]
decode_percent (Str.◌∷◌ c (Str.◌∷◌ d Str.[])) =
    let kept = Str.◌∷◌ c (decode_percent (Str.◌∷◌ d Str.[])) in
    if eqb (code c) b'%' then escaped (Str.◌∷◌ d Str.[]) (hex_value d) else kept
decode_percent (Str.◌∷◌ c (Str.◌∷◌ d (Str.◌∷◌ e s))) =
    let kept = Str.◌∷◌ c (decode_percent (Str.◌∷◌ d (Str.◌∷◌ e s))) in
    let hex = Str.◌∷◌ d (Str.◌∷◌ e Str.[]) in
    let decoded = Str.◌++◌ (escaped hex (two_digits d e)) (decode_percent s) in
    if eqb (code c) b'%' then decoded else kept

unfoldable pub urldecode : String → String
unfolding plus_to_space decode_percent
urldecode s = decode_percent (plus_to_space s)

abbrev add_pair : Option (String × String) → QueryMap → QueryMap
add_pair none params = params
add_pair (some (key, value)) params = insert (urldecode key) (urldecode value) params

query_from : List String → QueryMap → QueryMap
query_from [] params = params
query_from (pair ∷ pairs) params =
    query_from pairs (if pair == "" then params else add_pair (split_once b'=' pair) params)

unfoldable pub query_map : String → QueryMap
unfolding query_from urldecode
query_map query_string = query_from (split_on b'&' query_string) []
