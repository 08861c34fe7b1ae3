-- ===== src/Prelude/Text.antt =====
-- `format!` on texts and decimal numbers, and searches for a character.
use Prim.Native.Nat.{ℕ, zero, suc, ◌+◌, ◌-◌, ◌*◌, ◌/◌, ◌%◌}
use Prim.Native.Char.{Char, char, code, IsScalar}
use Prim.Native.String
use Prim.Native.String.{String}
use mathlib.Core.Bool.{Bool, false, ◌||◌, ◌&&◌}
use mathlib.Core.Option.{Option, none, some}
use mathlib.Core.List.{List, [], ◌∷◌}
use text.Mathlib.Text.{◌==◌}
use shaperail.Prelude.Tests.{if◌then◌else◌, ltb, leb, eqb, unwrap_or, map_option, and_then}
use native.Mathlib.Omega.{arith}
use shaperail.Prelude.Lists.{get_elem?}

abbrev pub format : List String → String
format [] = ""
format (s ∷ ss) = String.◌++◌ s (format ss)

-- `join(", ")` and the like.
abbrev pub join : String → List String → String
join sep [] = ""
join sep (s ∷ []) = s
join sep (s ∷ t ∷ ss) = String.◌++◌ s (String.◌++◌ sep (join sep (t ∷ ss)))

digit : ℕ → String
digit n =
    unwrap_or (get_elem? ("0" ∷ "1" ∷ "2" ∷ "3" ∷ "4" ∷ "5" ∷ "6" ∷ "7" ∷ "8" ∷ "9" ∷ []) n) ""

decimal_fuel : ℕ → ℕ → String
decimal_fuel zero n = ""
decimal_fuel (suc f) n =
    let longer = String.◌++◌ (decimal_fuel f (n / 10)) (digit (n % 10)) in
    if ltb n 10 then digit n else longer

-- A number in decimal: `suc n` rounds are enough, since each divides by ten.
unfoldable pub decimal : ℕ → String
unfolding decimal_fuel digit
decimal n = decimal_fuel (suc n) n

-- `str::contains` of one character, given by its code.
unfoldable pub contains_char : ℕ → String → Bool
contains_char c String.[] = false
contains_char c (String.◌∷◌ d s) = eqb (code d) c || contains_char c s

-- `str::split` at each character of the code `c`.
split_from : ℕ → String → String → List String
split_from c cur String.[] = cur ∷ []
split_from c cur (String.◌∷◌ d s) =
    let closed = cur ∷ split_from c "" s in
    let longer = split_from c (String.◌++◌ cur (String.◌∷◌ d String.[])) s in
    if eqb (code d) c then closed else longer

unfoldable pub split_on : ℕ → String → List String
unfolding split_from
split_on c s = split_from c "" s

prepend : Char → Option (String × String) → Option (String × String)
prepend d none = none
prepend d (some (a, b)) = some (String.◌∷◌ d a, b)

-- `str::split_once` at the first character of the code `c`.
unfoldable pub split_once : ℕ → String → Option (String × String)
unfolding prepend
split_once c String.[] = none
split_once c (String.◌∷◌ d s) = if eqb (code d) c then some ("", s) else prepend d (split_once c s)

unfoldable pub strip_prefix : String → String → Option String
strip_prefix String.[] s = some s
strip_prefix (String.◌∷◌ c p) String.[] = none
strip_prefix (String.◌∷◌ c p) (String.◌∷◌ d s) =
    if eqb (code c) (code d) then strip_prefix p s else none

-- `strip_suffix` of one character.
unfoldable pub strip_last : ℕ → String → Option String
strip_last c String.[] = none
strip_last c (String.◌∷◌ d String.[]) = if eqb (code d) c then some "" else none
strip_last c (String.◌∷◌ d (String.◌∷◌ e s)) =
    map_option (String.◌∷◌ d) (strip_last c (String.◌∷◌ e s))

-- `char::is_whitespace`: Unicode's White_Space.
is_whitespace : ℕ → Bool
is_whitespace c =
    (leb 9 c && leb c 13)
    || eqb c 32
    || eqb c 0x85
    || eqb c 0xa0
    || eqb c 0x1680
    || (leb 0x2000 c && leb c 0x200a)
    || eqb c 0x2028
    || eqb c 0x2029
    || eqb c 0x202f
    || eqb c 0x205f
    || eqb c 0x3000

trim_start : String → String
unfolding is_whitespace
trim_start String.[] = ""
trim_start (String.◌∷◌ c s) = if is_whitespace (code c) then trim_start s else String.◌∷◌ c s

-- A character before a trimmed rest: white space before nothing is dropped.
trim_before : Char → String → String
unfolding is_whitespace
trim_before c String.[] = if is_whitespace (code c) then "" else String.◌∷◌ c String.[]
trim_before c (String.◌∷◌ d s) = String.◌∷◌ c (String.◌∷◌ d s)

trim_end : String → String
unfolding trim_before
trim_end String.[] = ""
trim_end (String.◌∷◌ c s) = trim_before c (trim_end s)

unfoldable pub trim : String → String
unfolding trim_start trim_end
trim s = trim_end (trim_start s)

-- The value of a decimal digit.
digit_value : ℕ → Option ℕ
digit_value c = if leb b'0' c && leb c b'9' then some (c - b'0') else none

digits_from : ℕ → String → Option ℕ
unfolding digit_value
digits_from acc String.[] = some acc
digits_from acc (String.◌∷◌ c s) =
    and_then (digit_value (code c)) (λ d. digits_from (acc * 10 + d) s)

-- One or more digits, and nothing else.
unfoldable pub digits_value : String → Option ℕ
unfolding digits_from
digits_value String.[] = none
digits_value (String.◌∷◌ c s) = digits_from 0 (String.◌∷◌ c s)

-- `str::ends_with` and `str::strip_suffix`.
unfoldable pub ends_with : String → String → Bool
ends_with suffix String.[] = suffix == ""
ends_with suffix (String.◌∷◌ c s) = (String.◌∷◌ c s == suffix) || ends_with suffix s

unfoldable pub strip_suffix : String → String → Option String
strip_suffix suffix String.[] = if suffix == "" then some "" else none
strip_suffix suffix (String.◌∷◌ c s) =
    if String.◌∷◌ c s == suffix then some "" else map_option (String.◌∷◌ c) (strip_suffix suffix s)

-- `u8 as char`.
byte_char-IsScalar : (n : ℕ) → IsScalar (n % 256)
byte_char-IsScalar n = ground arith

unfoldable pub byte_char : ℕ → Char
unfolding byte_char-IsScalar
byte_char n = char (n % 256) (byte_char-IsScalar n)
