-- ===== src/Prelude/Int.antt =====
-- `i64` as the request parameters use it: an integer, its decimal form and parser, and clamping.
use shaperail.Prelude.Text.{decimal, digits_value, format}
use shaperail.Prelude.Tests.{if◌then◌else◌, leb, eqb, and_then}
use Prim.Native.Nat.{ℕ, zero, suc, ◌+◌, ◌-◌, ◌^◌}
use Prim.Native.String.{String}
use Prim.Native.Char.{code}
use mathlib.Core.Bool.{Bool, true, false}
use mathlib.Core.Option.{Option, none, some}
use mathlib.Core.List.{[], ◌∷◌}

-- `negsuc n` is -(n + 1).
pub data ℤ : Type 0 where
  pos : ℕ → ℤ
  negsuc : ℕ → ℤ

abbrev pub leb_ℤ : ℤ → ℤ → Bool
leb_ℤ (pos a) (pos b) = leb a b
leb_ℤ (pos a) (negsuc b) = false
leb_ℤ (negsuc a) (pos b) = true
leb_ℤ (negsuc a) (negsuc b) = leb b a

abbrev pub negate : ℕ → ℤ
negate zero = pos 0
negate (suc n) = negsuc n

abbrev pub suc_ℤ : ℤ → ℤ
suc_ℤ (pos a) = pos (a + 1)
suc_ℤ (negsuc zero) = pos 0
suc_ℤ (negsuc (suc a)) = negsuc a

-- `Ord::max` and `Ord::clamp`.
abbrev pub max_ℤ : ℤ → ℤ → ℤ
max_ℤ a b = if leb_ℤ a b then b else a

abbrev pub clamp : ℤ → (low high : ℤ) → ℤ
clamp a low high = if leb_ℤ low a then (if leb_ℤ a high then a else high) else low

pub show_ℤ : ℤ → String
show_ℤ (pos a) = decimal a
show_ℤ (negsuc a) = format ("-" ∷ decimal (suc a) ∷ [])

abbrev pub in_range : ℕ → ℕ → Option ℕ
in_range bound n = if leb n bound then some n else none

-- `str::parse::<i64>`: an optional sign, digits, and a value that 64 bits hold.
unfoldable pub parse_i64 : String → Option ℤ
parse_i64 String.[] = none
parse_i64 (String.◌∷◌ c s) =
    if eqb (code c) b'-'
    then and_then (and_then (digits_value s) (in_range (2 ^ 63))) (λ n. some (negate n))
    else if eqb (code c) b'+'
    then and_then (and_then (digits_value s) (in_range (2 ^ 63 - 1))) (λ n. some (pos n))
    else and_then (and_then (digits_value (String.◌∷◌ c s)) (in_range (2 ^ 63 - 1)))
        (λ n. some (pos n))
