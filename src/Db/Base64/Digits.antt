-- ===== src/Db/Base64/Digits.antt =====
-- The digits of base64 are read back.
use shaperail.Prelude.{
  ℕ, zero, suc, ◌+◌, ◌-◌, ◌<◌, Bool, true, false, ◌&&◌, leb, eqb, ◌≡◌, refl, arith, if◌then◌else◌,
}
use shaperail.Db.Base64.{good, char_of, char_to_val}

-- The table of the digits in ranges.
abbrev ranged : ℕ → ℕ
ranged v =
    if leb 63 v
    then b'/'
    else if leb 62 v
    then b'+'
    else if leb 52 v
    then v - 52 + b'0'
    else if leb 26 v
    then v - 26 + b'a'
    else v + b'A'

-- A test of every value of six bits.
checked : (ℕ → Bool) → ℕ → Bool
checked test zero = true
checked test (suc bound) = checked test bound && test bound

checked_at : (test : ℕ → Bool) (bound v : ℕ) → v < bound → checked test bound ≡ true → test v ≡ true
unfolding checked
checked_at test zero v low ok = absurd (omega arith)
checked_at test (suc bound) v low ok = ground (arith, checked_at test bound v)

table : checked (λ v. eqb (char_of v) (ranged v)) 64 ≡ true
unfolding checked char_of
table = refl

char_of-ranged : (v : ℕ) → v < 64 → char_of v ≡ ranged v
char_of-ranged v h = ground (arith, checked_at (λ (u : ℕ). eqb (char_of u) (ranged u)) 64 v h table)

ranged_value : (v : ℕ) → v < 64 → char_to_val (ranged v) ≡ good v
unfolding char_to_val
ranged_value v h = ground arith

pub char_to_val-char_of : (v : ℕ) → v < 64 → char_to_val (char_of v) ≡ good v
char_to_val-char_of v h = rw (char_of-ranged v h) (ranged_value v h)

pub char_of_not_padding : (v : ℕ) → v < 64 → eqb (char_of v) b'=' ≡ false
char_of_not_padding v h = rw (char_of-ranged v h) (ground arith)

pub padding_value : char_to_val b'=' ≡ good 0
unfolding char_to_val
padding_value = refl

pub char_of_ascii : (v : ℕ) → v < 64 → char_of v < 128
char_of_ascii v h = rw (char_of-ranged v h) (ground arith)
