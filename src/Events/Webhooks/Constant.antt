-- ===== src/Events/Webhooks/Constant.antt =====
-- The comparison in constant time is equality.
use shaperail.Prelude.{
  ℕ, zero, suc, ◌*◌, ◌/◌, ◌<◌, List, [], ◌∷◌, true, length, All, ◌↔◌, ◌≡◌, refl, ap, arith,
}
use shaperail.Events.Webhooks.{xor_bits, or_bits, difference, constant_time_eq}

-- The least number that does not fit so many bits.
abbrev bound : ℕ → ℕ
bound zero = 1
bound (suc n) = 2 * bound n

abbrev pub IsByte : ℕ → Type 0
IsByte x = x < 256

or_bits-eq-zero_iff :
    (n x y : ℕ) → x < bound n → y < bound n → (or_bits n x y ≡ 0) ↔ ((x ≡ 0) × (y ≡ 0))
unfolding or_bits
or_bits-eq-zero_iff zero x y h k = (λ e. (omega arith, omega arith), λ e. refl)
or_bits-eq-zero_iff (suc n) x y h k =
    let (to, from) = or_bits-eq-zero_iff n (x / 2) (y / 2) (omega arith) (omega arith) in
    (
      λ e. let (p, q) = to (omega arith) in (omega arith, omega arith),
      λ (p, q). let r = from (omega arith, omega arith) in omega arith,
    )

xor_bits-eq-zero_iff : (n x y : ℕ) → x < bound n → y < bound n → (xor_bits n x y ≡ 0) ↔ (x ≡ y)
unfolding xor_bits
xor_bits-eq-zero_iff zero x y h k = (λ e. omega arith, λ e. refl)
xor_bits-eq-zero_iff (suc n) x y h k =
    let (to, from) = xor_bits-eq-zero_iff n (x / 2) (y / 2) (omega arith) (omega arith) in
    (λ e. let p = to (omega arith) in omega arith, λ e. let r = from (omega arith) in omega arith)

xor_bits-bound : (n x y : ℕ) → xor_bits n x y < bound n
unfolding xor_bits
xor_bits-bound zero x y = omega arith
xor_bits-bound (suc n) x y = let h = xor_bits-bound n (x / 2) (y / 2) in omega arith

or_bits-bound : (n x y : ℕ) → or_bits n x y < bound n
unfolding or_bits
or_bits-bound zero x y = omega arith
or_bits-bound (suc n) x y = let h = or_bits-bound n (x / 2) (y / 2) in omega arith

difference-eq-zero_iff :
    (diff : ℕ) (xs ys : List ℕ)
    → IsByte diff
    → All IsByte xs
    → All IsByte ys
    → length xs ≡ length ys
    → (difference diff xs ys ≡ 0) ↔ ((diff ≡ 0) × (xs ≡ ys))
unfolding difference
difference-eq-zero_iff diff [] [] d h k e = (λ z. (z, refl), λ (z, q). z)
difference-eq-zero_iff diff [] (y ∷ ys) d h k e = absurd (omega (arith, e))
difference-eq-zero_iff diff (x ∷ xs) [] d h k e = absurd (omega (arith, e))
difference-eq-zero_iff diff (x ∷ xs) (y ∷ ys) d (hx, h) (ky, k) e =
    let (to, from) =
      difference-eq-zero_iff (or_bits 8 diff (xor_bits 8 x y)) xs ys
        (or_bits-bound 8 diff (xor_bits 8 x y)) h k (omega (arith, e)) in
    let any = or_bits-eq-zero_iff 8 diff (xor_bits 8 x y) d (xor_bits-bound 8 x y) in
    let one = xor_bits-eq-zero_iff 8 x y hx ky in
    (
      λ z.
          let (joined, rest) = to z in
          let (first, same) = any.0 joined in (first, rw (one.0 same, rest) refl),
      λ (z, q). from (any.1 (z, one.1 (head_eq q)), tail_eq q),
    )
  where
    head_eq : {a b : ℕ} {us vs : List ℕ} → (a ∷ us) ≡ (b ∷ vs) → a ≡ b
    head_eq q = cc

    tail_eq : {a b : ℕ} {us vs : List ℕ} → (a ∷ us) ≡ (b ∷ vs) → us ≡ vs
    tail_eq q = cc

-- On bytes the comparison, which looks at every byte, says exactly whether the two are equal.
pub constant_time_eq_iff :
    (a b : List ℕ) → All IsByte a → All IsByte b → (constant_time_eq a b ≡ true) ↔ (a ≡ b)
unfolding constant_time_eq
constant_time_eq_iff a b h k = (
  λ e.
      ((difference-eq-zero_iff 0 a b (omega arith) h k (ground (arith, e))).0
        (ground (arith, e))).1,
  λ e.
      let z = (difference-eq-zero_iff 0 a b (omega arith) h k (ap length e)).1 (refl, e) in
      ground (arith, z, ap length e),
)
