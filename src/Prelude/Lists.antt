-- ===== src/Prelude/Lists.antt =====
-- Lists measured by native numbers, with Boolean searches.
use Prim.Native.Nat.{ℕ, zero, suc, ◌+◌, ◌≤◌, ◌<◌}
use Prim.Native.String.{String}
use mathlib.Core.Path.{◌≡◌, refl, ap}
use mathlib.Core.Logic.{◌⊎◌, ◌↔◌, inl, inr}
use mathlib.Core.Bool.{Bool, true, false, ◌||◌, ◌&&◌}
use mathlib.Core.List.{List, [], ◌∷◌, ◌++◌, map}
use mathlib.Core.Option.{Option, none, some}
use native.Mathlib.Omega.{arith}
use text.Mathlib.Text.{◌==◌}
use text.Mathlib.TextEquality.{eq_iff}
use text.Mathlib.TextPositions.{eq_refl}
use shaperail.Prelude.Tests.{if◌then◌else◌, Bool-cases}

module _ {ℓ} {A : Type ℓ} where
  abbrev pub length : List A → ℕ
  length [] = 0
  length (x ∷ xs) = suc (length xs)

  abbrev pub get_elem? : List A → ℕ → Option A
  get_elem? [] i = none
  get_elem? (x ∷ xs) zero = some x
  get_elem? (x ∷ xs) (suc i) = get_elem? xs i

  abbrev pub any : (A → Bool) → List A → Bool
  any p [] = false
  any p (x ∷ xs) = p x || any p xs

  abbrev pub is_empty : List A → Bool
  is_empty [] = true
  is_empty (x ∷ xs) = false

  -- `Iterator::filter` by a Boolean test.
  abbrev pub keep : (A → Bool) → List A → List A
  keep p [] = []
  keep p (x ∷ xs) = if p x then x ∷ keep p xs else keep p xs

  prefix_nil : (xs ys : List A) → xs ++ ys ≡ [] → xs ≡ []
  prefix_nil [] ys e = refl
  prefix_nil (x ∷ xs) ys e = cc

  suffix_nil : (xs ys : List A) → xs ++ ys ≡ [] → ys ≡ []
  suffix_nil [] ys e = e
  suffix_nil (x ∷ xs) ys e = cc

  pub length-append : (xs ys : List A) → length (xs ++ ys) ≡ length xs + length ys
  length-append [] ys = omega arith
  length-append (x ∷ xs) ys = omega (arith, length-append xs ys)

-- Lists of errors: an append is empty when both parts are, and a guarded part when its guard says so.
module _ {ℓ κ} {A : Type ℓ} {P Q : Type κ} {xs ys : List A} where
  pub append-eq-nil_iff : ((xs ≡ []) ↔ P) → ((ys ≡ []) ↔ Q) → ((xs ++ ys ≡ []) ↔ (P × Q))
  append-eq-nil_iff h k =
      (λ e. (h.0 (prefix_nil xs ys e), k.0 (suffix_nil xs ys e)), λ (p, q). rw (h.1 p, k.1 q))

-- `×` is flat: nested conjunctions as flat ones.
module _ {X A B C D E F : Type 0} where
  pub flatten₆ : X ↔ (A × (B × (C × (D × (E × F))))) → X ↔ (A × B × C × D × E × F)
  flatten₆ h = (
    λ x. let (a, (b, (c, (d, (e, f))))) = h.0 x in (a, b, c, d, e, f),
    λ (a, b, c, d, e, f). h.1 (a, (b, (c, (d, (e, f))))),
  )

  pub flatten₇ :
      {G : Type 0} → X ↔ (A × (B × (C × (D × (E × (F × G)))))) → X ↔ (A × B × C × D × E × F × G)
  flatten₇ h = (
    λ x. let (a, (b, (c, (d, (e, (f, g)))))) = h.0 x in (a, b, c, d, e, f, g),
    λ (a, b, c, d, e, f, g). h.1 (a, (b, (c, (d, (e, (f, g)))))),
  )

module _ {ℓ} {A : Type ℓ} where
  pub guarded-eq-nil_iff {κ} :
      {P Q : Type κ} {g : Bool} {xs : List A}
      → ((g ≡ true) ↔ P)
      → ((xs ≡ []) ↔ Q)
      → (((if g then xs else []) ≡ []) ↔ (P → Q))
  guarded-eq-nil_iff {g = true} h k = (λ e _. k.0 e, λ f. k.1 (f (h.0 refl)))
  guarded-eq-nil_iff {g = false} h k = (λ e p. absurd (ground (arith, h.1 p)), λ f. refl)

module _ {ℓ κ} {A : Type ℓ} (P : A → Type κ) where
  abbrev pub All : List A → Type κ
  All [] = Unit
  All (x ∷ xs) = P x × All xs

  pub All-append : (xs ys : List A) → All xs → All ys → All (xs ++ ys)
  All-append [] ys h k = k
  All-append (x ∷ xs) ys (p, h) k = (p, All-append xs ys h k)

-- Membership by recursion, which the tactics take apart.
abbrev pub In : {A : Type 0} → A → List A → Type 0
In a [] = ⊥
In a (x ∷ xs) = (a ≡ x) ⊎ In a xs

abbrev pub contains : List String → String → Bool
contains [] s = false
contains (x ∷ xs) s = x == s || contains xs s

pub contains→In : (xs : List String) (s : String) → contains xs s ≡ true → In s xs
contains→In [] s h = cc
contains→In (x ∷ xs) s h = ground (arith, eq_iff x s, contains→In xs s)

pub In→contains : (xs : List String) (s : String) → In s xs → contains xs s ≡ true
In→contains [] s h = absurd h
In→contains (x ∷ xs) s h = ground (arith, eq_iff x s, In→contains xs s)

-- What follows at each element from what holds at each.
module _ {ℓ} {A : Type 0} (P Q : A → Type ℓ) where
  pub All-map : (xs : List A) → ((x : A) → P x → Q x) → All P xs → All Q xs
  All-map [] f h = tt
  All-map (x ∷ xs) f (p, h) = (f x p, All-map xs f h)

  pub All-zip : (xs : List A) → All P xs → All Q xs → All (λ x. P x × Q x) xs
  All-zip [] h k = tt
  All-zip (x ∷ xs) (p, h) (q, k) = ((p, q), All-zip xs h k)

pub contains-append :
    (xs ys : List String) (s : String) → contains (xs ++ ys) s ≡ (contains xs s || contains ys s)
contains-append [] ys s = refl
contains-append (x ∷ xs) ys s = ground (arith, contains-append xs ys s)

pub contains-keep :
    (p : String → Bool) (xs : List String) (x : String)
    → contains (keep p xs) x ≡ (contains xs x && p x)
contains-keep p [] x = refl
contains-keep p (y ∷ ys) x = elim (Bool-cases (y == x)) [
  | inl e ↦ rw ((eq_iff y x).0 e) (ground (arith, eq_refl x, contains-keep p ys x))
  | inr e ↦ ground (arith, contains-keep p ys x)
]

-- `slice::last` and `Iterator::take`.
module _ {ℓ} {A : Type ℓ} where
  abbrev pub last : List A → Option A
  last [] = none
  last (x ∷ []) = some x
  last (x ∷ y ∷ xs) = last (y ∷ xs)

  abbrev pub take : ℕ → List A → List A
  take zero xs = []
  take (suc n) [] = []
  take (suc n) (x ∷ xs) = x ∷ take n xs

pub length-map {ℓ κ} :
    {A : Type ℓ} {B : Type κ} (f : A → B) (xs : List A) → length (map f xs) ≡ length xs
length-map f [] = refl
length-map f (x ∷ xs) = omega (arith, length-map f xs)

module _ {ℓ} {A : Type ℓ} where
  pub take_all : (n : ℕ) (xs : List A) → length xs ≤ n → take n xs ≡ xs
  take_all zero [] h = refl
  take_all zero (x ∷ xs) h = absurd (omega arith)
  take_all (suc n) [] h = refl
  take_all (suc n) (x ∷ xs) h = ap (◌∷◌ x) (take_all n xs (omega arith))

  pub take_some :
      (n : ℕ) (xs : List A)
      → n < length xs
      → (length (take n xs) ≡ n) × ((rest : List A) × (xs ≡ take n xs ++ rest))
  take_some zero xs h = (refl, (xs, refl))
  take_some (suc n) [] h = absurd (omega arith)
  take_some (suc n) (x ∷ xs) h =
      let (len, (rest, e)) = take_some n xs (omega arith) in
      (omega (arith, len), (rest, ap (◌∷◌ x) e))
