-- ===== src/Core/Error.antt =====
-- shaperail-core/src/error.rs: the error type of all crates, its codes and statuses, and `Result`.
use shaperail.Prelude.{Bool, true, false, if◌then◌else◌, ◌≡◌, refl, ℕ, String, List, [], ◌∷◌}

pub record FieldError : Type 0 where
  pub field : String
  pub message : String
  pub code : String

pub data ShaperailError : Type 0 where
  not_found unauthorized forbidden : ShaperailError
  validation : List FieldError → ShaperailError
  conflict : String → ShaperailError
  rate_limited : ShaperailError
  internal : String → ShaperailError

pub code : ShaperailError → String
code not_found = "NOT_FOUND"
code unauthorized = "UNAUTHORIZED"
code forbidden = "FORBIDDEN"
code (validation es) = "VALIDATION_ERROR"
code (conflict m) = "CONFLICT"
code rate_limited = "RATE_LIMITED"
code (internal m) = "INTERNAL_ERROR"

pub status : ShaperailError → ℕ
status not_found = 404
status unauthorized = 401
status forbidden = 403
status (validation es) = 422
status (conflict m) = 409
status rate_limited = 429
status (internal m) = 500

pub data Result {ℓ} (A : Type ℓ) : Type ℓ where
  ok : A → Result A
  err : ShaperailError → Result A

infixl 5 ◌>>=◌ ◌>>◌
abbrev pub ◌>>=◌ {ℓ κ} : {X : Type ℓ} {Y : Type κ} → Result X → (X → Result Y) → Result Y
err e >>= next = err e
ok x >>= next = next x

abbrev pub ◌>>◌ {ℓ} : {Y : Type ℓ} → Result (Unit {0}) → Result Y → Result Y
r >> rest = r >>= λ _. rest

-- `Ok(())` on no errors, as the validators end.
abbrev pub finalize : List FieldError → Result (Unit {0})
finalize [] = ok tt
finalize (e ∷ es) = err (validation (e ∷ es))

abbrev pub invalid : (field message code : String) → ShaperailError
invalid f m c = validation (record { field = f; message = m; code = c } ∷ [])

-- Inversion of a successful bind.
pub >>=-eq-ok {ℓ κ} :
    {X : Type ℓ} {Y : Type κ} (r : Result X) (next : X → Result Y) {y : Y}
    → (r >>= next) ≡ ok y
    → (x : X) × (r ≡ ok x) × (next x ≡ ok y)
>>=-eq-ok (err e) next h = cc
>>=-eq-ok (ok x) next h = (x, refl, h)

pub >>-eq-ok {ℓ} :
    {B : Type ℓ} (m : Result (Unit {0})) (k : Result B) {b : B}
    → (m >> k) ≡ ok b
    → (m ≡ ok tt) × (k ≡ ok b)
>>-eq-ok (ok tt) k h = (refl, h)
>>-eq-ok (err e) k h = cc

-- Inversion of `if b { return Err(e) }`.
pub guard-eq-ok {ℓ} :
    {A : Type ℓ} (b : Bool) (e : ShaperailError) (r : Result A) {a : A}
    → (if b then err e else r) ≡ ok a
    → (b ≡ false) × (r ≡ ok a)
guard-eq-ok true e r h = cc
guard-eq-ok false e r h = (refl, h)
