-- ===== src/Handlers/Crud/Steps.antt =====
-- Reasoning on the handlers' monad: what a step leaves of the world, and the inversion of a
-- successful sequence.
use shaperail.Prelude.{arith, ◌≡◌, ◌⊎◌, refl, inl}
use shaperail.Core.Error.{Result, ok, err, ShaperailError}
use shaperail.Handlers.State.{continue, World, M, ◌>>=◌}

abbrev pub Failed : {A : Type 0} → Result A → Type 0
Failed r = (e : ShaperailError) × (r ≡ err e)

pub ok-injective : {A : Type 0} {a b : A} → ok a ≡ ok b → a ≡ b
ok-injective e = ground arith

module _ {Db : Type 0} where
  -- The database and the effects are those of before.
  abbrev pub SameStore : World Db → World Db → Type 0
  SameStore w₀ w = (w.db ≡ w₀.db) × (w.effects ≡ w₀.effects)

  -- The request was answered with an error, and wrote and sent nothing.
  abbrev pub Refused : {A : Type 0} → World Db → Result A × World Db → Type 0
  Refused w₀ r = Failed r.0 × SameStore w₀ r.1

  module _ {A B : Type 0} where
    -- What a sequence does, its first step writing nothing: refused there, or what follows does.
    pub step :
        {Q : Type 0} (w₀ : World Db) (m : M Db A) (f : A → M Db B) (w : World Db)
        → SameStore w₀ (m w).1
        → ((a : A) → (m w).0 ≡ ok a → Refused w₀ (f a (m w).1) ⊎ Q)
        → Refused w₀ ((m >>= f) w) ⊎ Q
    step {Q} w₀ m f w same next = at (m w) same next
      where
        at :
            (r : Result A × World Db)
            → SameStore w₀ r.1
            → ((a : A) → r.0 ≡ ok a → Refused w₀ (f a r.1) ⊎ Q)
            → Refused w₀ (continue f r) ⊎ Q
        at (ok a, w₁) h n = n a refl
        at (err e, w₁) h n = inl ((e, refl), h)

    -- Inversion of a successful bind.
    pub bind-eq-ok :
        (m : M Db A) (f : A → M Db B) (w : World Db) {b : B}
        → ((m >>= f) w).0 ≡ ok b
        → (a : A) × ((m w).0 ≡ ok a) × ((f a (m w).1).0 ≡ ok b)
    bind-eq-ok m f w {b} e = at (m w) e
      where
        at :
            (r : Result A × World Db)
            → (continue f r).0 ≡ ok b
            → (a : A) × (r.0 ≡ ok a) × ((f a r.1).0 ≡ ok b)
        at (ok a, w₁) h = (a, refl, h)
        at (err e, w₁) h = cc

    pub SameStore-bind :
        (w₀ : World Db) (m : M Db A) (f : A → M Db B) (w : World Db)
        → SameStore w₀ (m w).1
        → ((a : A) → (m w).0 ≡ ok a → SameStore w₀ (f a (m w).1).1)
        → SameStore w₀ ((m >>= f) w).1
    SameStore-bind w₀ m f w same next = at (m w) same next
      where
        at :
            (r : Result A × World Db)
            → SameStore w₀ r.1
            → ((a : A) → r.0 ≡ ok a → SameStore w₀ (f a r.1).1)
            → SameStore w₀ (continue f r).1
        at (ok a, w₁) h n = n a refl
        at (err e, w₁) h n = h

    -- A sequence whose first step succeeds.
    pub bind-run :
        (m : M Db A) (f : A → M Db B) (w : World Db) (a : A)
        → (m w).0 ≡ ok a
        → (m >>= f) w ≡ f a (m w).1
    bind-run m f w a e = at (m w) e
      where
        at : (r : Result A × World Db) → r.0 ≡ ok a → continue f r ≡ f a r.1
        at (ok x, w₁) h = ground arith
        at (err x, w₁) h = cc
