-- ===== src/Prelude/Effects.antt =====
-- A call that may change a state and may fail; what it changed before it failed stays.
use lite_agentify.Prelude.Results.{Result, ok, err}

abbrev pub Effect {ℓ κ μ} : Type ℓ → Type κ → Type μ → Type (ℓ ⊔ κ ⊔ μ)
Effect S E A = S → Result E A × S

module _ {ℓ κ μ} {S : Type ℓ} {E : Type κ} {A : Type μ} where
  abbrev pub pure : A → Effect S E A
  pure a s = (ok a, s)

  abbrev pub raise : E → Effect S E A
  raise e s = (err e, s)

-- The outcome of a call, handed to the next.
abbrev pub feed {ℓ κ μ ν} :
    {S : Type ℓ} {E : Type κ} {A : Type μ} {B : Type ν}
    → (A → Effect S E B)
    → Result E A × S
    → Result E B × S
feed f (ok a, s) = f a s
feed f (err e, s) = (err e, s)

infixl 5 ◌>>=◌ ◌>>◌
abbrev pub ◌>>=◌ {ℓ κ μ ν} :
    {S : Type ℓ} {E : Type κ} {A : Type μ} {B : Type ν}
    → Effect S E A
    → (A → Effect S E B)
    → Effect S E B
◌>>=◌ m f s = feed f (m s)

abbrev pub ◌>>◌ {ℓ κ ν} :
    {S : Type ℓ} {E : Type κ} {B : Type ν} → Effect S E (Unit {0}) → Effect S E B → Effect S E B
m >> k = m >>= λ _. k
