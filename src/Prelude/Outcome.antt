-- ===== src/Prelude/Outcome.antt =====
-- What a Python function that may raise comes back with, for an exception type of its own.
use mathlib.Core.Path.{◌≡◌, refl}
use mathlib.Core.Bool.{Bool, true, false}

pub data Result {ℓ κ} (E : Type ℓ) (A : Type κ) : Type (ℓ ⊔ κ) where
  ok : A → Result E A
  err : E → Result E A

infixl 5 ◌>>=◌ ◌>>◌
abbrev pub ◌>>=◌ {ℓ κ μ} :
    {E : Type ℓ} {A : Type κ} {B : Type μ} → Result E A → (A → Result E B) → Result E B
ok a >>= f = f a
err e >>= f = err e

abbrev pub ◌>>◌ {ℓ μ} : {E : Type ℓ} {B : Type μ} → Result E (Unit {0}) → Result E B → Result E B
m >> k = m >>= λ _. k

-- `if c: raise e`
abbrev pub raise_if {ℓ} : {E : Type ℓ} → Bool → E → Result E (Unit {0})
raise_if true e = err e
raise_if false e = ok tt

module _ {ℓ κ μ} {E : Type ℓ} {A : Type κ} {B : Type μ} where
  -- How a bind came to return `b`: the first call returned, and the rest of the block on its result.
  abbrev pub Returned : (m : Result E A) (rest : A → Result E B) → B → Type (ℓ ⊔ κ ⊔ μ)
  Returned m rest b = (a : A) × (m ≡ ok a) × (rest a ≡ ok b)

  pub >>=-eq-ok :
      (m : Result E A) (rest : A → Result E B) {b : B} → m >>= rest ≡ ok b → Returned m rest b
  >>=-eq-ok (err raised) rest returned = cc
  >>=-eq-ok (ok value) rest returned = (value, refl, returned)

pub ok-injective {ℓ κ} :
    {E : Type ℓ} {A : Type κ} {a b : A} → ◌≡◌ {A = Result E A} (ok a) (ok b) → a ≡ b
ok-injective e = cc

pub err-ne-ok {ℓ κ μ} :
    {E : Type ℓ} {A : Type κ} {B : Type μ} {e : E} {a : A} → ◌≡◌ {A = Result E A} (err e) (ok a) → B
err-ne-ok p = cc
