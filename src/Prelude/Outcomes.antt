-- ===== src/Prelude/Outcomes.antt =====
-- Results of code that throws: a value, or the exception.
use mathlib.Core.Path.{◌≡◌, refl}
use mathlib.Core.Bool.{Bool, true, false}
use mathlib.Core.Option.{Option, none, some}

pub data Result {ℓ κ} (E : Type ℓ) (A : Type κ) : Type (ℓ ⊔ κ) where
  ok : A → Result E A
  err : E → Result E A

module _ {ℓ κ} {E : Type ℓ} {A : Type κ} where
  abbrev pub is_ok : Result E A → Bool
  is_ok (ok _) = true
  is_ok (err _) = false

  -- What stands behind a call runs on the value that the call returns.
  infixl 5 ◌>>=◌
  abbrev pub ◌>>=◌ {μ} : {B : Type μ} → Result E A → (A → Result E B) → Result E B
  thrown >>= next = elim thrown [ ok value ↦ next value | err exception ↦ err exception ]

  -- `if (!value) throw exception`, with the value at hand behind it.
  abbrev pub require : Option A → E → Result E A
  require (some value) exception = ok value
  require none exception = err exception

  -- A chain that returns has a first call that returned.
  pub first_returns {μ} :
      {B : Type μ} (call : Result E A) (next : A → Result E B) {b : B}
      → (call >>= next) ≡ ok b
      → (a : A) × (call ≡ ok a) × (next a ≡ ok b)
  first_returns (err exception) next returned = cc
  first_returns (ok value) next returned = (value, refl, returned)

module _ {ℓ} {E : Type ℓ} where
  infixl 5 ◌>>◌
  abbrev pub ◌>>◌ {κ} : {B : Type κ} → Result E (Unit {0}) → Result E B → Result E B
  check >> next = check >>= λ _. next

  -- `if (!condition) throw exception`.
  abbrev pub guard : Bool → E → Result E (Unit {0})
  guard condition exception = elim condition [ true ↦ ok tt | false ↦ err exception ]
