-- ===== src/Prelude/Results.antt =====
-- Python exceptions as values: `err e` is a raised exception.
use mathlib.Core.Path.{◌≡◌, refl}
use mathlib.Core.Bool.{Bool, true, false}

pub data Result {ℓ κ} (E : Type ℓ) (A : Type κ) : Type (ℓ ⊔ κ) where
  ok : A → Result E A
  err : E → Result E A

abbrev pub is_ok {ℓ κ} : {E : Type ℓ} {A : Type κ} → Result E A → Bool
is_ok (ok a) = true
is_ok (err e) = false

-- The values of two successes that are equal.
pub ok-injective {ℓ κ} :
    {E : Type ℓ} {A : Type κ} {a b : A} → ◌≡◌ {A = Result E A} (ok a) (ok b) → a ≡ b
ok-injective h = cc

-- The exceptions of two failures that are equal.
pub err-injective {ℓ κ} :
    {E : Type ℓ} {A : Type κ} {a b : E} → ◌≡◌ {A = Result E A} (err a) (err b) → a ≡ b
err-injective h = cc

-- `if not test: raise e`
abbrev pub require {ℓ} : {E : Type ℓ} → Bool → E → Result E (Unit {0})
require true raised = ok tt
require false raised = err raised

infixl 5 ◌>>=◌
abbrev pub ◌>>=◌ {ℓ κ μ} :
    {E : Type ℓ} {A : Type κ} {B : Type μ} → Result E A → (A → Result E B) → Result E B
err raised >>= next = err raised
ok a >>= next = next a

-- A bind that succeeds has a first step that succeeds.
pub >>=-eq-ok {ℓ κ μ} :
    {E : Type ℓ} {A : Type κ} {B : Type μ} (step : Result E A) (next : A → Result E B) {last : B}
    → step >>= next ≡ ok last
    → (first : A) × (step ≡ ok first) × (next first ≡ ok last)
>>=-eq-ok (err raised) next h = cc
>>=-eq-ok (ok first) next h = (first, refl, h)

-- A statement whose value is not used, ahead of the rest.
infixl 5 ◌>>◌
abbrev pub ◌>>◌ {ℓ μ} : {E : Type ℓ} {B : Type μ} → Result E (Unit {0}) → Result E B → Result E B
first >> rest = first >>= λ _. rest

-- A check that was passed, ahead of the rest.
pub require-eq-ok {ℓ μ} :
    {E : Type ℓ} {B : Type μ} (test : Bool) (raised : E) (rest : Result E B) {last : B}
    → (require test raised >> rest) ≡ ok last
    → (test ≡ true) × (rest ≡ ok last)
require-eq-ok true raised rest h = (refl, h)
require-eq-ok false raised rest h = cc
