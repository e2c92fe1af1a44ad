-- ===== src/Base/Outcome.antt =====
-- How a call of the C++ code can end: it returns, it throws, or it reads outside its data.
use mathlib.Core.Path.{◌≡◌, refl}

-- The classes of exception that the sources throw themselves or let through.
pub data Exception : Type 0 where
  runtime_error logic_error invalid_argument range_error length_error out_of_range : Exception
  system_error gripper_state bad_get : Exception

module _ {ℓ} where
  -- `fault` is no C++ value: it stands for undefined behaviour, such as reading past a vector's end.
  pub data Outcome (A : Type ℓ) : Type ℓ where
    fault : Outcome A
    throws : Exception → Outcome A
    ok : A → Outcome A

-- The rest of a function body behind a call.
infixl 5 ◌>>=◌
abbrev pub ◌>>=◌ {ℓ κ} : {A : Type ℓ} {B : Type κ} → Outcome A → (A → Outcome B) → Outcome B
fault >>= rest = fault
throws exception >>= rest = throws exception
ok value >>= rest = rest value

infixl 5 ◌>>◌
abbrev pub ◌>>◌ {ℓ} : {B : Type ℓ} → Outcome (Unit {0}) → Outcome B → Outcome B
fault >> rest = fault
throws exception >> rest = throws exception
ok tt >> rest = rest

-- A body that returns has had its first call return.
pub first_returns {ℓ κ} :
    {A : Type ℓ} {B : Type κ} {result : B} (first : Outcome A) (rest : A → Outcome B)
    → (first >>= rest) ≡ ok result
    → (a : A) × (first ≡ ok a) × (rest a ≡ ok result)
first_returns fault rest e = cc
first_returns (throws exception) rest e = cc
first_returns (ok value) rest e = (value, refl, e)

-- A call without undefined behaviour.
abbrev pub IsDefined {ℓ} : {A : Type ℓ} → Outcome A → Type 0
IsDefined fault = ⊥
IsDefined (throws e) = Unit
IsDefined (ok a) = Unit

pub IsDefined-bind :
    {A B : Type 0} (first : Outcome A) (rest : A → Outcome B)
    → IsDefined first
    → ((a : A) → IsDefined (rest a))
    → IsDefined (first >>= rest)
IsDefined-bind fault rest h k = h
IsDefined-bind (throws e) rest h k = tt
IsDefined-bind (ok a) rest h k = k a
