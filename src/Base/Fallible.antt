-- ===== src/Base/Fallible.antt =====
-- The results of fallible code. `std::expected` returns a value or an error; beside that a call may
-- leave by an exception that no caller catches, meet undefined behaviour, or run without end.
use mathlib.Core.Path.{◌≡◌, refl}

pub data Fault : Type 0 where
  -- what `std::get`, `std::stoi` and `vector::at` throw
  bad_variant_access : Fault
  invalid_argument : Fault
  out_of_range : Fault
  -- an index outside a vector, signed overflow and the like
  undefined : Fault
  -- a loop that is still running when the model's fuel is used up
  out_of_fuel : Fault

pub data Outcome {ℓ κ} (E : Type ℓ) (A : Type κ) : Type (ℓ ⊔ κ) where
  fault : Fault → Outcome E A
  err : E → Outcome E A
  ok : A → Outcome E A

module _ {ℓ κ ρ} {E : Type ℓ} {A : Type κ} {B : Type ρ} where
  infixl 5 ◌>>=◌
  -- The rest of a function body, which runs only after a value.
  abbrev pub ◌>>=◌ : Outcome E A → (A → Outcome E B) → Outcome E B
  ◌>>=◌ (fault u) rest = fault u
  ◌>>=◌ (err e) rest = err e
  ◌>>=◌ (ok a) rest = rest a

  pub bind-eq-ok :
      {b : B} (m : Outcome E A) (rest : A → Outcome E B)
      → (m >>= rest) ≡ ok b
      → (a : A) × (m ≡ ok a) × (rest a ≡ ok b)
  bind-eq-ok (fault u) rest e = cc
  bind-eq-ok (err x) rest e = cc
  bind-eq-ok (ok a) rest e = (a, refl, e)

-- What holds of the value, where there is one.
module _ {ℓ κ ρ} {E : Type ℓ} {A : Type κ} where
  abbrev pub OnOk : (A → Type ρ) → Outcome E A → Type ρ
  OnOk P (fault u) = Unit
  OnOk P (err e) = Unit
  OnOk P (ok a) = P a

module _ {ℓ κ ρ σ} {E : Type ℓ} {A : Type κ} {B : Type ρ} where
  pub OnOk-bind :
      (Q : B → Type σ) (m : Outcome E A) (rest : A → Outcome E B)
      → ((a : A) → m ≡ ok a → OnOk Q (rest a))
      → OnOk Q (m >>= rest)
  OnOk-bind Q (fault u) rest k = tt
  OnOk-bind Q (err e) rest k = tt
  OnOk-bind Q (ok a) rest k = k a refl
