-- ===== src/Executor/Values.antt =====
-- Values: equality, order and arithmetic of src/executor/executor_helpers.cpp.
-- `double` arithmetic is the machine's: its operations on the 64 bits of a value are a parameter.
-- Signed overflow, which C++ leaves undefined, is a fault.
use microsql.Base.{
  ℕ, Bool, true, false, not, [], ◌∷◌, ◌++◌, ltb, if◌then◌else◌, undefined, ok, err, fault, Text,
  text_eq,
}
use microsql.Base.Int.{ℤ, pos, negsuc, ◌+ℤ◌, ◌-ℤ◌, ◌*ℤ◌, div_ℤ, eq_ℤ, ltb_ℤ, fits_int64}
use microsql.Ast.Expression.{BinaryOperator, add, subtract, multiply, divide}
use microsql.Storage.Row.{Value, int, float, text, bool, null}
use microsql.Executor.Error.{Exec, type_mismatch, division_by_zero}

pub record Double : Type 0 where
  pub plus : ℕ → ℕ → ℕ
  pub minus : ℕ → ℕ → ℕ
  pub times : ℕ → ℕ → ℕ
  pub over : ℕ → ℕ → ℕ
  pub neg : ℕ → ℕ
  pub eq : ℕ → ℕ → Bool
  pub lt : ℕ → ℕ → Bool

-- The sign of std::string::compare.
unfoldable pub compare_text : Text → Text → ℤ
compare_text [] [] = pos 0
compare_text [] (b ∷ bs) = negsuc 0
compare_text (a ∷ xs) [] = pos 1
compare_text (a ∷ xs) (b ∷ bs) =
    let rest = compare_text xs bs in if ltb a b then negsuc 0 else if ltb b a then pos 1 else rest

unfoldable pub checked : ℤ → Exec Value
checked v = if fits_int64 v then ok (int v) else fault undefined

module _ (d : Double) where
  -- `==` of two variants.
  unfoldable pub value_eq : Value → Value → Bool
  value_eq (int a) (int b) = eq_ℤ a b
  value_eq (float a) (float b) = d.eq a b
  value_eq (text a) (text b) = text_eq a b
  value_eq (bool true) (bool b) = b
  value_eq (bool false) (bool b) = not b
  value_eq null null = true
  value_eq _ _ = false

  unfoldable pub compare_values : Value → Value → Exec ℤ
  compare_values (int a) (int b) =
      ok (if eq_ℤ a b then pos 0 else if ltb_ℤ a b then negsuc 0 else pos 1)
  compare_values (float a) (float b) =
      ok (if d.eq a b then pos 0 else if d.lt a b then negsuc 0 else pos 1)
  compare_values (text a) (text b) = ok (compare_text a b)
  compare_values _ _ = err type_mismatch

  unfoldable pub apply_arithmetic : Value → Value → BinaryOperator → Exec Value
  unfolding checked
  apply_arithmetic (int l) (int r) add = checked (l +ℤ r)
  apply_arithmetic (int l) (int r) subtract = checked (l -ℤ r)
  apply_arithmetic (int l) (int r) multiply = checked (l *ℤ r)
  apply_arithmetic (int l) (int r) divide =
      if eq_ℤ r (pos 0) then err division_by_zero else checked (div_ℤ l r)
  apply_arithmetic (float l) (float r) add = ok (float (d.plus l r))
  apply_arithmetic (float l) (float r) subtract = ok (float (d.minus l r))
  apply_arithmetic (float l) (float r) multiply = ok (float (d.times l r))
  apply_arithmetic (float l) (float r) divide = ok (float (d.over l r))
  apply_arithmetic (text l) (text r) add = ok (text (l ++ r))
  apply_arithmetic _ _ _ = err type_mismatch

  unfoldable pub flip_sign_value : Value → Exec Value
  unfolding checked
  flip_sign_value (int v) = checked (pos 0 -ℤ v)
  flip_sign_value (float v) = ok (float (d.neg v))
  flip_sign_value _ = err type_mismatch

unfoldable pub flip_bool_value : Value → Exec Value
flip_bool_value (bool b) = ok (bool (not b))
flip_bool_value _ = err type_mismatch
