-- ===== src/Executor/Eval.antt =====
-- evalExpr, evalWhere and the rows of INSERT and UPDATE of src/executor/executor_helpers.cpp.
-- The two evaluators recurse on indices, so they take fuel; `Eval.Total` says how much is enough. An
-- index outside the list of expressions is undefined behaviour.
pub mod Tree
pub mod Total
pub mod Where
use microsql.Base.{
  ℕ, zero, suc, ◌+◌, ◌-◌, ◌*◌, ◌/◌, ◌%◌, ◌^◌, ◌≤◌, ◌<◌, ◌≡◌, refl, sym, ap, ◌∙◌, fun_ext, ◌≢◌, ◌↔◌,
  ◌⊎◌, inl, inr, Bool, true, false, not, ◌&&◌, ◌||◌, Option, none, some, List, [], ◌∷◌, ◌++◌, map,
  arith, ltb, leb, ◌==◌, if◌then◌else◌, ltb→lt, lt→ltb, le→ltb, ltb_false→le, leb→le, le→leb,
  ==_iff, ==_refl, Bool-cases, length, get_elem?, get_or, set, take, drop, replicate, length-append,
  length-take, length-replicate, take_all, get_elem?-append_left, Fault, bad_variant_access,
  invalid_argument, out_of_range, undefined, out_of_fuel, Outcome, ok, err, fault, ◌>>=◌,
  bind-eq-ok, Text, codes, text_eq, text_eq_refl, text_eq→eq, to_string,
}
use microsql.Base.Int.{ℤ, pos, negsuc, ltb_ℤ}
use microsql.Ast.Statement.{Statement, ColumnDefinition}
use microsql.Ast.Expression.{
  BinaryOperator, equal, not_equal, less_than, less_than_or_equal, greater_than,
  greater_than_or_equal, and, or, add, subtract, multiply, divide, is, is_not, UnaryOperator,
  negate, Expression, literal_int, literal_float, literal_text, literal_bool, literal_null,
  column_ref, binary, unary, star,
}
use microsql.Storage.Row.{Value, Row, int, float, text, bool, null, is_null}
use microsql.Executor.Error.{
  Exec, error_getting_data, not_implemented, invalid_expression, not_null_violation,
}
use microsql.Executor.Values.{
  Double, value_eq, compare_values, apply_arithmetic, flip_sign_value, flip_bool_value,
}

-- std::find, as an index; `none` is -1.
unfoldable pub index_of : List Text → Text → Option ℕ
index_of [] value = none
index_of (x ∷ vec) value =
    if text_eq x value
    then some 0
    else elim (index_of vec value) [ none ↦ none | some i ↦ some (suc i) ]

abbrev pub value_or_error : Option Value → Exec Value
value_or_error none = err error_getting_data
value_or_error (some v) = ok v

abbrev pub value_at : Row → Option ℕ → Exec Value
value_at row none = err error_getting_data
value_at row (some i) = value_or_error (get_elem? row i)

-- `row.at` throws for -1 and for an index behind the row; the exception becomes an error.
unfoldable pub column_value : Row → List Text → Text → Exec Value
column_value row columns name = value_at row (index_of columns name)

abbrev pub or_undefined : {A : Type 0} → Option A → Exec A
or_undefined none = fault undefined
or_undefined (some a) = ok a

-- expressions[i]
unfoldable pub expression_at : List Expression → ℕ → Exec Expression
expression_at expressions i = or_undefined (get_elem? expressions i)

-- The switch over the operator of a comparison, on the sign of compareValues.
abbrev pub holds_for : BinaryOperator → ℤ → Bool
holds_for less_than c = ltb_ℤ c (pos 0)
holds_for less_than_or_equal c = not (ltb_ℤ (pos 0) c)
holds_for greater_than c = ltb_ℤ (pos 0) c
holds_for _ c = not (ltb_ℤ c (pos 0))

module _ (d : Double) where
  unfoldable pub eval_binary : BinaryOperator → Value → Value → Exec Value
  eval_binary add l r = apply_arithmetic d l r add
  eval_binary subtract l r = apply_arithmetic d l r subtract
  eval_binary multiply l r = apply_arithmetic d l r multiply
  eval_binary divide l r = apply_arithmetic d l r divide
  eval_binary _ l r = err invalid_expression

  unfoldable pub eval_unary : UnaryOperator → Value → Exec Value
  eval_unary negate v = flip_sign_value d v
  eval_unary UnaryOperator.not v = flip_bool_value v

  -- The second switch of evalWhere, on the values of the two sides.
  unfoldable pub compare_where : BinaryOperator → Value → Value → Exec Bool
  compare_where equal l r = ok (value_eq d l r)
  compare_where not_equal l r = ok (not (value_eq d l r))
  compare_where less_than l r = do c ← compare_values d l r; ok (holds_for less_than c)
  compare_where less_than_or_equal l r = do
    c ← compare_values d l r
    ok (holds_for less_than_or_equal c)
  compare_where greater_than l r = do c ← compare_values d l r; ok (holds_for greater_than c)
  compare_where greater_than_or_equal l r = do
    c ← compare_values d l r
    ok (holds_for greater_than_or_equal c)
  compare_where is l r =
      if is_null l && is_null r
      then ok true
      else if is_null l || is_null r
      then ok false
      else ok (value_eq d l r)
  compare_where is_not l r =
      if is_null l && is_null r
      then ok false
      else if is_null l || is_null r
      then ok true
      else ok (not (value_eq d l r))
  compare_where _ l r = err not_implemented

  module _ (expressions : List Expression) (row : Row) (columns : List Text) where
    unfoldable pub eval_expr : ℕ → Expression → Exec Value
    eval_expr zero e = fault out_of_fuel
    eval_expr (suc f) (literal_bool b) = ok (bool b)
    eval_expr (suc f) (literal_int v) = ok (int v)
    eval_expr (suc f) (literal_float v) = ok (float v)
    eval_expr (suc f) (literal_text s) = ok (text s)
    eval_expr (suc f) literal_null = ok null
    eval_expr (suc f) (column_ref name []) = column_value row columns name
    eval_expr (suc f) (column_ref name (_ ∷ _)) = err not_implemented
    eval_expr (suc f) (binary op l r) = do
      left_expr ← expression_at expressions l
      left ← eval_expr f left_expr
      right_expr ← expression_at expressions r
      right ← eval_expr f right_expr
      eval_binary op left right
    eval_expr (suc f) (unary op o) = do
      operand ← expression_at expressions o
      v ← eval_expr f operand
      eval_unary op v
    eval_expr (suc f) star = err invalid_expression

    -- AND and OR: both sides are evaluated.
    unfoldable pub eval_where : ℕ → Expression → Exec Bool
    eval_where zero e = fault out_of_fuel
    eval_where (suc f) (binary and l r) = do
      left ← expression_at expressions l
      right ← expression_at expressions r
      left_result ← eval_where f left
      right_result ← eval_where f right
      ok (left_result && right_result)
    eval_where (suc f) (binary or l r) = do
      left ← expression_at expressions l
      right ← expression_at expressions r
      left_result ← eval_where f left
      right_result ← eval_where f right
      ok (left_result || right_result)
    eval_where (suc f) (binary op l r) = do
      left ← expression_at expressions l
      right ← expression_at expressions r
      left_value ← eval_expr f left
      right_value ← eval_expr f right
      compare_where op left_value right_value
    eval_where (suc f) _ = ok true
