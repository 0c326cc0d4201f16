-- ===== src/Executor/Rows.antt =====
-- rowFromInsertValues and rowFromUpdate of src/executor/executor_helpers.cpp.
-- `fuel` is what the evaluator is given for each expression.
use microsql.Base.{
  ℕ, Option, none, some, List, [], ◌∷◌, ◌++◌, ltb, if◌then◌else◌, length, get_elem?, set, undefined,
  ok, err, fault, ◌>>=◌, Text,
}
use microsql.Ast.Statement.{Statement, ColumnDefinition}
use microsql.Ast.Expression.{Expression}
use microsql.Storage.Row.{Value, Row, null}
use microsql.Executor.Error.{Exec, error_getting_data, not_null_violation}
use microsql.Executor.Values.{Double}
use microsql.Executor.Eval.{index_of, or_undefined, expression_at, eval_expr}

module _ (d : Double) (fuel : ℕ) (expressions : List Expression) where
  -- The expression at an index that may be -1, over no row.
  unfoldable pub insert_value : Option ℕ → Exec Value
  insert_value none = fault undefined
  insert_value (some i) = do e ← expression_at expressions i; eval_expr d expressions [] [] fuel e

  -- INSERT without a column list: the values in their order.
  unfoldable pub row_from_values : Row → List (Option ℕ) → Exec Row
  row_from_values row [] = ok row
  row_from_values row (index ∷ indices) = do
    value ← insert_value index
    row_from_values (row ++ value ∷ []) indices

  -- What the column gets, by the place of its name in the column list.
  unfoldable pub column_insert_value : List Text → List (Option ℕ) → ColumnDefinition → Exec Value
  unfolding insert_value
  column_insert_value names values col = elim (index_of names col.name) [
    | some place ↦ do index ← or_undefined (get_elem? values place); insert_value index
    | none ↦ if col.not_null then err not_null_violation else ok null
  ]

  unfoldable pub row_from_columns :
      Row → List Text → List (Option ℕ) → List ColumnDefinition → Exec Row
  row_from_columns row names values [] = ok row
  row_from_columns row names values (col ∷ columns) = do
    value ← column_insert_value names values col
    row_from_columns (row ++ value ∷ []) names values columns

  unfoldable pub row_from_insert_values : Statement → List ColumnDefinition → Exec Row
  row_from_insert_values s columns = elim s.insert_column_names [
    | [] ↦ row_from_values [] s.insert_values
    | name ∷ names ↦ row_from_columns [] (name ∷ names) s.insert_values columns
  ]

  -- `updated[i] = value`
  unfoldable pub write_column : Row → ℕ → Value → Exec Row
  write_column updated i value =
      if ltb i (length updated) then ok (set updated i value) else fault undefined

  -- One assignment: the value is computed from the row as it was.
  unfoldable pub assign : Row → List Text → Row → Text × ℕ → Exec Row
  unfolding write_column
  assign row column_names updated (name, index) = elim (index_of column_names name) [
    | none ↦ err error_getting_data
    | some i ↦ do
      e ← expression_at expressions index
      value ← eval_expr d expressions row column_names fuel e
      write_column updated i value
  ]

  unfoldable pub assign_all : Row → List Text → Row → List (Text × ℕ) → Exec Row
  assign_all row column_names updated [] = ok updated
  assign_all row column_names updated (a ∷ assignments) = do
    updated ← assign row column_names updated a
    assign_all row column_names updated assignments

  unfoldable pub row_from_update : Row → List (Text × ℕ) → List Text → Exec Row
  row_from_update row assignments column_names = assign_all row column_names row assignments
