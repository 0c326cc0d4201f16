-- ===== src/CommandLine/Overrun.antt =====
-- printResult of src/main.cpp on what execSelect of src/executor/executor.cpp gives.
use microsql.Base.{
  ℕ, ◌<◌, ◌≡◌, refl, List, [], ◌∷◌, map, arith, length, undefined, ok, fault, OnOk, Text,
}
use mathlib.Core.Path.{subst}
use microsql.Ast.Statement.{Statement, ColumnDefinition}
use microsql.Ast.Expression.{Expression}
use microsql.Storage.Row.{Row}
use microsql.Executor.Statements.{selected}
use microsql.Executor.Values.{Double}
use microsql.Executor.Scan.{select_body}
use microsql.Executor.Session.{Session}
use microsql.Executor.Width.{HaveLength, name_count, IsResult, select_body-IsResult}
use microsql.CommandLine.Output.{Format, widen, widen_all, print_table, print_result}
use microsql.CommandLine.Widths.{texts, length-texts, length-map_length}

-- The loop over the values of a row that has more of them than there are widths.
widen-longer :
    (widths : List ℕ) (row : List Text)
    → length widths < length row
    → widen widths row ≡ fault undefined
unfolding widen
widen-longer widths [] h = absurd (omega arith)
widen-longer [] (c ∷ row) h = refl
widen-longer (w ∷ widths) (c ∷ row) h = rw (widen-longer widths row (omega arith))

module _ (f : Format) where
  print_table-longer :
      (columns : List Text) (row : Row) (rows : List Row) (message : Text)
      → length columns < length row
      → print_table f columns (row ∷ rows) message ≡ fault undefined
  unfolding print_table widen_all
  print_table-longer columns row rows message h = rw (
      widen-longer (map length columns) (texts f row)
        (omega (arith, length-texts f row, length-map_length columns)))

  -- Where execSelect comes to its end with some row, and the select list names some columns but
  -- fewer than the table has, printResult goes behind the end of its vector of widths.
  pub print_result-select_body :
      (d : Double) (expressions : List Expression) (statement : Statement)
      (columns : List ColumnDefinition) (s : Session) (names : List Text) (row : Row)
      (rows : List Row)
      → (select_body d expressions statement columns s).1 ≡ ok (names, row ∷ rows)
      → 0 < length statement.select_columns
      → length statement.select_columns < length columns
      → print_result f (selected (names, row ∷ rows)) ≡ fault undefined
  unfolding print_result HaveLength
  print_result-select_body d expressions statement columns s names row rows run some_name fewer =
      let (count, (wide, _)) =
        subst (OnOk (IsResult statement.select_columns columns)) run
          (select_body-IsResult d expressions statement columns s) in
      go names statement.select_columns count wide some_name fewer
    where
      go :
          (names : List Text) (indices : List ℕ)
          → length names ≡ name_count indices columns
          → length row ≡ length columns
          → 0 < length indices
          → length indices < length columns
          → print_result f (selected (names, row ∷ rows)) ≡ fault undefined
      go names [] count wide some_name fewer = absurd (omega arith)
      go [] (i ∷ indices) count wide some_name fewer = absurd (omega (arith, count))
      go (name ∷ names) (i ∷ indices) count wide some_name fewer =
          print_table-longer (name ∷ names) row rows _ (omega (arith, count, wide, fewer))
