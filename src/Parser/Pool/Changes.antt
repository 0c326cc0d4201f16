-- ===== src/Parser/Pool/Changes.antt =====
-- INSERT, DELETE and UPDATE of src/parser/parser.cpp leave their expressions in order.
use microsql.Base.{ℕ, zero, suc, true, false, Option, [], ◌∷◌, ◌++◌, out_of_fuel, Text, codes}
use microsql.Ast.Statement.{StatementKind}
use microsql.Lexer.Token
use microsql.Lexer.Token.{Token, TokenType, type_eq}
use microsql.Parser.State.{pure, current}
use microsql.Parser.Statements.{
  insert_columns, insert_tuple, parse_insert, parse_delete, parse_assignment, assignments_loop,
  parse_update,
}
use microsql.Parser.Keeps.{
  Keeps, Keeps-bind, Keeps-then, Keeps-pure, Keeps-advance, Keeps-current_is, Keeps-with_statement,
  Keeps-if, Keeps-consume, Keeps-consume_identifier,
}
use microsql.Parser.Pool.{
  Keeps-when, Keeps-with_name, Keeps-set_kind, Keeps-set_table, Keeps-option, Keeps-test,
  Keeps-crash, Keeps-require_expression, Keeps-parse_where, Keeps-semicolon, Keeps-push_column_name,
  Keeps-column_names_loop, Keeps-push_value, Keeps-values_loop,
}

module _ (stof : Text → Option ℕ) (fuel : ℕ) where
  Keeps-insert_columns : Keeps fuel (insert_columns stof fuel)
  unfolding insert_columns
  Keeps-insert_columns = Keeps-bind fuel _ _ (Keeps-current_is fuel Token.left_paren) λ listed.
      Keeps-if fuel listed _ _
        (Keeps-then fuel _ _ (Keeps-advance fuel) (
          Keeps-then fuel _ _ (Keeps-push_column_name stof fuel) (
            Keeps-then fuel _ _ (Keeps-column_names_loop stof fuel fuel)
              (Keeps-consume fuel Token.right_paren (codes ")")))))
        (Keeps-pure fuel true)

  Keeps-insert_tuple : Keeps fuel (insert_tuple stof fuel)
  unfolding insert_tuple
  Keeps-insert_tuple = Keeps-bind fuel _ _ (Keeps-current_is fuel Token.left_paren) λ there.
      Keeps-when fuel there _ (
        Keeps-then fuel _ _ (Keeps-advance fuel) (
          Keeps-then fuel _ _ (Keeps-push_value stof fuel) (
            Keeps-bind fuel _ _ (Keeps-current_is fuel Token.comma) λ more.
              Keeps-then fuel _ _
                (Keeps-when fuel more _
                  (Keeps-then fuel _ _ (Keeps-advance fuel) (Keeps-values_loop stof fuel fuel)))
                (Keeps-bind fuel _ _ (Keeps-consume fuel Token.right_paren (codes ")"))
                  λ closed. Keeps-when fuel closed _ (Keeps-semicolon stof fuel)))))

  pub Keeps-parse_insert : Keeps fuel (parse_insert stof fuel)
  unfolding parse_insert
  Keeps-parse_insert = Keeps-then fuel _ _ (Keeps-advance fuel) (
      Keeps-then fuel _ _ (Keeps-set_kind fuel StatementKind.insert) (
        Keeps-bind fuel _ _ (Keeps-consume fuel Token.into (codes "INTO")) λ into.
          Keeps-when fuel into _ (
            Keeps-bind fuel _ _ (Keeps-consume_identifier fuel (codes "table name")) λ name.
              Keeps-with_name fuel name _ λ n. Keeps-then fuel _ _ (Keeps-set_table fuel n) (
                Keeps-bind fuel _ _ Keeps-insert_columns λ columns. Keeps-when fuel columns _ (
                  Keeps-bind fuel _ _ (Keeps-consume fuel Token.values (codes "VALUES"))
                    λ values. Keeps-when fuel values _ Keeps-insert_tuple)))))

  pub Keeps-parse_delete : Keeps fuel (parse_delete stof fuel)
  unfolding parse_delete
  Keeps-parse_delete = Keeps-then fuel _ _ (Keeps-advance fuel) (
      Keeps-then fuel _ _ (Keeps-set_kind fuel StatementKind.delete) (
        Keeps-bind fuel _ _ (Keeps-consume fuel Token.from (codes "FROM")) λ from.
          Keeps-when fuel from _ (
            Keeps-bind fuel _ _ (Keeps-consume_identifier fuel (codes "table name")) λ name.
              Keeps-with_name fuel name _ λ n. Keeps-then fuel _ _ (Keeps-set_table fuel n) (
                Keeps-bind fuel _ _ (Keeps-parse_where stof fuel)
                  λ more. Keeps-when fuel more _ (Keeps-semicolon stof fuel)))))

  Keeps-parse_assignment : Keeps fuel (parse_assignment stof fuel)
  unfolding parse_assignment
  Keeps-parse_assignment =
      Keeps-bind fuel _ _ (Keeps-consume_identifier fuel (codes "column name")) λ column.
        Keeps-option fuel column _ _ (Keeps-pure fuel false) λ name.
          Keeps-bind fuel _ _ (Keeps-consume fuel Token.equal (codes "=")) λ assigned.
            Keeps-if fuel assigned _ _
              (Keeps-bind fuel _ _
                (Keeps-require_expression stof fuel (codes "expected expression after '='"))
                λ index. Keeps-option fuel index _ _ (Keeps-pure fuel false) λ i.
                  Keeps-then fuel _ _
                    (Keeps-with_statement fuel
                      (λ s. record s { assignments = s.assignments ++ (name, i) ∷ [] }))
                    (Keeps-pure fuel true))
              (Keeps-pure fuel false)

  Keeps-assignments_loop : (rounds : ℕ) → Keeps fuel (assignments_loop stof fuel rounds)
  unfolding assignments_loop
  Keeps-assignments_loop zero = Keeps-crash fuel out_of_fuel
  Keeps-assignments_loop (suc rounds) =
      Keeps-test fuel (λ p. type_eq (current p).type Token.comma) _ (pure true)
        (Keeps-then fuel _ _ (Keeps-advance fuel) (
          Keeps-bind fuel _ _ Keeps-parse_assignment λ assigned.
            Keeps-if fuel assigned _ _ (Keeps-assignments_loop rounds) (Keeps-pure fuel false)))
        (Keeps-pure fuel true)

  pub Keeps-parse_update : Keeps fuel (parse_update stof fuel)
  unfolding parse_update
  Keeps-parse_update = Keeps-then fuel _ _ (Keeps-advance fuel) (
      Keeps-then fuel _ _ (Keeps-set_kind fuel StatementKind.update) (
        Keeps-bind fuel _ _ (Keeps-consume_identifier fuel (codes "table name")) λ name.
          Keeps-with_name fuel name _ λ n. Keeps-then fuel _ _ (Keeps-set_table fuel n) (
            Keeps-bind fuel _ _ (Keeps-consume fuel Token.set_ (codes "SET")) λ set.
              Keeps-when fuel set _ (
                Keeps-bind fuel _ _ Keeps-parse_assignment λ first. Keeps-when fuel first _ (
                  Keeps-bind fuel _ _ (Keeps-assignments_loop fuel) λ assigned.
                    Keeps-when fuel assigned _ (
                      Keeps-bind fuel _ _ (Keeps-parse_where stof fuel)
                        λ more. Keeps-when fuel more _ (Keeps-semicolon stof fuel)))))))
