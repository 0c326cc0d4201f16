-- ===== src/Parser/Pool/Parse.antt =====
-- CREATE TABLE, CREATE INDEX and DROP of src/parser/parser.cpp, and parse: whatever the statement, its
-- expressions are in order.
use microsql.Base.{
  ℕ, zero, suc, ◌+◌, ◌≡◌, true, false, Option, List, [], ◌∷◌, ◌++◌, arith, length, out_of_fuel,
  Text, codes, text_eq,
}
use mathlib.Core.Path.{subst}
use microsql.Base.Int.{ℤ}
use microsql.Ast.Statement.{StatementKind}
use microsql.Ast.Ordered.{IsOrdered}
use microsql.Lexer.Token
use microsql.Lexer.Token.{Token, TokenType, type_eq, end_of_file}
use microsql.Parser.State.{
  Parser, done, Act, pure, back, current, set_error, syntax_error, but_found,
}
use microsql.Parser.Statements.{stops_at, parse_select, parse_insert, parse_update, parse_delete}
use microsql.Parser.Tables.{
  blank_column, parse_column_definition, columns_loop, parse_create_table, parse_create_index,
  parse_create, parse_drop, start, parse_statement, parse,
}
use microsql.Parser.Later.{pool, Later}
use microsql.Parser.Keeps.{
  After, Keeps, Keeps-bind, Keeps-then, Keeps-pure, Keeps-advance, Keeps-current_token,
  Keeps-set_error, Keeps-with_statement, Keeps-if, Keeps-consume, Keeps-consume_identifier,
}
use microsql.Parser.Pool.{
  Keeps-when, Keeps-with_name, Keeps-set_kind, Keeps-set_table, Keeps-option, Keeps-test,
  Keeps-crash, Keeps-semicolon, Keeps-skip_comma, Keeps-parse_select,
}
use microsql.Parser.Pool.Changes.{Keeps-parse_insert, Keeps-parse_delete, Keeps-parse_update}
use microsql.Parser.Pool.Tables.{Keeps-parse_column_type, Keeps-constraints_loop}

module _ (stof : Text → Option ℕ) (fuel : ℕ) where
  Keeps-parse_column_definition : Keeps fuel (parse_column_definition fuel)
  unfolding parse_column_definition
  Keeps-parse_column_definition = record {
    after = λ p r f.
        (Keeps-bind fuel _ _ (Keeps-consume_identifier fuel (codes "column name")) λ name.
            Keeps-option fuel name _ _ (Keeps-pure fuel false) λ n.
              Keeps-bind fuel _ _
                (Keeps-parse_column_type fuel (record (blank_column p.uninitialised) { name = n }))
                λ typed. Keeps-option fuel typed _ _ (Keeps-pure fuel false) λ c.
                  Keeps-bind fuel _ _ (Keeps-constraints_loop fuel fuel c) λ c'.
                    Keeps-then fuel _ _
                      (Keeps-with_statement fuel
                        (λ s. record s { column_definitions = s.column_definitions ++ c' ∷ [] }))
                      (Keeps-then fuel _ _ (Keeps-skip_comma fuel) (Keeps-pure fuel true))).after
          p r f;
  }

  Keeps-columns_loop : (rounds : ℕ) → Keeps fuel (columns_loop fuel rounds)
  unfolding columns_loop
  Keeps-columns_loop zero = Keeps-crash fuel out_of_fuel
  Keeps-columns_loop (suc rounds) =
      Keeps-test fuel (λ p. stops_at Token.right_paren (current p).type) (pure true) _
        (Keeps-pure fuel true)
        (Keeps-bind fuel _ _ Keeps-parse_column_definition
          λ parsed. Keeps-if fuel parsed _ _ (Keeps-columns_loop rounds) (Keeps-pure fuel false))

  Keeps-parse_create_table : Keeps fuel (parse_create_table fuel)
  unfolding parse_create_table
  Keeps-parse_create_table = Keeps-then fuel _ _ (Keeps-advance fuel) (
      Keeps-then fuel _ _ (Keeps-set_kind fuel StatementKind.create_table) (
        Keeps-bind fuel _ _ (Keeps-consume_identifier fuel (codes "table name")) λ name.
          Keeps-with_name fuel name _ λ n. Keeps-then fuel _ _ (Keeps-set_table fuel n) (
            Keeps-bind fuel _ _ (Keeps-consume fuel Token.left_paren (codes "(")) λ opened.
              Keeps-when fuel opened _ (
                Keeps-bind fuel _ _ (Keeps-columns_loop fuel) λ parsed.
                  Keeps-when fuel parsed _
                    (Keeps-then fuel _ _ (Keeps-advance fuel) (Keeps-semicolon stof fuel))))))

  Keeps-parse_create_index : Keeps fuel parse_create_index
  unfolding parse_create_index
  Keeps-parse_create_index = Keeps-then fuel _ _ (Keeps-advance fuel) (
      Keeps-then fuel _ _ (Keeps-set_kind fuel StatementKind.create_index) (
        Keeps-bind fuel _ _ (Keeps-consume fuel Token.on (codes "ON")) λ on. Keeps-when fuel on _ (
          Keeps-bind fuel _ _ (Keeps-consume_identifier fuel (codes "table name")) λ name.
            Keeps-with_name fuel name _ λ n. Keeps-then fuel _ _ (Keeps-set_table fuel n) (
              Keeps-bind fuel _ _ (Keeps-consume fuel Token.left_paren (codes "(")) λ opened.
                Keeps-when fuel opened _ (
                  Keeps-bind fuel _ _ (Keeps-consume_identifier fuel (codes "Column name"))
                    λ column. Keeps-with_name fuel column _ λ c.
                      Keeps-then fuel _ _
                        (Keeps-with_statement fuel (λ s. record s { index_column_name = c }))
                        (Keeps-bind fuel _ _ (Keeps-consume fuel Token.right_paren (codes ")"))
                          λ closed. Keeps-when fuel closed _ (Keeps-semicolon stof fuel)))))))

  Keeps-parse_create : Keeps fuel (parse_create fuel)
  unfolding parse_create
  Keeps-parse_create = Keeps-then fuel _ _ (Keeps-advance fuel) (
      Keeps-bind fuel _ _ (Keeps-current_token fuel) λ t.
        Keeps-if fuel (text_eq t.value (codes "TABLE")) _ _ Keeps-parse_create_table (
          Keeps-if fuel (text_eq t.value (codes "INDEX")) _ _ Keeps-parse_create_index (
            Keeps-set_error fuel
              (syntax_error t.line (but_found (codes "expected 'TABLE' or 'INDEX'") t)))))

  Keeps-parse_drop : Keeps fuel parse_drop
  unfolding parse_drop
  Keeps-parse_drop = Keeps-then fuel _ _ (Keeps-advance fuel) (
      Keeps-then fuel _ _ (Keeps-set_kind fuel StatementKind.drop_table) (
        Keeps-bind fuel _ _ (Keeps-consume fuel Token.table (codes "TABLE")) λ table.
          Keeps-when fuel table _ (
            Keeps-bind fuel _ _ (Keeps-consume_identifier fuel (codes "table name")) λ name.
              Keeps-with_name fuel name _
                λ n. Keeps-then fuel _ _ (Keeps-set_table fuel n) (Keeps-semicolon stof fuel))))

  Keeps-parse_statement : Keeps fuel (parse_statement stof fuel)
  unfolding parse_statement
  Keeps-parse_statement = Keeps-bind fuel _ _ (Keeps-current_token fuel) λ t. by_type t t.type
    where
      by_type :
          (t : Token) (type : TokenType)
          → Keeps fuel (elim type as (λ _. Act (Unit {0})) [
            | Token.select ↦ parse_select stof fuel
            | Token.insert ↦ parse_insert stof fuel
            | Token.create ↦ parse_create fuel
            | Token.update ↦ parse_update stof fuel
            | Token.delete ↦ parse_delete stof fuel
            | Token.drop_ ↦ parse_drop
            | _ ↦
                set_error
                  (syntax_error t.line (codes "unexpected token '" ++ (t.value ++ codes "'")))
          ])
      by_type t Token.select = Keeps-parse_select stof fuel
      by_type t Token.insert = Keeps-parse_insert stof fuel
      by_type t Token.create = Keeps-parse_create
      by_type t Token.update = Keeps-parse_update stof fuel
      by_type t Token.delete = Keeps-parse_delete stof fuel
      by_type t Token.drop_ = Keeps-parse_drop
      by_type t _ =
          Keeps-set_error fuel
            (syntax_error t.line (codes "unexpected token '" ++ (t.value ++ codes "'")))

-- Where parse comes to its end on tokens that end in the end token, every operand of an
-- expression stands before it in the list, whatever the statement and whether or not there is an
-- error message.
pub parse-IsOrdered :
    (stof : Text → Option ℕ) (uninitialised : ℤ) (tokens : List Token) (q : Parser)
    → (back tokens).type ≡ end_of_file
    → parse stof uninitialised tokens ≡ done tt q
    → IsOrdered (pool q)
unfolding parse
parse-IsOrdered stof uninitialised tokens q ends run =
    let p = start uninitialised tokens in
    let l : Later p q = subst (After p) run (
      (Keeps-parse_statement stof (length tokens + 1)).after p
        (record { ordered = record { below = λ i e at. cc }; ends = ends }) (omega arith)) in
    l.ready.ordered
