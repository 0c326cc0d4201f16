-- ===== src/Parser/Statements.antt =====
-- SELECT, INSERT, UPDATE and DELETE of src/parser/parser.cpp.
use microsql.Base.{
  ℕ, zero, suc, Bool, true, false, ◌||◌, Option, none, some, [], ◌∷◌, ◌++◌, if◌then◌else◌, set,
  out_of_fuel, Text, codes, to_string,
}
use microsql.Lexer.Token
use microsql.Lexer.Token.{TokenType, Token, type_eq}
use microsql.Ast.Statement.{StatementKind}
use microsql.Parser.State.{
  done, crash, Act, pure, ◌>>=◌, ◌>>◌, current, current_token, advance, current_is, set_error,
  set_first_error, syntax_error, consume, consume_identifier, with_statement,
}
use microsql.Parser.Expressions.{parse_expression}

-- `if (!...) return;`
abbrev pub when : Bool → Act (Unit {0}) → Act (Unit {0})
when true k = k
when false k = pure tt

abbrev pub with_name : Option Text → (Text → Act (Unit {0})) → Act (Unit {0})
with_name none k = pure tt
with_name (some name) k = k name

abbrev pub with_index : Option ℕ → (ℕ → Act (Unit {0})) → Act (Unit {0})
with_index none k = pure tt
with_index (some i) k = k i

unfoldable pub set_kind : StatementKind → Act (Unit {0})
unfolding with_statement
set_kind kind = with_statement (λ s. record s { kind = kind })

unfoldable pub set_table : Text → Act (Unit {0})
unfolding with_statement
set_table name = with_statement (λ s. record s { table_name = name })

unfoldable pub set_where : Option ℕ → Act (Unit {0})
unfolding with_statement
set_where i = with_statement (λ s. record s { where_index = i })

-- The loops that stop at a closing token, `;` or the end.
abbrev pub stops_at : TokenType → TokenType → Bool
stops_at closing t = type_eq t closing || type_eq t Token.semicolon || type_eq t Token.end_of_file

-- `if (currentIs(COMMA)) advance();`
unfoldable pub skip_comma : Act (Unit {0})
unfolding current_is advance
skip_comma = do comma ← current_is Token.comma; when comma advance

module _ (stof : Text → Option ℕ) (fuel : ℕ) where
  unfoldable pub require_expression : Text → Act (Option ℕ)
  unfolding parse_expression set_first_error
  require_expression context = do
    index ← parse_expression stof fuel
    elim index [
      | none ↦ do t ← current_token; set_first_error (syntax_error t.line context); pure none
      | some i ↦ pure (some i)
    ]

  -- The WHERE clause, if there is one; the Boolean says whether the method goes on.
  unfoldable pub parse_where : Act Bool
  unfolding current_is advance require_expression set_where
  parse_where = do
    there ← current_is Token.where_
    if there
        then (do
          advance
          index ← require_expression (codes "expected expression after WHERE")
          elim index [ none ↦ pure false | some i ↦ do set_where (some i); pure true ])
        else (do set_where none; pure true)

  unfoldable pub select_loop : ℕ → Act Bool
  unfolding parse_expression skip_comma set_first_error with_statement
  select_loop zero p = crash out_of_fuel
  select_loop (suc rounds) p = elim (stops_at Token.from (current p).type) [
    | true ↦ done true p
    | false ↦
        (do
          index ← parse_expression stof fuel
          elim index [
            | none ↦ do
              t ← current_token
              set_first_error (codes "Unknown expression at line " ++ to_string t.line)
              pure false
            | some i ↦ do
              with_statement (λ s. record s { select_columns = s.select_columns ++ i ∷ [] })
              skip_comma
              select_loop rounds
          ])
          p
  ]

  -- `*`, or the list of output columns.
  unfoldable pub select_list : Act Bool
  unfolding select_loop current_is advance set_error
  select_list = do
    star ← current_is Token.star
    if star
        then (do
          advance
          t ← current_token
          if stops_at Token.from t.type then pure true else (do
            set_error (syntax_error t.line (codes "unexpected token '" ++ (t.value ++ codes "'")))
            pure false))
        else select_loop fuel

  unfoldable pub parse_select : Act (Unit {0})
  unfolding select_list parse_where set_kind set_table advance current_is consume_identifier
  parse_select = do
    advance
    set_kind StatementKind.select
    listed ← select_list
    when listed (do
      from ← current_is Token.from
      when from (do
        advance
        name ← consume_identifier (codes "table name after FROM")
        with_name name λ n. do set_table n; _ ← parse_where; pure tt))

  -- Any token is taken for a column name.
  unfoldable pub push_column_name : Act (Unit {0})
  unfolding with_statement advance
  push_column_name = do
    t ← current_token
    with_statement (λ s. record s { insert_column_names = s.insert_column_names ++ t.value ∷ [] })
    advance

  unfoldable pub column_names_loop : ℕ → Act (Unit {0})
  unfolding skip_comma push_column_name
  column_names_loop zero p = crash out_of_fuel
  column_names_loop (suc rounds) p = elim (stops_at Token.right_paren (current p).type) [
    | true ↦ done tt p
    | false ↦ (do skip_comma; push_column_name; skip_comma; column_names_loop rounds) p
  ]

  -- The result of the expression is pushed whether it is an index or -1.
  unfoldable pub push_value : Act (Unit {0})
  unfolding parse_expression with_statement
  push_value = do
    index ← parse_expression stof fuel
    with_statement (λ s. record s { insert_values = s.insert_values ++ index ∷ [] })

  unfoldable pub values_loop : ℕ → Act (Unit {0})
  unfolding skip_comma push_value
  values_loop zero p = crash out_of_fuel
  values_loop (suc rounds) p = elim (stops_at Token.right_paren (current p).type) [
    | true ↦ done tt p
    | false ↦ (do skip_comma; push_value; skip_comma; values_loop rounds) p
  ]

  -- The optional column list of INSERT.
  unfoldable pub insert_columns : Act Bool
  unfolding column_names_loop push_column_name current_is advance consume
  insert_columns = do
    listed ← current_is Token.left_paren
    if listed
        then (do
          advance
          push_column_name
          column_names_loop fuel
          consume Token.right_paren (codes ")"))
        else pure true

  unfoldable pub insert_tuple : Act (Unit {0})
  unfolding values_loop push_value current_is advance consume
  insert_tuple = do
    there ← current_is Token.left_paren
    when there (do
      advance
      push_value
      more ← current_is Token.comma
      when more (do advance; values_loop fuel)
      closed ← consume Token.right_paren (codes ")")
      when closed (do _ ← consume Token.semicolon (codes ";"); pure tt))

  unfoldable pub parse_insert : Act (Unit {0})
  unfolding insert_columns insert_tuple set_kind set_table advance consume consume_identifier
  parse_insert = do
    advance
    set_kind StatementKind.insert
    into ← consume Token.into (codes "INTO")
    when into (do
      name ← consume_identifier (codes "table name")
      with_name name λ n. do
        set_table n
        columns ← insert_columns
        when columns (do values ← consume Token.values (codes "VALUES"); when values insert_tuple))

  unfoldable pub parse_delete : Act (Unit {0})
  unfolding parse_where set_kind set_table advance consume consume_identifier
  parse_delete = do
    advance
    set_kind StatementKind.delete
    from ← consume Token.from (codes "FROM")
    when from (do
      name ← consume_identifier (codes "table name")
      with_name name λ n. do
        set_table n
        more ← parse_where
        when more (do _ ← consume Token.semicolon (codes ";"); pure tt))

  unfoldable pub parse_assignment : Act Bool
  unfolding require_expression consume consume_identifier with_statement
  parse_assignment = do
    column ← consume_identifier (codes "column name")
    elim column [
      | none ↦ pure false
      | some name ↦ do
        assigned ← consume Token.equal (codes "=")
        if assigned
            then (do
              index ← require_expression (codes "expected expression after '='")
              elim index [
                | none ↦ pure false
                | some i ↦ do
                  with_statement (λ s. record s { assignments = s.assignments ++ (name, i) ∷ [] })
                  pure true
              ])
            else pure false
    ]

  unfoldable pub assignments_loop : ℕ → Act Bool
  unfolding parse_assignment advance
  assignments_loop zero p = crash out_of_fuel
  assignments_loop (suc rounds) p = elim (type_eq (current p).type Token.comma) [
    | false ↦ done true p
    | true ↦
        (do
          advance
          assigned ← parse_assignment
          if assigned then assignments_loop rounds else pure false)
          p
  ]

  unfoldable pub parse_update : Act (Unit {0})
  unfolding parse_assignment assignments_loop parse_where set_kind set_table advance consume
      consume_identifier
  parse_update = do
    advance
    set_kind StatementKind.update
    name ← consume_identifier (codes "table name")
    with_name name λ n. do
      set_table n
      set ← consume Token.set_ (codes "SET")
      when set (do
        first ← parse_assignment
        when first (do
          assigned ← assignments_loop fuel
          when assigned (do
            more ← parse_where
            when more (do _ ← consume Token.semicolon (codes ";"); pure tt))))
