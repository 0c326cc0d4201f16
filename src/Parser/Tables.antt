-- ===== src/Parser/Tables.antt =====
-- CREATE TABLE, CREATE INDEX and DROP TABLE of src/parser/parser.cpp, and `parse`.
use microsql.Base.{
  ℕ, zero, suc, ◌+◌, Bool, true, false, ◌&&◌, ◌||◌, Option, none, some, List, [], ◌∷◌, ◌++◌,
  if◌then◌else◌, length, invalid_argument, out_of_fuel, ok, err, fault, Text, codes, text_eq,
}
use microsql.Base.Int.{ℤ, pos}
use microsql.Base.Number.{stoi}
use microsql.Lexer.Token
use microsql.Lexer.Token.{TokenType, Token, type_eq}
use microsql.Ast.Statement.{Statement, StatementKind, DataType, ColumnDefinition}
use microsql.Parser.State.{
  Parser, Run, done, crash, Act, pure, ◌>>=◌, ◌>>◌, current, peek, current_token, advance, peek_is,
  set_error, syntax_error, but_found, consume, consume_identifier, with_statement,
}
use microsql.Parser.Statements.{
  when, with_name, set_kind, set_table, stops_at, skip_comma, parse_select, parse_insert,
  parse_update, parse_delete,
}

-- A length in parentheses behind TEXT, or 255.
unfoldable pub parse_text_length : ColumnDefinition → Act (Option ColumnDefinition)
unfolding peek_is advance consume
parse_text_length c = do
  given ← peek_is Token.left_paren
  if given
      then (do
        advance
        advance
        t ← current_token
        λ p. elim (stoi t.value) [
          | err _ ↦ crash invalid_argument
          | fault u ↦ crash u
          | ok n ↦
              (do
                advance
                closed ← consume Token.right_paren (codes ")")
                if closed then pure (some (record c { text_length = n })) else pure none)
                p
        ])
      else (do advance; pure (some (record c { text_length = pos 255 })))

abbrev pub with_type : ColumnDefinition → DataType → ColumnDefinition
with_type c t = record c { type = t }

unfoldable pub parse_column_type : ColumnDefinition → Act (Option ColumnDefinition)
unfolding parse_text_length advance set_error
parse_column_type c = do
  t ← current_token
  elim t.type [
    | Token.integer ↦ do advance; pure (some (with_type c DataType.integer))
    | Token.float ↦ do advance; pure (some (with_type c DataType.float))
    | Token.text ↦ parse_text_length (with_type c DataType.text)
    | Token.boolean ↦ do advance; pure (some (with_type c DataType.boolean))
    | _ ↦ do
      set_error (
          syntax_error t.line
            (but_found (codes "expected 'INTEGER','FLOAT','TEXT' or 'BOOLEAN'") t))
      pure none
  ]

-- The two tests of a round of the constraint loop.
unfoldable pub take_primary_key : ColumnDefinition → Act ColumnDefinition
unfolding advance
take_primary_key c p =
    if type_eq (current p).type Token.primary && type_eq (peek p).type Token.key
    then (do advance; advance; pure (record c { primary_key = true })) p
    else done c p

unfoldable pub take_not_null : ColumnDefinition → Act ColumnDefinition
unfolding advance
take_not_null c p =
    if type_eq (current p).type Token.not_ && type_eq (peek p).type Token.tknull
    then (do advance; advance; pure (record c { not_null = true })) p
    else done c p

unfoldable pub constraints_loop : ℕ → ColumnDefinition → Act ColumnDefinition
unfolding take_primary_key take_not_null
constraints_loop zero c p = crash out_of_fuel
constraints_loop (suc rounds) c p =
    elim (type_eq (current p).type Token.primary || type_eq (current p).type Token.not_) [
      | false ↦ done c p
      | true ↦ (do c' ← take_primary_key c; c'' ← take_not_null c'; constraints_loop rounds c'') p
    ]

-- The column before its name and type are read.
abbrev pub blank_column : ℤ → ColumnDefinition
blank_column n = record {
  name = [];
  type = DataType.integer;
  text_length = n;
  not_null = false;
  primary_key = false;
}

-- One column definition; the Boolean says whether the loop goes on.
unfoldable pub parse_column_definition : ℕ → Act Bool
unfolding parse_column_type constraints_loop skip_comma consume_identifier with_statement
parse_column_definition fuel p =
    (do
      name ← consume_identifier (codes "column name")
      elim name [
        | none ↦ pure false
        | some n ↦ do
          typed ← parse_column_type (record (blank_column p.uninitialised) { name = n })
          elim typed [
            | none ↦ pure false
            | some c ↦ do
              c' ← constraints_loop fuel c
              with_statement
                  (λ s. record s { column_definitions = s.column_definitions ++ c' ∷ [] })
              skip_comma
              pure true
          ]
      ])
      p

unfoldable pub columns_loop : ℕ → ℕ → Act Bool
unfolding parse_column_definition
columns_loop fuel zero p = crash out_of_fuel
columns_loop fuel (suc rounds) p = elim (stops_at Token.right_paren (current p).type) [
  | true ↦ done true p
  | false ↦
      (do
        parsed ← parse_column_definition fuel
        if parsed then columns_loop fuel rounds else pure false)
        p
]

unfoldable pub parse_create_table : ℕ → Act (Unit {0})
unfolding columns_loop set_kind set_table advance consume consume_identifier
parse_create_table fuel = do
  advance
  set_kind StatementKind.create_table
  name ← consume_identifier (codes "table name")
  with_name name λ n. do
    set_table n
    opened ← consume Token.left_paren (codes "(")
    when opened (do
      parsed ← columns_loop fuel fuel
      when parsed (do advance; _ ← consume Token.semicolon (codes ";"); pure tt))

unfoldable pub parse_create_index : Act (Unit {0})
unfolding set_kind set_table advance consume consume_identifier with_statement
parse_create_index = do
  advance
  set_kind StatementKind.create_index
  on ← consume Token.on (codes "ON")
  when on (do
    name ← consume_identifier (codes "table name")
    with_name name λ n. do
      set_table n
      opened ← consume Token.left_paren (codes "(")
      when opened (do
        column ← consume_identifier (codes "Column name")
        with_name column λ c. do
          with_statement (λ s. record s { index_column_name = c })
          closed ← consume Token.right_paren (codes ")")
          when closed (do _ ← consume Token.semicolon (codes ";"); pure tt)))

-- The words TABLE and INDEX are compared as they are written.
unfoldable pub parse_create : ℕ → Act (Unit {0})
unfolding parse_create_table parse_create_index advance set_error
parse_create fuel = do
  advance
  t ← current_token
  if text_eq t.value (codes "TABLE")
      then parse_create_table fuel
      else if text_eq t.value (codes "INDEX")
      then parse_create_index
      else set_error (syntax_error t.line (but_found (codes "expected 'TABLE' or 'INDEX'") t))

unfoldable pub parse_drop : Act (Unit {0})
unfolding set_kind set_table advance consume consume_identifier
parse_drop = do
  advance
  set_kind StatementKind.drop_table
  table ← consume Token.table (codes "TABLE")
  when table (do
    name ← consume_identifier (codes "table name")
    with_name name λ n. do set_table n; _ ← consume Token.semicolon (codes ";"); pure tt)

-- The statement before any method has written to it. Its kind and WHERE index, which the source
-- leaves without a value, are not read before they are written.
abbrev pub blank_statement : Statement
blank_statement = record {
  kind = StatementKind.select;
  table_name = [];
  select_columns = [];
  where_index = none;
  insert_column_names = [];
  insert_values = [];
  assignments = [];
  column_definitions = [];
  index_column_name = [];
}

abbrev pub start : ℤ → List Token → Parser
start uninitialised tokens = record {
  tokens = tokens;
  position = 0;
  result = record { expressions = []; statement = blank_statement; error = [] };
  uninitialised = uninitialised;
}

unfoldable pub parse_statement : (Text → Option ℕ) → ℕ → Act (Unit {0})
unfolding parse_select parse_insert parse_update parse_delete parse_create parse_drop set_error
parse_statement stof fuel = do
  t ← current_token
  elim t.type [
    | Token.select ↦ parse_select stof fuel
    | Token.insert ↦ parse_insert stof fuel
    | Token.create ↦ parse_create fuel
    | Token.update ↦ parse_update stof fuel
    | Token.delete ↦ parse_delete stof fuel
    | Token.drop_ ↦ parse_drop
    | _ ↦ set_error (syntax_error t.line (codes "unexpected token '" ++ (t.value ++ codes "'")))
  ]

-- parse; each loop and each nesting has one round more than there are tokens.
unfoldable pub parse : (Text → Option ℕ) → ℤ → List Token → Run (Unit {0})
unfolding parse_statement
parse stof uninitialised tokens =
    parse_statement stof (length tokens + 1) (start uninitialised tokens)
