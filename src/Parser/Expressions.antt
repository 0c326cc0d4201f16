-- ===== src/Parser/Expressions.antt =====
-- The expression grammar of src/parser/parser.cpp, lowest precedence last: a result `none` is -1.
-- `next` is the level below; the nested call in parentheses is a parameter, so that each level is a
-- definition of its own. Loops and nesting take fuel.
use microsql.Base.{
  ℕ, zero, suc, true, false, Option, none, some, [], ◌++◌, if◌then◌else◌, invalid_argument,
  out_of_range, out_of_fuel, ok, err, fault, Text, codes, to_string,
}
use microsql.Base.Number.{stoi}
use microsql.Lexer.Token
use microsql.Lexer.Token.{
  TokenType, Token, type_eq, left_paren, right_paren, identifier, dot, is, not_, or, and, plus,
  minus, star, slash, true_,
}
use microsql.Ast.Expression.{
  BinaryOperator, UnaryOperator, negate, Expression, literal_int, literal_float, literal_text,
  literal_bool, literal_null, column_ref, binary, unary,
}
use microsql.Parser.State.{
  done, crash, Act, pure, ◌>>=◌, ◌>>◌, current, current_token, peek_token, advance, current_is,
  peek_is, set_error, set_first_error, push_expression, syntax_error, but_found,
}

-- An early `return -1`.
abbrev pub or_return : Option ℕ → (ℕ → Act (Option ℕ)) → Act (Option ℕ)
or_return none k = pure none
or_return (some i) k = k i

-- The literal, pushed; then the token is left behind.
unfoldable pub push_literal : Expression → Act (Option ℕ)
unfolding push_expression advance
push_literal e = do index ← push_expression e; advance; pure (some index)

-- What `std::stoi` and `std::stof` throw ends the program.
unfoldable pub parse_integer : Text → Act (Option ℕ)
unfolding push_literal
parse_integer s p = elim (stoi s) [
  | ok v ↦ push_literal (literal_int v) p
  | err _ ↦ crash invalid_argument
  | fault u ↦ crash u
]

unfoldable pub parse_float : Option ℕ → Act (Option ℕ)
unfolding push_literal
parse_float none p = crash out_of_range
parse_float (some v) p = push_literal (literal_float v) p

-- An identifier, with a prefix if a dot follows.
unfoldable pub parse_column : Act (Option ℕ)
unfolding push_literal advance peek_is set_error
parse_column = do
  dotted ← peek_is dot
  t ← current_token
  if dotted
      then (do
        advance
        named ← peek_is identifier
        if named
            then (do
              advance
              column ← current_token
              push_literal (column_ref column.value t.value))
            else (do
              found ← peek_token
              at ← current_token
              set_error (
                  codes "Expected column name after '.' but found '"
                  ++ (found.value ++ (codes "' at line " ++ to_string at.line)))
              pure none))
      else push_literal (column_ref t.value [])

module _ (stof : Text → Option ℕ) where
  unfoldable pub parse_primary : Act (Option ℕ) → Act (Option ℕ)
  unfolding parse_column parse_integer parse_float push_literal advance current_is set_error
  parse_primary nested = do
    t ← current_token
    elim t.type [
      | Token.identifier ↦ parse_column
      | Token.integer_literal ↦ parse_integer t.value
      | Token.float_literal ↦ parse_float (stof t.value)
      | Token.string_literal ↦ push_literal (literal_text t.value)
      | Token.tknull ↦ push_literal literal_null
      | Token.true_ ↦ push_literal (literal_bool true)
      | Token.false_ ↦ push_literal (literal_bool false)
      | Token.left_paren ↦ do
        advance
        index ← nested
        or_return index λ i. do
          closed ← current_is right_paren
          if closed then (do advance; pure (some i)) else (do
            found ← current_token
            set_error (syntax_error found.line (but_found (codes "expected ')'") found))
            pure none)
      | _ ↦ pure none
    ]

  unfoldable pub parse_unary : Act (Option ℕ) → Act (Option ℕ)
  unfolding parse_primary current_is advance push_expression
  parse_unary nested = do
    negative ← current_is minus
    if negative
        then (do
          advance
          operand ← parse_primary nested
          or_return operand λ o. do index ← push_expression (unary negate o); pure (some index))
        else parse_primary nested

-- The loops of the binary levels without a message of their own: while the current token is an
-- operator of the level, parse a right operand and push the pair.
unfoldable pub binary_loop :
    (TokenType → Option BinaryOperator) → Act (Option ℕ) → ℕ → ℕ → Act (Option ℕ)
unfolding advance push_expression
binary_loop operator next zero left p = crash out_of_fuel
binary_loop operator next (suc fuel) left p = elim (operator (current p).type) [
  | none ↦ done (some left) p
  | some op ↦
      (do
        advance
        right ← next
        or_return right λ r. do
          index ← push_expression (binary op left r)
          binary_loop operator next fuel index)
        p
]

unfoldable pub binary_level :
    (TokenType → Option BinaryOperator) → Act (Option ℕ) → ℕ → Act (Option ℕ)
unfolding binary_loop
binary_level operator next fuel = do left ← next; or_return left (binary_loop operator next fuel)

abbrev pub multiplicative : TokenType → Option BinaryOperator
multiplicative Token.star = some BinaryOperator.multiply
multiplicative Token.slash = some BinaryOperator.divide
multiplicative _ = none

abbrev pub additive : TokenType → Option BinaryOperator
additive Token.plus = some BinaryOperator.add
additive Token.minus = some BinaryOperator.subtract
additive _ = none

abbrev pub conjunction : TokenType → Option BinaryOperator
conjunction Token.and = some BinaryOperator.and
conjunction _ = none

abbrev pub disjunction : TokenType → Option BinaryOperator
disjunction Token.or = some BinaryOperator.or
disjunction _ = none

-- IS is read further by `comparison_operator`.
abbrev pub comparative : TokenType → Option BinaryOperator
comparative Token.equal = some BinaryOperator.equal
comparative Token.not_equal = some BinaryOperator.not_equal
comparative Token.less_than = some BinaryOperator.less_than
comparative Token.less_eq = some BinaryOperator.less_than_or_equal
comparative Token.greater_than = some BinaryOperator.greater_than
comparative Token.greater_eq = some BinaryOperator.greater_than_or_equal
comparative Token.is = some BinaryOperator.is
comparative _ = none

-- The operator and its text; IS NOT is two tokens, of which the first is left behind.
unfoldable pub comparison_operator : BinaryOperator → Act (BinaryOperator × Text)
unfolding peek_is advance
comparison_operator BinaryOperator.is = do
  t ← current_token
  negated ← peek_is not_
  if negated
      then (do advance; pure (BinaryOperator.is_not, codes "IS NOT"))
      else pure (BinaryOperator.is, t.value)
comparison_operator op = do t ← current_token; pure (op, t.value)

unfoldable pub comparison_loop : Act (Option ℕ) → ℕ → ℕ → Act (Option ℕ)
unfolding comparison_operator advance push_expression set_first_error
comparison_loop next zero left p = crash out_of_fuel
comparison_loop next (suc fuel) left p = elim (comparative (current p).type) [
  | none ↦ done (some left) p
  | some first ↦
      (do
        t ← current_token
        (op, op_text) ← comparison_operator first
        advance
        right ← next
        elim right [
          | none ↦ do
            set_first_error (
                syntax_error t.line (codes "expected expression after '" ++ (op_text ++ codes "'")))
            pure none
          | some r ↦ do index ← push_expression (binary op left r); comparison_loop next fuel index
        ])
        p
]

unfoldable pub parse_not_with : Act (Option ℕ) → Act (Option ℕ)
unfolding current_is advance push_expression
parse_not_with next = do
  negated ← current_is not_
  if negated
      then (do
        advance
        operand ← next
        or_return operand
            λ o. do index ← push_expression (unary UnaryOperator.not o); pure (some index))
      else next

module _ (stof : Text → Option ℕ) (fuel : ℕ) (nested : Act (Option ℕ)) where
  unfoldable pub parse_multiply_divide : Act (Option ℕ)
  unfolding binary_level parse_unary
  parse_multiply_divide = binary_level multiplicative (parse_unary stof nested) fuel

  unfoldable pub parse_add_substract : Act (Option ℕ)
  unfolding binary_level parse_multiply_divide
  parse_add_substract = binary_level additive parse_multiply_divide fuel

  unfoldable pub parse_comparison : Act (Option ℕ)
  unfolding comparison_loop parse_add_substract
  parse_comparison = do
    left ← parse_add_substract
    or_return left (comparison_loop parse_add_substract fuel)

  unfoldable pub parse_not : Act (Option ℕ)
  unfolding parse_not_with parse_comparison
  parse_not = parse_not_with parse_comparison

  unfoldable pub parse_and : Act (Option ℕ)
  unfolding binary_level parse_not
  parse_and = binary_level conjunction parse_not fuel

  unfoldable pub parse_or : Act (Option ℕ)
  unfolding binary_level parse_and
  parse_or = binary_level disjunction parse_and fuel

-- One unit of fuel for each level of parentheses, and as many rounds for each loop.
unfoldable pub parse_expression : (Text → Option ℕ) → ℕ → Act (Option ℕ)
unfolding parse_or
parse_expression stof zero p = crash out_of_fuel
parse_expression stof (suc fuel) p = parse_or stof (suc fuel) (parse_expression stof fuel) p
