-- ===== src/Parser/Ordered.antt =====
-- parseExpression of src/parser/parser.cpp ends, and leaves its expressions in order.
use microsql.Base.{
  ℕ, zero, suc, ◌≤◌, ◌<◌, ◌≡◌, refl, inl, inr, Option, arith, Bool-cases, Option-cases,
  invalid_argument, out_of_range, Outcome, ok, err, fault, Text,
}
use microsql.Base.Number.{stoi, IsConversion, stoi-IsConversion}
use microsql.Base.Int.{ℤ}
use microsql.Ast.Expression.{negate, literal_int, literal_float, unary}
use microsql.Lexer.Token
use microsql.Lexer.Token.{
  Token, TokenType, type_eq, end_of_file, right_paren, identifier, minus, dot,
}
use microsql.Parser.State.{
  Parser, Act, current, peek, advanced, advance, current_is, peek_is, set_error, push_expression,
}
use microsql.Parser.Expressions.{
  parse_integer, parse_float, parse_column, parse_primary, parse_unary, parse_multiply_divide,
  parse_add_substract, parse_comparison, parse_not, parse_and, parse_or, parse_expression,
  multiplicative, additive, conjunction, disjunction,
}
use microsql.Parser.Later.{
  IsReady, Later-refl, Later-trans, Later-advanced, Later-with_error, Later-pushed, Good, good_none,
  good_some, good_crash, no_number, too_large, no_float, Good-Later, Good-or_return, remaining,
  Later-remaining,
}
use microsql.Parser.Grammar.{
  Serves, current_inside, push_literal-Good, binary_level-Good, comparison_loop-Good,
  parse_not_with-Good,
}

parse_integer-Good :
    {stof : Text → Option ℕ} (p : Parser)
    → IsReady p
    → (current p).type ≡ Token.integer_literal
    → Good stof p (parse_integer (current p).value p)
unfolding parse_integer
parse_integer-Good {stof} p r at =
    go (stoi (current p).value) refl (stoi-IsConversion (current p).value)
  where
    go :
        (o : Outcome (Unit {0}) ℤ)
        → stoi (current p).value ≡ o
        → IsConversion o
        → Good stof p (parse_integer (current p).value p)
    go (ok v) e h = rw (e, parse_integer) (push_literal-Good p (literal_int v) r tt)
    go (err tt) e h = absurd h
    go (fault invalid_argument) e h =
        rw (e, parse_integer) (good_crash (Later-refl p r) (no_number at e))
    go (fault out_of_range) e h =
        rw (e, parse_integer) (good_crash (Later-refl p r) (too_large at e))
    go (fault _) e h = absurd h

parse_float-Good :
    {stof : Text → Option ℕ} (p : Parser)
    → IsReady p
    → (current p).type ≡ Token.float_literal
    → Good stof p (parse_float (stof (current p).value) p)
unfolding parse_float
parse_float-Good {stof} p r at = elim (Option-cases (stof (current p).value)) [
  | inl e ↦ rw (e, parse_float) (good_crash (Later-refl p r) (no_float at e))
  | inr (v, e) ↦ rw (e, parse_float) (push_literal-Good p (literal_float v) r tt)
]

parse_column-Good : {stof : Text → Option ℕ} (p : Parser) → IsReady p → Good stof p (parse_column p)
unfolding parse_column advance peek_is set_error
parse_column-Good p r = elim (Bool-cases (type_eq (peek p).type dot)) [
  | inr h ↦ rw (h, parse_column) (push_literal-Good p _ r tt)
  | inl h ↦
      let a = Later-advanced p r in
      elim (Bool-cases (type_eq (peek (advanced p)).type identifier)) [
        | inr h' ↦
            rw (h, h', parse_column)
              (Good-Later p (advanced p) a (good_none (Later-with_error (advanced p) _ a.ready)))
        | inl h' ↦
            let b = Later-trans p (advanced p) _ a (Later-advanced (advanced p) a.ready) in
            rw (h, h', parse_column)
              (Good-Later p _ b (push_literal-Good (advanced (advanced p)) _ b.ready tt))
      ]
]

module _ (stof : Text → Option ℕ) (nested : Act (Option ℕ)) (m : ℕ)
    (serves : Serves stof m nested) where
  -- In parentheses, which take a token.
  parenthesis-Good :
      (p : Parser)
      → IsReady p
      → remaining p < suc m
      → (current p).type ≡ Token.left_paren
      → Good stof p (parse_primary stof nested p)
  unfolding parse_primary advance current_is set_error
  parenthesis-Good p r h e =
      let inside = current_inside p r (λ e'. cc) in
      let a = Later-advanced p r in
      rw (e, parse_primary)
        (Good-Later p (advanced p) a (
          Good-or_return (advanced p) (nested (advanced p)) _
            (serves (advanced p) a.ready (omega arith))
            (λ i q l b. elim (Bool-cases (type_eq (current q).type right_paren)) [
              | inl h' ↦ rw h' (good_some (Later-advanced q l.ready) b)
              | inr h' ↦ rw h' (good_none (Later-with_error q _ l.ready))
            ])))

  parse_primary-Good : Serves stof (suc m) (parse_primary stof nested)
  unfolding parse_primary
  parse_primary-Good p r h = go (current p).type refl
    where
      go : (t : TokenType) → (current p).type ≡ t → Good stof p (parse_primary stof nested p)
      go Token.identifier e = rw (e, parse_primary) (parse_column-Good p r)
      go Token.integer_literal e = rw (e, parse_primary) (parse_integer-Good p r e)
      go Token.float_literal e = rw (e, parse_primary) (parse_float-Good p r e)
      go Token.string_literal e = rw (e, parse_primary) (push_literal-Good p _ r tt)
      go Token.tknull e = rw (e, parse_primary) (push_literal-Good p _ r tt)
      go Token.true_ e = rw (e, parse_primary) (push_literal-Good p _ r tt)
      go Token.false_ e = rw (e, parse_primary) (push_literal-Good p _ r tt)
      go Token.left_paren e = parenthesis-Good p r h e
      go _ e = rw (e, parse_primary) (good_none (Later-refl p r))

  parse_unary-Good : Serves stof (suc m) (parse_unary stof nested)
  unfolding parse_unary current_is advance push_expression
  parse_unary-Good p r h = elim (Bool-cases (type_eq (current p).type minus)) [
    | inr h' ↦ rw (h', parse_unary) (parse_primary-Good p r h)
    | inl h' ↦
        let a = Later-advanced p r in
        rw (h', parse_unary)
          (Good-Later p (advanced p) a (
            Good-or_return (advanced p) (parse_primary stof nested (advanced p)) _
              (parse_primary-Good (advanced p) a.ready
                (omega (arith, Later-remaining p (advanced p) a)))
              (λ i q l b. let (n, s) = Later-pushed q (unary negate i) l.ready b in good_some n s)))
  ]

  -- The levels, lowest precedence last.
  parse_or-Good : (fuel : ℕ) → suc m ≤ fuel → Serves stof (suc m) (parse_or stof fuel nested)
  unfolding parse_or parse_and parse_not parse_comparison parse_add_substract parse_multiply_divide
  parse_or-Good fuel e = binary_level-Good disjunction _ (suc m) refl fuel e (
      binary_level-Good conjunction _ (suc m) refl fuel e
        (parse_not_with-Good _ (suc m) comparison))
    where
      sum : Serves stof (suc m) (parse_add_substract stof fuel nested)
      sum =
          binary_level-Good additive _ (suc m) refl fuel e
            (binary_level-Good multiplicative _ (suc m) refl fuel e parse_unary-Good)

      comparison : Serves stof (suc m) (parse_comparison stof fuel nested)
      comparison p r h =
          Good-or_return p (parse_add_substract stof fuel nested p) _ (sum p r h) λ i q l b.
            comparison_loop-Good _ (suc m) sum fuel i q l.ready
              (omega (arith, Later-remaining p q l)) (omega (arith, Later-remaining p q l)) b

-- From a parser whose expressions are in order and whose tokens end in the end token, with more
-- fuel than tokens are left, parseExpression ends: by the exception that std::stoi or std::stof
-- throws on the text of an integer or float literal, the token in hand or a later one, or in a
-- later state with the same tokens and every operand before its operator, with no index or with
-- one that is inside the expressions.
pub parse_expression-Good :
    (stof : Text → Option ℕ) (fuel : ℕ) (p : Parser)
    → IsReady p
    → remaining p < fuel
    → Good stof p (parse_expression stof fuel p)
unfolding parse_expression
parse_expression-Good stof zero p r h = absurd (omega arith)
parse_expression-Good stof (suc fuel) p r h =
    parse_or-Good stof (parse_expression stof fuel) fuel (parse_expression-Good stof fuel)
      (suc fuel) (omega arith) p r h
