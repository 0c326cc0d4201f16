-- ===== src/Parser/Pool/Tables.antt =====
-- CREATE and DROP of src/parser/parser.cpp, and parse: the expressions stay in order.
use microsql.Base.{
  ℕ, zero, suc, Bool, true, false, ◌&&◌, ◌||◌, Option, none, some, if◌then◌else◌, invalid_argument,
  out_of_fuel, Outcome, ok, err, fault, codes,
}
use microsql.Base.Int.{ℤ, pos}
use microsql.Base.Number.{stoi}
use microsql.Ast.Statement.{DataType, ColumnDefinition}
use microsql.Lexer.Token
use microsql.Lexer.Token.{Token, TokenType, type_eq}
use microsql.Parser.State.{
  Parser, Run, crash, Act, pure, ◌>>◌, current, peek, advance, set_error, syntax_error, but_found,
}
use microsql.Parser.Tables.{
  parse_text_length, with_type, parse_column_type, take_primary_key, take_not_null,
  constraints_loop,
}
use microsql.Parser.Keeps.{
  After, Keeps, Keeps-bind, Keeps-then, Keeps-pure, Keeps-advance, Keeps-peek_is,
  Keeps-current_token, Keeps-set_error, Keeps-if, Keeps-consume,
}
use microsql.Parser.Pool.{Keeps-test, Keeps-crash}

module _ (fuel : ℕ) where
  -- The length in parentheses, after std::stoi.
  Keeps-length :
      (o : Outcome (Unit {0}) ℤ) (k : ℤ → Act (Option ColumnDefinition))
      → ((n : ℤ) → Keeps fuel (k n))
      → Keeps fuel (λ p. elim o as (λ _. Run (Option ColumnDefinition)) [
        | err _ ↦ crash invalid_argument
        | fault u ↦ crash u
        | ok n ↦ k n p
      ])
  Keeps-length (ok n) k h = h n
  Keeps-length (err e) k h = Keeps-crash fuel invalid_argument
  Keeps-length (fault u) k h = Keeps-crash fuel u

  Keeps-parse_text_length : (c : ColumnDefinition) → Keeps fuel (parse_text_length c)
  unfolding parse_text_length
  Keeps-parse_text_length c = Keeps-bind fuel _ _ (Keeps-peek_is fuel Token.left_paren) λ given.
      Keeps-if fuel given _ _
        (Keeps-then fuel _ _ (Keeps-advance fuel) (
          Keeps-then fuel _ _ (Keeps-advance fuel) (
            Keeps-bind fuel _ _ (Keeps-current_token fuel) λ t. Keeps-length (stoi t.value) _ λ n.
              Keeps-then fuel _ _ (Keeps-advance fuel) (
                Keeps-bind fuel _ _ (Keeps-consume fuel Token.right_paren (codes ")")) λ closed.
                  Keeps-if fuel closed _ _ (Keeps-pure fuel (some (record c { text_length = n })))
                    (Keeps-pure fuel none)))))
        (Keeps-then fuel _ _ (Keeps-advance fuel)
          (Keeps-pure fuel (some (record c { text_length = pos 255 }))))

  -- A choice by the state.
  Keeps-choice :
      {A : Type 0} (b : Parser → Bool) (m m' : Act A)
      → Keeps fuel m
      → Keeps fuel m'
      → Keeps fuel (λ p. if b p then m p else m' p)
  Keeps-choice b m m' h g = record { after = λ p r f. go p (b p) (h.after p r f) (g.after p r f) }
    where
      go :
          (p : Parser) (c : Bool)
          → After p (m p)
          → After p (m' p)
          → After p (if c then m p else m' p)
      go p true x y = x
      go p false x y = y

  Keeps-take_primary_key : (c : ColumnDefinition) → Keeps fuel (take_primary_key c)
  unfolding take_primary_key
  Keeps-take_primary_key c =
      Keeps-choice (λ p. type_eq (current p).type Token.primary && type_eq (peek p).type Token.key)
        _ (pure c)
        (Keeps-then fuel _ _ (Keeps-advance fuel) (
          Keeps-then fuel _ _ (Keeps-advance fuel)
            (Keeps-pure fuel (record c { primary_key = true }))))
        (Keeps-pure fuel c)

  Keeps-take_not_null : (c : ColumnDefinition) → Keeps fuel (take_not_null c)
  unfolding take_not_null
  Keeps-take_not_null c =
      Keeps-choice (λ p. type_eq (current p).type Token.not_ && type_eq (peek p).type Token.tknull)
        _ (pure c)
        (Keeps-then fuel _ _ (Keeps-advance fuel) (
          Keeps-then fuel _ _ (Keeps-advance fuel)
            (Keeps-pure fuel (record c { not_null = true }))))
        (Keeps-pure fuel c)

  pub Keeps-constraints_loop :
      (rounds : ℕ) (c : ColumnDefinition) → Keeps fuel (constraints_loop rounds c)
  unfolding constraints_loop
  Keeps-constraints_loop zero c = Keeps-crash fuel out_of_fuel
  Keeps-constraints_loop (suc rounds) c =
      Keeps-test fuel
        (λ p. type_eq (current p).type Token.primary || type_eq (current p).type Token.not_) _
        (pure c)
        (Keeps-bind fuel _ _ (Keeps-take_primary_key c) λ c'.
          Keeps-bind fuel _ _ (Keeps-take_not_null c') λ c''. Keeps-constraints_loop rounds c'')
        (Keeps-pure fuel c)

  Keeps-typed :
      (c : ColumnDefinition) (t : DataType) → Keeps fuel (advance >> pure (some (with_type c t)))
  Keeps-typed c t =
      Keeps-then fuel _ _ (Keeps-advance fuel) (Keeps-pure fuel (some (with_type c t)))

  pub Keeps-parse_column_type : (c : ColumnDefinition) → Keeps fuel (parse_column_type c)
  unfolding parse_column_type
  Keeps-parse_column_type c = Keeps-bind fuel _ _ (Keeps-current_token fuel) λ t. by_type t t.type
    where
      by_type :
          (t : Token) (type : TokenType)
          → Keeps fuel (elim type as (λ _. Act (Option ColumnDefinition)) [
            | Token.integer ↦ do advance; pure (some (with_type c DataType.integer))
            | Token.float ↦ do advance; pure (some (with_type c DataType.float))
            | Token.text ↦ parse_text_length (with_type c DataType.text)
            | Token.boolean ↦ do advance; pure (some (with_type c DataType.boolean))
            | _ ↦ do
              set_error (
                  syntax_error t.line
                    (but_found (codes "expected 'INTEGER','FLOAT','TEXT' or 'BOOLEAN'") t))
              pure none
          ])
      by_type t Token.integer = Keeps-typed c DataType.integer
      by_type t Token.float = Keeps-typed c DataType.float
      by_type t Token.text = Keeps-parse_text_length (with_type c DataType.text)
      by_type t Token.boolean = Keeps-typed c DataType.boolean
      by_type t _ =
          Keeps-then fuel _ _
            (Keeps-set_error fuel (
              syntax_error t.line
                (but_found (codes "expected 'INTEGER','FLOAT','TEXT' or 'BOOLEAN'") t)))
            (Keeps-pure fuel none)
