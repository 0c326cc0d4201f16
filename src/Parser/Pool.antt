-- ===== src/Parser/Pool.antt =====
-- The statements of src/parser/parser.cpp leave their expressions in order.
pub mod Changes
pub mod Tables
pub mod Parse
use microsql.Base.{
  ℕ, zero, suc, ◌+◌, ◌-◌, ◌*◌, ◌/◌, ◌%◌, ◌^◌, ◌≤◌, ◌<◌, ◌≡◌, refl, sym, ap, ◌∙◌, fun_ext, ◌≢◌, ◌↔◌,
  ◌⊎◌, inl, inr, Bool, true, false, not, ◌&&◌, ◌||◌, Option, none, some, List, [], ◌∷◌, ◌++◌, map,
  arith, ltb, leb, ◌==◌, if◌then◌else◌, ltb→lt, lt→ltb, le→ltb, ltb_false→le, leb_false→lt, leb→le,
  le→leb, ==_iff, ==_refl, Bool-cases, Option-cases, length, get_elem?, get_or, set, take, drop,
  replicate, length-append, length-take, length-replicate, take_all, get_elem?-append_left, Fault,
  bad_variant_access, invalid_argument, out_of_range, undefined, out_of_fuel, Outcome, ok, err,
  fault, Text, codes, text_eq, text_eq_refl, text_eq→eq, to_string,
}
use microsql.Ast.Statement.{Statement, StatementKind}
use microsql.Lexer.Token
use microsql.Lexer.Token.{Token, TokenType, type_eq}
use microsql.Parser.State.{
  Parser, Run, done, crash, Act, pure, and_then, ◌>>=◌, ◌>>◌, current, current_token, advance,
  current_is, peek_is, set_error, set_first_error, with_statement, consume, consume_identifier,
  syntax_error, but_found,
}
use microsql.Parser.Expressions.{parse_expression}
use microsql.Parser.Statements.{
  when, with_name, set_kind, set_table, set_where, stops_at, skip_comma, require_expression,
  parse_where, select_loop, select_list, parse_select, push_column_name, column_names_loop,
  push_value, values_loop, insert_columns, insert_tuple, parse_insert, parse_delete,
  parse_assignment, assignments_loop, parse_update,
}
use microsql.Parser.Later.{IsReady, Later, Later-refl}
use microsql.Parser.Keeps.{
  After, Keeps, Keeps-bind, Keeps-then, Keeps-pure, Keeps-advance, Keeps-current_is, Keeps-peek_is,
  Keeps-current_token, Keeps-set_error, Keeps-set_first_error, Keeps-with_statement, Keeps-if,
  Keeps-consume, Keeps-consume_identifier, Keeps-parse_expression,
}

module _ (fuel : ℕ) where
  pub Keeps-when : (b : Bool) (m : Act (Unit {0})) → Keeps fuel m → Keeps fuel (when b m)
  Keeps-when true m h = h
  Keeps-when false m h = Keeps-pure fuel tt

  pub Keeps-with_name :
      (o : Option Text) (k : Text → Act (Unit {0}))
      → ((n : Text) → Keeps fuel (k n))
      → Keeps fuel (with_name o k)
  Keeps-with_name none k h = Keeps-pure fuel tt
  Keeps-with_name (some n) k h = h n

  pub Keeps-skip_comma : Keeps fuel skip_comma
  unfolding skip_comma
  Keeps-skip_comma =
      Keeps-bind fuel _ _ (Keeps-current_is fuel Token.comma)
        λ b. Keeps-when b _ (Keeps-advance fuel)

  pub Keeps-set_kind : (k : StatementKind) → Keeps fuel (set_kind k)
  unfolding set_kind
  Keeps-set_kind k = Keeps-with_statement fuel (λ s. record s { kind = k })

  pub Keeps-set_table : (n : Text) → Keeps fuel (set_table n)
  unfolding set_table
  Keeps-set_table n = Keeps-with_statement fuel (λ s. record s { table_name = n })

  pub Keeps-set_where : (o : Option ℕ) → Keeps fuel (set_where o)
  unfolding set_where
  Keeps-set_where o = Keeps-with_statement fuel (λ s. record s { where_index = o })

  pub Keeps-option :
      {A B : Type 0} (o : Option A) (z : Act B) (k : A → Act B)
      → Keeps fuel z
      → ((a : A) → Keeps fuel (k a))
      → Keeps fuel (elim o as (λ _. Act B) [ none ↦ z | some a ↦ k a ])
  Keeps-option none z k h g = h
  Keeps-option (some a) z k h g = g a

  -- A test of the state.
  pub Keeps-test :
      {A : Type 0} (b : Parser → Bool) (m m' : Act A)
      → Keeps fuel m
      → Keeps fuel m'
      → Keeps fuel (λ p. elim (b p) as (λ _. Run A) [ true ↦ m p | false ↦ m' p ])
  Keeps-test {A} b m m' h g = record { after = λ p r f. go p (b p) (h.after p r f) (g.after p r f) }
    where
      go :
          (p : Parser) (c : Bool)
          → After p (m p)
          → After p (m' p)
          → After p (elim c as (λ _. Run A) [ true ↦ m p | false ↦ m' p ])
      go p true x y = x
      go p false x y = y

  pub Keeps-crash : {A : Type 0} (u : Fault) → Keeps {A = A} fuel (λ p. crash u)
  Keeps-crash u = record { after = λ p r f. tt }

module _ (stof : Text → Option ℕ) (fuel : ℕ) where
  pub Keeps-require_expression :
      (context : Text) → Keeps fuel (require_expression stof fuel context)
  unfolding require_expression
  Keeps-require_expression context = Keeps-bind fuel _ _ (Keeps-parse_expression fuel stof) λ o.
      Keeps-option fuel o _ _
        (Keeps-bind fuel _ _ (Keeps-current_token fuel) λ t.
          Keeps-then fuel _ _ (Keeps-set_first_error fuel (syntax_error t.line context))
            (Keeps-pure fuel none))
        (λ i. Keeps-pure fuel (some i))

  pub Keeps-parse_where : Keeps fuel (parse_where stof fuel)
  unfolding parse_where
  Keeps-parse_where = Keeps-bind fuel _ _ (Keeps-current_is fuel Token.where_) λ there.
      Keeps-if fuel there _ _
        (Keeps-then fuel _ _ (Keeps-advance fuel) (
          Keeps-bind fuel _ _ (Keeps-require_expression (codes "expected expression after WHERE"))
            λ o.
              Keeps-option fuel o _ _ (Keeps-pure fuel false)
                λ i. Keeps-then fuel _ _ (Keeps-set_where fuel (some i)) (Keeps-pure fuel true)))
        (Keeps-then fuel _ _ (Keeps-set_where fuel none) (Keeps-pure fuel true))

  Keeps-select_loop : (rounds : ℕ) → Keeps fuel (select_loop stof fuel rounds)
  unfolding select_loop
  Keeps-select_loop zero = Keeps-crash fuel out_of_fuel
  Keeps-select_loop (suc rounds) =
      Keeps-test fuel (λ p. stops_at Token.from (current p).type) (pure true) _
        (Keeps-pure fuel true)
        (Keeps-bind fuel _ _ (Keeps-parse_expression fuel stof) λ o.
          Keeps-option fuel o _ _
            (Keeps-bind fuel _ _ (Keeps-current_token fuel) λ t.
              Keeps-then fuel _ _
                (Keeps-set_first_error fuel
                  (codes "Unknown expression at line " ++ to_string t.line))
                (Keeps-pure fuel false))
            (λ i.
              Keeps-then fuel _ _
                (Keeps-with_statement fuel
                  (λ s. record s { select_columns = s.select_columns ++ i ∷ [] }))
                (Keeps-then fuel _ _ (Keeps-skip_comma fuel) (Keeps-select_loop rounds))))

  Keeps-select_list : Keeps fuel (select_list stof fuel)
  unfolding select_list
  Keeps-select_list = Keeps-bind fuel _ _ (Keeps-current_is fuel Token.star) λ star.
      Keeps-if fuel star _ _
        (Keeps-then fuel _ _ (Keeps-advance fuel) (
          Keeps-bind fuel _ _ (Keeps-current_token fuel) λ t.
            Keeps-if fuel (stops_at Token.from t.type) _ _ (Keeps-pure fuel true) (
              Keeps-then fuel _ _
                (Keeps-set_error fuel
                  (syntax_error t.line (codes "unexpected token '" ++ (t.value ++ codes "'"))))
                (Keeps-pure fuel false))))
        (Keeps-select_loop fuel)

  pub Keeps-parse_select : Keeps fuel (parse_select stof fuel)
  unfolding parse_select
  Keeps-parse_select = Keeps-then fuel _ _ (Keeps-advance fuel) (
      Keeps-then fuel _ _ (Keeps-set_kind fuel StatementKind.select) (
        Keeps-bind fuel _ _ Keeps-select_list λ listed. Keeps-when fuel listed _ (
          Keeps-bind fuel _ _ (Keeps-current_is fuel Token.from) λ from. Keeps-when fuel from _ (
            Keeps-then fuel _ _ (Keeps-advance fuel) (
              Keeps-bind fuel _ _ (Keeps-consume_identifier fuel (codes "table name after FROM"))
                λ name. Keeps-with_name fuel name _ λ n.
                  Keeps-then fuel _ _ (Keeps-set_table fuel n)
                    (Keeps-bind fuel _ _ Keeps-parse_where λ b. Keeps-pure fuel tt))))))

  -- A last `consume` whose result is not looked at.
  pub Keeps-semicolon : Keeps fuel (consume Token.semicolon (codes ";") >>= λ _. pure tt)
  Keeps-semicolon =
      Keeps-bind fuel _ _ (Keeps-consume fuel Token.semicolon (codes ";")) λ b. Keeps-pure fuel tt

  pub Keeps-push_column_name : Keeps fuel (push_column_name stof fuel)
  unfolding push_column_name
  Keeps-push_column_name = Keeps-bind fuel _ _ (Keeps-current_token fuel) λ t.
      Keeps-then fuel _ _
        (Keeps-with_statement fuel
          (λ s. record s { insert_column_names = s.insert_column_names ++ t.value ∷ [] }))
        (Keeps-advance fuel)

  pub Keeps-column_names_loop : (rounds : ℕ) → Keeps fuel (column_names_loop stof fuel rounds)
  unfolding column_names_loop
  Keeps-column_names_loop zero = Keeps-crash fuel out_of_fuel
  Keeps-column_names_loop (suc rounds) =
      Keeps-test fuel (λ p. stops_at Token.right_paren (current p).type) (pure tt) _
        (Keeps-pure fuel tt)
        (Keeps-then fuel _ _ (Keeps-skip_comma fuel) (
          Keeps-then fuel _ _ Keeps-push_column_name
            (Keeps-then fuel _ _ (Keeps-skip_comma fuel) (Keeps-column_names_loop rounds))))

  pub Keeps-push_value : Keeps fuel (push_value stof fuel)
  unfolding push_value
  Keeps-push_value =
      Keeps-bind fuel _ _ (Keeps-parse_expression fuel stof)
        λ o. Keeps-with_statement fuel (λ s. record s { insert_values = s.insert_values ++ o ∷ [] })

  pub Keeps-values_loop : (rounds : ℕ) → Keeps fuel (values_loop stof fuel rounds)
  unfolding values_loop
  Keeps-values_loop zero = Keeps-crash fuel out_of_fuel
  Keeps-values_loop (suc rounds) =
      Keeps-test fuel (λ p. stops_at Token.right_paren (current p).type) (pure tt) _
        (Keeps-pure fuel tt)
        (Keeps-then fuel _ _ (Keeps-skip_comma fuel) (
          Keeps-then fuel _ _ Keeps-push_value
            (Keeps-then fuel _ _ (Keeps-skip_comma fuel) (Keeps-values_loop rounds))))
