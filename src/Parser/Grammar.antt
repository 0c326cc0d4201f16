-- ===== src/Parser/Grammar.antt =====
-- The levels of the expression grammar of src/parser/parser.cpp end, and give indices that are there.
use microsql.Base.{
  ℕ, zero, suc, ◌+◌, ◌-◌, ◌≤◌, ◌<◌, ◌≡◌, refl, ap, ◌≢◌, inl, inr, Option, none, [], ◌∷◌, arith, leb,
  leb_false→lt, Bool-cases, Option-cases, length, Text, codes,
}
use microsql.Ast.Expression.{BinaryOperator, UnaryOperator, Expression, binary, unary}
use microsql.Ast.Ordered.{Below}
use microsql.Lexer.Token.{TokenType, type_eq, end_of_file, not_}
use microsql.Parser.State.{
  Parser, done, Act, and_then, ◌>>◌, token_at, current, peek, pure, advanced, with_error, advance,
  current_is, peek_is, set_first_error, push_expression,
}
use microsql.Parser.Expressions.{
  push_literal, binary_loop, binary_level, comparative, comparison_operator, comparison_loop,
  parse_not_with,
}
use microsql.Parser.Later.{
  pool, IsReady, Later, Later-refl, Later-trans, Later-advanced, Later-with_error, pushed,
  Later-pushed, Good, good_none, good_some, Good-Later, Good-and_then, Good-or_return, remaining,
  Later-remaining,
}

-- A method that works from every ready state with fewer than `m` tokens left.
abbrev pub Serves : (Text → Option ℕ) → ℕ → Act (Option ℕ) → Type 0
Serves stof m next = (p : Parser) → IsReady p → remaining p < m → Good stof p (next p)

-- Only the end token stands at and behind the end.
pub current_inside :
    (p : Parser) → IsReady p → (current p).type ≢ end_of_file → p.position + 1 < length p.tokens
unfolding token_at
current_inside p r h = elim (Bool-cases (leb (length p.tokens - 1) p.position)) [
  | inl behind ↦ absurd (h (rw behind r.ends))
  | inr before ↦ omega (arith, leb_false→lt (length p.tokens - 1) p.position before)
]

pub push_literal-Good :
    {stof : Text → Option ℕ} (p : Parser) (e : Expression)
    → IsReady p
    → Below (length (pool p)) e
    → Good stof p (push_literal e p)
unfolding push_literal push_expression advance
push_literal-Good p e r b =
    let (l, h) = Later-pushed p e r b in
    good_some (Later-trans p (pushed p e) _ l (Later-advanced (pushed p e) l.ready)) h

module _ {stof : Text → Option ℕ} (operator : TokenType → Option BinaryOperator)
    (next : Act (Option ℕ)) (m : ℕ) where
  binary_loop-Good :
      operator end_of_file ≡ none
      → Serves stof m next
      → (fuel left : ℕ) (p : Parser) → IsReady p
      → remaining p < m
      → remaining p < fuel
      → left < length (pool p)
      → Good stof p (binary_loop operator next fuel left p)
  unfolding binary_loop advance push_expression
  binary_loop-Good last serves zero left p r h hf hl = absurd (omega arith)
  binary_loop-Good last serves (suc fuel) left p r h hf hl =
      elim (Option-cases (operator (current p).type)) [
        | inl found ↦ rw (found, binary_loop) (good_some (Later-refl p r) hl)
        | inr (op, found) ↦
            let inside = current_inside p r (λ e. cc) in
            let a = Later-advanced p r in
            rw (found, binary_loop)
              (Good-Later p (advanced p) a (
                Good-or_return (advanced p) (next (advanced p)) _
                  (serves (advanced p) a.ready (omega arith))
                  (λ i q l b.
                    let (n, s) =
                      Later-pushed q (binary op left i) l.ready (omega (arith, l.grown), b) in
                    Good-Later q (pushed q (binary op left i)) n (
                      binary_loop-Good last serves fuel (length (pool q))
                        (pushed q (binary op left i)) n.ready
                        (omega (arith, Later-remaining (advanced p) q l))
                        (omega (arith, Later-remaining (advanced p) q l)) s))))
      ]

  pub binary_level-Good :
      operator end_of_file ≡ none
      → (fuel : ℕ) → m ≤ fuel
      → Serves stof m next
      → Serves stof m (binary_level operator next fuel)
  unfolding binary_level
  binary_level-Good last fuel e serves p r h = Good-or_return p (next p) _ (serves p r h) λ i q l b.
      binary_loop-Good last serves fuel i q l.ready (omega (arith, Later-remaining p q l))
        (omega (arith, Later-remaining p q l)) b

-- Reading the operator moves on by one token at most.
comparison_operator-Later :
    (op : BinaryOperator) (p : Parser)
    → IsReady p
    → (q : Parser) × (o : BinaryOperator × Text) × (comparison_operator op p ≡ done o q) × Later p q
unfolding comparison_operator peek_is advance
comparison_operator-Later BinaryOperator.is p r = elim (Bool-cases (type_eq (peek p).type not_)) [
  | inl h ↦ (advanced p, (BinaryOperator.is_not, codes "IS NOT"), rw h, Later-advanced p r)
  | inr h ↦ (p, (BinaryOperator.is, (current p).value), rw h, Later-refl p r)
]
comparison_operator-Later op p r = (p, (op, (current p).value), refl, Later-refl p r)

module _ {stof : Text → Option ℕ} (next : Act (Option ℕ)) (m : ℕ) where
  pub parse_not_with-Good : Serves stof m next → Serves stof m (parse_not_with next)
  unfolding parse_not_with current_is advance push_expression
  parse_not_with-Good serves p r h = elim (Bool-cases (type_eq (current p).type not_)) [
    | inr h' ↦ rw (h', parse_not_with) (serves p r h)
    | inl h' ↦
        let a = Later-advanced p r in
        rw (h', parse_not_with)
          (Good-Later p (advanced p) a (
            Good-or_return (advanced p) (next (advanced p)) _
              (serves (advanced p) a.ready (omega (arith, Later-remaining p (advanced p) a)))
              (λ i q l b.
                let (n, s) = Later-pushed q (unary UnaryOperator.not i) l.ready b in
                good_some n s)))
  ]

  set_first_error-none :
      (t : Text) (p : Parser) → IsReady p → Good stof p ((set_first_error t >> pure none) p)
  unfolding set_first_error
  set_first_error-none t p r = go p.result.error
    where
      go :
          (e : Text)
          → Good stof p (
              and_then {B = Option ℕ}
                (elim e [ [] ↦ done tt (with_error p t) | _ ∷ _ ↦ done tt p ])
                (λ _ q. done none q))
      go [] = good_none (Later-with_error p t r)
      go (x ∷ xs) = good_none (Later-refl p r)

  pub comparison_loop-Good :
      Serves stof m next
      → (fuel left : ℕ) (p : Parser) → IsReady p
      → remaining p < m
      → remaining p < fuel
      → left < length (pool p)
      → Good stof p (comparison_loop next fuel left p)
  unfolding comparison_loop advance push_expression
  comparison_loop-Good serves zero left p r h hf hl = absurd (omega arith)
  comparison_loop-Good serves (suc fuel) left p r h hf hl =
      elim (Option-cases (comparative (current p).type)) [
        | inl found ↦ rw (found, comparison_loop) (good_some (Later-refl p r) hl)
        | inr (first, found) ↦
            let inside = current_inside p r (λ e. cc) in
            let (q, (op, t), reads, a) = comparison_operator-Later first p r in
            let b = Later-trans p q (advanced q) a (Later-advanced q a.ready) in
            rw (found, reads, comparison_loop)
              (Good-Later p (advanced q) b (
                Good-and_then (advanced q) (next (advanced q)) _
                  (serves (advanced q) b.ready (omega (arith, Later-remaining p (advanced q) b)))
                  (λ q' l. set_first_error-none _ q' l.ready)
                  (λ i q' l bound.
                    let e = binary op left i in
                    let (n, s) =
                      Later-pushed q' e l.ready (omega (arith, l.grown, b.grown), bound) in
                    let c = Later-trans q (advanced q) q' (Later-advanced q a.ready) l in
                    Good-Later q' (pushed q' e) n (
                      comparison_loop-Good serves fuel (length (pool q')) (pushed q' e) n.ready
                        (omega (arith, Later-remaining p q a, c.forward, ap length c.tokens))
                        (omega
                          (arith, a.forward, ap length a.tokens, l.forward, ap length l.tokens))
                        s))))
      ]
