-- ===== src/Parser/Later.antt =====
-- What the methods of the Parser of src/parser/parser.cpp keep of its state.
use microsql.Base.{
  ℕ, ◌-◌, ◌≤◌, ◌<◌, ◌≡◌, refl, ap, ◌∙◌, Option, none, some, List, [], ◌∷◌, ◌++◌, arith, length,
  length-append, Fault, invalid_argument, out_of_range, fault, Text,
}
use microsql.Ast.Expression.{Expression}
use microsql.Ast.Ordered.{Below, IsOrdered, IsOrdered-append}
use microsql.Base.Number.{stoi}
use microsql.Lexer.Token.{end_of_file, integer_literal, float_literal}
use microsql.Parser.State.{
  Parser, Run, done, crash, Act, and_then, back, advanced, with_error, current,
}
use microsql.Parser.Expressions.{or_return}

-- The parser's expressions.
abbrev pub pool : Parser → List Expression
pool p = p.result.expressions

-- The state of a parser that works: expressions in order, and an end token at the end.
pub record IsReady (p : Parser) : Type 0 where
  pub ordered : IsOrdered (pool p)
  pub ends : (back p.tokens).type ≡ end_of_file

-- A later state of the same run: the same tokens, no step back, no expression lost.
pub record Later (p p' : Parser) : Type 0 where
  pub tokens : p'.tokens ≡ p.tokens
  pub forward : p.position ≤ p'.position
  pub grown : length (pool p) ≤ length (pool p')
  pub ready : IsReady p'

pub Later-refl : (p : Parser) → IsReady p → Later p p
Later-refl p r = record { tokens = refl; forward = omega arith; grown = omega arith; ready = r }

pub Later-trans : (p q r : Parser) → Later p q → Later q r → Later p r
Later-trans p q r a b = record {
  tokens = b.tokens ∙ a.tokens;
  forward = omega (arith, a.forward, b.forward);
  grown = omega (arith, a.grown, b.grown);
  ready = b.ready;
}

pub Later-advanced : (p : Parser) → IsReady p → Later p (advanced p)
Later-advanced p r = record {
  tokens = refl;
  forward = omega arith;
  grown = omega arith;
  ready = record { ordered = r.ordered; ends = r.ends };
}

pub Later-with_error : (p : Parser) (message : Text) → IsReady p → Later p (with_error p message)
Later-with_error p message r = record {
  tokens = refl;
  forward = omega arith;
  grown = omega arith;
  ready = record { ordered = r.ordered; ends = r.ends };
}

abbrev pub pushed : Parser → Expression → Parser
pushed p e = record p { result = record p.result { expressions = pool p ++ e ∷ [] } }

pub Later-pushed :
    (p : Parser) (e : Expression)
    → IsReady p
    → Below (length (pool p)) e
    → Later p (pushed p e) × (length (pool p) < length (pool (pushed p e)))
Later-pushed p e r b =
    let size = length-append (pool p) (e ∷ []) in
    (
      record {
        tokens = refl;
        forward = omega arith;
        grown = omega (arith, size);
        ready = record { ordered = IsOrdered-append (pool p) e r.ordered b; ends = r.ends };
      },
      omega (arith, size),
    )

module _ (stof : Text → Option ℕ) (p : Parser) where
  -- std::stoi or std::stof throws on the text of the token in hand.
  pub data Throws : Fault → Type 0 where
    no_number :
        (current p).type ≡ integer_literal
        → stoi (current p).value ≡ fault invalid_argument
        → Throws invalid_argument
    too_large :
        (current p).type ≡ integer_literal
        → stoi (current p).value ≡ fault out_of_range
        → Throws out_of_range
    no_float :
        (current p).type ≡ float_literal → stof (current p).value ≡ none → Throws out_of_range

-- The run of a method that gives an expression: it ends in a later state, with the index of an
-- expression that is there or with none, or by the exception of a number conversion at this token or
-- a later one.
pub data Good (stof : Text → Option ℕ) (p : Parser) : Run (Option ℕ) → Type 0 where
  good_none : {p' : Parser} → Later p p' → Good stof p (done none p')
  good_some :
      {i : ℕ} {p' : Parser} → Later p p' → i < length (pool p') → Good stof p (done (some i) p')
  good_crash : {u : Fault} {q : Parser} → Later p q → Throws stof q u → Good stof p (crash u)

module _ {stof : Text → Option ℕ} where
  pub Good-Later : (p q : Parser) {r : Run (Option ℕ)} → Later p q → Good stof q r → Good stof p r
  Good-Later p q l (good_none {p'} m) = good_none (Later-trans p q p' l m)
  Good-Later p q l (good_some {p'} m h) = good_some (Later-trans p q p' l m) h
  Good-Later p q l (good_crash {q = q'} m h) = good_crash (Later-trans p q q' l m) h

  -- A method that goes on with the index of an expression, or with none.
  pub Good-and_then :
      (p : Parser) (r : Run (Option ℕ)) (k : Option ℕ → Act (Option ℕ))
      → Good stof p r
      → ((q : Parser) → Later p q → Good stof q (k none q))
      → ((i : ℕ) (q : Parser) → Later p q → i < length (pool q) → Good stof q (k (some i) q))
      → Good stof p (and_then r k)
  Good-and_then p r k (good_none {p' = q} l) f g = Good-Later p q l (f q l)
  Good-and_then p r k (good_some {i} {p' = q} l b) f g = Good-Later p q l (g i q l b)
  Good-and_then p r k (good_crash m u) f g = good_crash m u

  -- One that goes on where an index came back.
  pub Good-or_return :
      (p : Parser) (r : Run (Option ℕ)) (k : ℕ → Act (Option ℕ))
      → Good stof p r
      → ((i : ℕ) (q : Parser) → Later p q → i < length (pool q) → Good stof q (k i q))
      → Good stof p (and_then r (λ o. or_return o k))
  Good-or_return p r k good h =
      Good-and_then p r (λ o. or_return o k) good (λ q l. good_none (Later-refl q l.ready)) h

-- How many tokens are left.
abbrev pub remaining : Parser → ℕ
remaining p = length p.tokens - p.position

pub Later-remaining : (p q : Parser) → Later p q → remaining q ≤ remaining p
Later-remaining p q l = omega (arith, l.forward, ap length l.tokens)
