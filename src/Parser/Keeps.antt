-- ===== src/Parser/Keeps.antt =====
-- Methods of the Parser of src/parser/parser.cpp that leave a later state of the same run.
use microsql.Base.{
  ℕ, ◌<◌, refl, ap, Bool, true, false, Option, none, some, [], ◌∷◌, ◌++◌, arith, if◌then◌else◌,
  length, Text, codes,
}
use microsql.Ast.Statement.{Statement}
use microsql.Lexer.Token.{TokenType}
use microsql.Parser.State.{
  Parser, Run, done, crash, Act, pure, and_then, ◌>>=◌, ◌>>◌, current_token, with_error, advance,
  current_is, peek_is, set_error, set_first_error, with_statement, consume, consume_identifier,
  syntax_error, but_found,
}
use microsql.Parser.Expressions.{parse_expression}
use microsql.Parser.Later.{
  IsReady, Later, Later-refl, Later-trans, Later-advanced, Later-with_error, Good, good_none,
  good_some, good_crash,
}
use microsql.Parser.Ordered.{parse_expression-Good}

abbrev pub After : {A : Type 0} → Parser → Run A → Type 0
After p (done a q) = Later p q
After p (crash u) = Unit {0}

-- From every ready state with fewer tokens than `fuel`.
pub record Keeps {A : Type 0} (fuel : ℕ) (m : Act A) : Type 0 where
  pub after : (p : Parser) → IsReady p → length p.tokens < fuel → After p (m p)

module _ {A B : Type 0} (fuel : ℕ) where
  After-and_then :
      (p : Parser) (r : Run A) (k : A → Act B)
      → After p r
      → length p.tokens < fuel
      → ((a : A) → Keeps fuel (k a))
      → After p (and_then r k)
  After-and_then p (crash u) k l f h = tt
  After-and_then p (done a q) k l f h =
      go (k a q) ((h a).after q l.ready (omega (arith, ap length l.tokens)))
    where
      go : (r : Run B) → After q r → After p r
      go (done b s) m = Later-trans p q s l m
      go (crash u) m = tt

  pub Keeps-bind :
      (m : Act A) (k : A → Act B)
      → Keeps fuel m
      → ((a : A) → Keeps fuel (k a))
      → Keeps fuel (m >>= k)
  Keeps-bind m k g h = record { after = λ p r f. After-and_then p (m p) k (g.after p r f) f h }

  pub Keeps-then : (m : Act A) (k : Act B) → Keeps fuel m → Keeps fuel k → Keeps fuel (m >> k)
  Keeps-then m k g h = record {
    after = λ p r f. After-and_then p (m p) (λ _. k) (g.after p r f) f (λ _. h);
  }

module _ (fuel : ℕ) where
  pub Keeps-pure : {A : Type 0} (a : A) → Keeps fuel (pure a)
  Keeps-pure a = record { after = λ p r f. Later-refl p r }

  pub Keeps-advance : Keeps fuel advance
  unfolding advance
  Keeps-advance = record { after = λ p r f. Later-advanced p r }

  pub Keeps-current_is : (t : TokenType) → Keeps fuel (current_is t)
  unfolding current_is
  Keeps-current_is t = record { after = λ p r f. Later-refl p r }

  pub Keeps-peek_is : (t : TokenType) → Keeps fuel (peek_is t)
  unfolding peek_is
  Keeps-peek_is t = record { after = λ p r f. Later-refl p r }

  pub Keeps-current_token : Keeps fuel current_token
  Keeps-current_token = record { after = λ p r f. Later-refl p r }

  pub Keeps-set_error : (t : Text) → Keeps fuel (set_error t)
  unfolding set_error
  Keeps-set_error t = record { after = λ p r f. Later-with_error p t r }

  pub Keeps-set_first_error : (t : Text) → Keeps fuel (set_first_error t)
  unfolding set_first_error
  Keeps-set_first_error t = record { after = λ p r f. go p r p.result.error }
    where
      go :
          (p : Parser)
          → IsReady p
          → (e : Text)
          → After p (elim e as (λ _. Run (Unit {0})) [
            | [] ↦ done tt (with_error p t)
            | _ ∷ _ ↦ done tt p
          ])
      go p r [] = Later-with_error p t r
      go p r (x ∷ xs) = Later-refl p r

  pub Keeps-with_statement : (g : Statement → Statement) → Keeps fuel (with_statement g)
  unfolding with_statement
  Keeps-with_statement g = record {
    after = λ p r f. record {
      tokens = refl;
      forward = omega arith;
      grown = omega arith;
      ready = record { ordered = r.ordered; ends = r.ends };
    };
  }

  pub Keeps-if :
      {A : Type 0} (b : Bool) (m m' : Act A)
      → Keeps fuel m
      → Keeps fuel m'
      → Keeps fuel (if b then m else m')
  Keeps-if true m m' g h = g
  Keeps-if false m m' g h = h

  pub Keeps-consume : (t : TokenType) (name : Text) → Keeps fuel (consume t name)
  unfolding consume
  Keeps-consume t name = Keeps-bind fuel _ _ (Keeps-current_is t) λ there.
      Keeps-if there _ _ (Keeps-then fuel _ _ Keeps-advance (Keeps-pure true)) (
        Keeps-bind fuel _ _ Keeps-current_token λ u.
          Keeps-then fuel _ _
            (Keeps-set_error
              (syntax_error u.line (but_found (codes "expected '" ++ (name ++ codes "'")) u)))
            (Keeps-pure false))

  pub Keeps-consume_identifier : (context : Text) → Keeps fuel (consume_identifier context)
  unfolding consume_identifier
  Keeps-consume_identifier context = Keeps-bind fuel _ _ (Keeps-current_is _) λ there.
      Keeps-bind fuel _ _ Keeps-current_token λ u.
        Keeps-if there _ _ (Keeps-then fuel _ _ Keeps-advance (Keeps-pure (some u.value))) (
          Keeps-then fuel _ _
            (Keeps-set_error (syntax_error u.line (but_found (codes "expected " ++ context) u)))
            (Keeps-pure none))

  Good-After :
      {stof : Text → Option ℕ} (p : Parser) {r : Run (Option ℕ)} → Good stof p r → After p r
  Good-After p (good_none l) = l
  Good-After p (good_some l h) = l
  Good-After p (good_crash l h) = tt

  pub Keeps-parse_expression : (stof : Text → Option ℕ) → Keeps fuel (parse_expression stof fuel)
  Keeps-parse_expression stof = record {
    after = λ p r f. Good-After p (parse_expression-Good stof fuel p r (omega arith));
  }
