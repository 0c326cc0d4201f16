-- ===== src/Parser/State.antt =====
-- The Parser object of src/parser/parser.h, its token cursor and its error messages.
use microsql.Base.{
  ℕ, ◌+◌, ◌-◌, Bool, true, false, Option, none, some, List, [], ◌∷◌, ◌++◌, leb, if◌then◌else◌,
  length, get_or, Fault, Text, codes, to_string,
}
use microsql.Base.Int.{ℤ}
use microsql.Lexer.Token.{TokenType, end_of_file, identifier, Token, type_eq}
use microsql.Ast.Statement.{Statement}
use microsql.Ast.Expression.{Expression}

pub record ParseResult : Type 0 where
  pub expressions : List Expression
  pub statement : Statement
  pub error : Text

-- `uninitialised` is what an `int` holds that the source leaves without a value.
pub record Parser : Type 0 where
  pub tokens : List Token
  pub position : ℕ
  pub result : ParseResult
  pub uninitialised : ℤ

-- A method may end by an exception, or run on without end.
pub data Run (A : Type 0) : Type 0 where
  done : A → Parser → Run A
  crash : Fault → Run A

abbrev pub Act : Type 0 → Type 0
Act A = Parser → Run A

abbrev pub pure : {A : Type 0} → A → Act A
pure a p = done a p

module _ {A B : Type 0} where
  abbrev pub and_then : Run A → (A → Act B) → Run B
  and_then (done a p) k = k a p
  and_then (crash u) k = crash u

  infixl 5 ◌>>=◌ ◌>>◌
  abbrev pub ◌>>=◌ : Act A → (A → Act B) → Act B
  ◌>>=◌ m k p = and_then (m p) k

  abbrev pub ◌>>◌ : Act A → Act B → Act B
  ◌>>◌ m k p = and_then (m p) (λ _. k)

-- The token that stands for an empty vector, which the source must not be given.
abbrev pub no_token : Token
no_token = record { type = end_of_file; value = []; line = 0 }

-- tokens->back()
abbrev pub back : List Token → Token
back [] = no_token
back (t ∷ []) = t
back (t ∷ u ∷ tokens) = back (u ∷ tokens)

-- The last token stands for every position from its own on.
unfoldable pub token_at : List Token → ℕ → Token
token_at tokens i = if leb (length tokens - 1) i then back tokens else get_or tokens i (back tokens)

abbrev pub current : Parser → Token
current p = token_at p.tokens p.position

abbrev pub peek : Parser → Token
peek p = token_at p.tokens (p.position + 1)

abbrev pub advanced : Parser → Parser
advanced p = record p { position = p.position + 1 }

unfoldable pub advance : Act (Unit {0})
advance p = done tt (advanced p)

unfoldable pub current_is : TokenType → Act Bool
current_is type p = done (type_eq (current p).type type) p

unfoldable pub peek_is : TokenType → Act Bool
peek_is type p = done (type_eq (peek p).type type) p

abbrev pub current_token : Act Token
current_token p = done (current p) p

abbrev pub peek_token : Act Token
peek_token p = done (peek p) p

abbrev pub with_error : Parser → Text → Parser
with_error p message = record p { result = record p.result { error = message } }

unfoldable pub set_error : Text → Act (Unit {0})
set_error message p = done tt (with_error p message)

-- The message is set only where there is none yet.
unfoldable pub set_first_error : Text → Act (Unit {0})
set_first_error message p = elim p.result.error [
  | [] ↦ done tt (with_error p message)
  | _ ∷ _ ↦ done tt p
]

unfoldable pub with_statement : (Statement → Statement) → Act (Unit {0})
with_statement f p =
    done tt (record p { result = record p.result { statement = f p.result.statement } })

-- expressions.size(), then push_back.
unfoldable pub push_expression : Expression → Act ℕ
push_expression e p =
    done (length p.result.expressions)
      (record p { result = record p.result { expressions = p.result.expressions ++ e ∷ [] } })

unfoldable pub syntax_error : ℕ → Text → Text
syntax_error line rest = codes "Syntax error at line " ++ (to_string line ++ (codes ": " ++ rest))

abbrev pub but_found : Text → Token → Text
but_found what t = what ++ (codes " but found '" ++ (t.value ++ codes "'"))

unfoldable pub consume : TokenType → Text → Act Bool
unfolding current_is set_error advance syntax_error
consume type name = do
  there ← current_is type
  if there then (do advance; pure true) else (do
    t ← current_token
    set_error (syntax_error t.line (but_found (codes "expected '" ++ (name ++ codes "'")) t))
    pure false)

-- The identifier comes back where the source writes it to `out`.
unfoldable pub consume_identifier : Text → Act (Option Text)
unfolding current_is set_error advance syntax_error
consume_identifier context = do
  there ← current_is identifier
  t ← current_token
  if there then (do advance; pure (some t.value)) else (do
    set_error (syntax_error t.line (but_found (codes "expected " ++ context) t))
    pure none)
