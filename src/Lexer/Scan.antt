-- ===== src/Lexer/Scan.antt =====
-- The Lexer of src/lexer/lexer.cpp. A position is below 2^31, so the `int` copy of one is the same.
use microsql.Base.{
  ℕ, zero, suc, ◌+◌, ◌-◌, Bool, true, false, not, ◌&&◌, ◌||◌, Option, none, some, List, [], ◌∷◌,
  ◌++◌, ◌==◌, if◌then◌else◌, length, get_or, take, drop, out_of_fuel, Outcome, ok, fault, ◌>>=◌,
  Text, codes,
}
use microsql.Base.Number.{is_digit}
use microsql.Lexer.Token
use microsql.Lexer.Token.{TokenType, Token}
use microsql.Lexer.Words.{is_alpha, is_word, get_token_type_alpha, get_token_type_digit}

-- The character at a position, or `'\0'` behind the end.
abbrev pub char_at : Text → ℕ → ℕ
char_at query i = get_or query i 0

-- `query.substr(from, to - from)`
abbrev pub slice : Text → ℕ → ℕ → Text
slice query from to = take (to - from) (drop from query)

-- `while (test(current())) advance();`, as the position where it ends.
unfoldable pub advance_while : (ℕ → Bool) → Text → ℕ → ℕ → Outcome (Unit {0}) ℕ
advance_while test query zero position = fault out_of_fuel
advance_while test query (suc fuel) position = elim (test (char_at query position)) [
  | true ↦ advance_while test query fuel (position + 1)
  | false ↦ ok position
]

-- Digits with at most one dot.
unfoldable pub advance_number : Bool → Text → ℕ → ℕ → Outcome (Unit {0}) ℕ
advance_number has_dot query zero position = fault out_of_fuel
advance_number has_dot query (suc fuel) position =
    let c = char_at query position in
    let dot = not has_dot && c == b'.' in
    elim (is_digit c || dot) [
      | true ↦ advance_number (has_dot || c == b'.') query fuel (position + 1)
      | false ↦ ok position
    ]

-- One round of the loop: the tokens it adds, the position, and the line.
pub record Step : Type 0 where
  pub tokens : List Token
  pub position : ℕ
  pub line : ℕ

abbrev pub token : TokenType → Text → ℕ → Token
token type value line = record { type = type; value = value; line = line }

-- Nothing, or one token, and the characters that it takes.
abbrev pub skip : ℕ → ℕ → Step
skip position line = record { tokens = []; position = position; line = line }

abbrev pub emit : TokenType → Text → ℕ → ℕ → Step
emit type value position line = record {
  tokens = token type value line ∷ [];
  position = position;
  line = line;
}

-- The tokens of one character that begin no longer one.
abbrev pub symbol : ℕ → Option (TokenType × Text)
symbol c =
    if c == b'='
    then some (Token.equal, codes "=")
    else if c == b'+'
    then some (Token.plus, codes "+")
    else if c == b'*'
    then some (Token.star, codes "*")
    else if c == b'/'
    then some (Token.slash, codes "/")
    else if c == b','
    then some (Token.comma, codes ",")
    else if c == b';'
    then some (Token.semicolon, codes ";")
    else if c == b'.'
    then some (Token.dot, codes ".")
    else if c == b'('
    then some (Token.left_paren, codes "(")
    else if c == b')'
    then some (Token.right_paren, codes ")")
    else none

module _ (is_float : Text → Bool) (query : Text) (fuel : ℕ) where
  unfoldable pub scan_bang : ℕ → ℕ → Step
  scan_bang i line =
      if char_at query (i + 1) == b'='
      then emit Token.not_equal (codes "!=") (i + 2) line
      else emit Token.unknown (codes "!") (i + 1) line

  unfoldable pub scan_less : ℕ → ℕ → Step
  scan_less i line =
      if char_at query (i + 1) == b'='
      then emit Token.less_eq (codes "<=") (i + 2) line
      else if char_at query (i + 1) == b'>'
      then emit Token.not_equal (codes "<>") (i + 2) line
      else emit Token.less_than (codes "<") (i + 1) line

  unfoldable pub scan_greater : ℕ → ℕ → Step
  scan_greater i line =
      if char_at query (i + 1) == b'='
      then emit Token.greater_eq (codes ">=") (i + 2) line
      else emit Token.greater_than (codes ">") (i + 1) line

  -- A comment is left at its line's end, which the common `advance` then takes.
  unfoldable pub scan_minus : ℕ → ℕ → Outcome (Unit {0}) Step
  unfolding advance_while
  scan_minus i line =
      if char_at query (i + 1) == b'-'
      then (do end ← advance_while (λ c. not (c == 10)) query fuel i; ok (skip (end + 1) line))
      else ok (emit Token.minus (codes "-") (i + 1) line)

  unfoldable pub scan_string : ℕ → ℕ → Outcome (Unit {0}) Step
  unfolding advance_while
  scan_string i line = do
    end ← advance_while (λ c. not (c == 39) && not (c == 0)) query fuel (i + 1)
    ok (
        if end == length query
        then emit Token.error (codes "Unterminated string literal") (end + 1) line
        else emit Token.string_literal (slice query (i + 1) end) (end + 1) line)

  unfoldable pub scan_word : ℕ → ℕ → Outcome (Unit {0}) Step
  unfolding advance_while get_token_type_alpha
  scan_word i line = do
    end ← advance_while is_word query fuel i
    let word = slice query i end
    ok (emit (get_token_type_alpha word) word end line)

  unfoldable pub scan_number : ℕ → ℕ → Outcome (Unit {0}) Step
  unfolding advance_number get_token_type_digit
  scan_number i line = do
    end ← advance_number false query fuel i
    let num = slice query i end
    ok (emit (get_token_type_digit is_float num) num end line)

  -- The switch on the current character.
  unfoldable pub scan : ℕ → ℕ → Outcome (Unit {0}) Step
  unfolding scan_bang scan_less scan_greater scan_minus scan_string scan_word scan_number
  scan i line =
      let c = char_at query i in
      if c == 32
      then ok (skip (i + 1) line)
      else if c == 10
      then ok (skip (i + 1) (line + 1))
      else if c == b'!'
      then ok (scan_bang i line)
      else if c == b'<'
      then ok (scan_less i line)
      else if c == b'>'
      then ok (scan_greater i line)
      else if c == b'-'
      then scan_minus i line
      else if c == 39
      then scan_string i line
      else elim (symbol c) [
        | some (type, value) ↦ ok (emit type value (i + 1) line)
        | none ↦
            if is_alpha c || c == b'_'
            then scan_word i line
            else if is_digit c
            then scan_number i line
            else ok (skip (i + 1) line)
      ]

  -- The loop, to the first `'\0'`; the end token comes last.
  unfoldable pub scan_loop : ℕ → List Token → ℕ → ℕ → Outcome (Unit {0}) (List Token)
  unfolding scan
  scan_loop zero tokens i line = fault out_of_fuel
  scan_loop (suc rounds) tokens i line = elim (char_at query i == 0) [
    | true ↦ ok (tokens ++ token Token.end_of_file [] line ∷ [])
    | false ↦ do
      step ← scan i line
      scan_loop rounds (tokens ++ step.tokens) step.position step.line
  ]

-- tokenize: a run that ends takes no more rounds than the query has characters.
unfoldable pub tokenize : (Text → Bool) → Text → Outcome (Unit {0}) (List Token)
unfolding scan_loop
tokenize is_float query = scan_loop is_float query (length query + 2) (length query + 2) [] 0 1
