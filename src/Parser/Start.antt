-- ===== src/Parser/Start.antt =====
-- The parser of src/parser/parser.cpp on what the lexer of src/lexer/lexer.cpp gives it.
use microsql.Base.{◌≡◌, refl, ap, Bool, List, [], ◌∷◌, ◌++◌, ok, Text}
use microsql.Base.Int.{ℤ}
use microsql.Lexer.Token.{Token, end_of_file}
use microsql.Lexer.Scan.{token, tokenize}
use microsql.Lexer.Total.{CommentsEnd, tokenize_ends}
use microsql.Parser.State.{back}
use microsql.Parser.Tables.{start}
use microsql.Parser.Later.{IsReady}

back-append : (ts : List Token) (t : Token) → back (ts ++ t ∷ []) ≡ t
back-append [] t = refl
back-append (u ∷ []) t = refl
back-append (u ∷ v ∷ ts) t = back-append (v ∷ ts) t

-- On a query in which a newline follows behind each two minus signs, a parser that starts with
-- the tokens of tokenize is one from which the grammar ends: no expression is out of order, and
-- the tokens end in the end token.
pub tokenize-IsReady :
    (is_float : Text → Bool) (query : Text) (uninitialised : ℤ)
    → CommentsEnd query
    → (tokens : List Token) × (tokenize is_float query ≡ ok tokens)
      × IsReady (start uninitialised tokens)
tokenize-IsReady is_float query uninitialised ends =
    let (ts, l, run) = tokenize_ends is_float query ends in
    (
      ts ++ token end_of_file [] l ∷ [],
      run,
      record {
        ordered = record { below = λ i e at. cc };
        ends = ap (λ t. t.type) (back-append ts (token end_of_file [] l));
      },
    )
