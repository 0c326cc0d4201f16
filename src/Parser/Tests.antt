-- ===== src/Parser/Tests.antt =====
-- The theorems on the lexer and the parser at a query with a comment.
use microsql.Base.{
  ℕ, zero, suc, ◌≡◌, refl, Bool, false, Option, none, some, List, [], ◌∷◌, ◌++◌, arith, ok, Text,
  codes,
}
use microsql.Base.Int.{pos}
use microsql.Lexer.Token
use microsql.Lexer.Token.{Token, end_of_file, type_eq}
use microsql.Lexer.Scan.{token, tokenize}
use microsql.Lexer.Total.{CommentsEnd, tokenize_ends}
use microsql.Ast.Statement.{StatementKind}
use microsql.Ast.Expression.{BinaryOperator, literal_int, column_ref, binary}
use microsql.Ast.Ordered.{IsOrdered}
use microsql.Base.Number.{stoi}
use microsql.Parser.State.{Parser, done, token_at}
use microsql.Parser.Expressions.{parse_expression}
use microsql.Parser.Statements.{parse_delete}
use microsql.Parser.Pool.Parse.{parse-IsOrdered}
use microsql.Parser.Tables.{blank_statement, parse}
use microsql.Parser.Later.{pool}

abbrev no_float : Text → Bool
no_float s = false

-- A comment, and a digit on the next line.
abbrev query : Text
query = 45 ∷ 45 ∷ 10 ∷ 55 ∷ []

query-CommentsEnd : CommentsEnd query
query-CommentsEnd zero h h' = (2, omega arith, refl)
query-CommentsEnd (suc zero) h h' = (2, omega arith, refl)
query-CommentsEnd (suc (suc zero)) h h' = (2, omega arith, refl)
query-CommentsEnd (suc (suc (suc zero))) h h' = absurd (omega (arith, h))
query-CommentsEnd (suc (suc (suc (suc i)))) h h' = absurd (omega (arith, h))

tokenize_ends_example :
    (ts : List Token) × (l : ℕ) × (tokenize no_float query ≡ ok (ts ++ token end_of_file [] l ∷ []))
tokenize_ends_example = tokenize_ends no_float query query-CommentsEnd

-- DELETE FROM t WHERE a = 1;
abbrev delete_tokens : List Token
delete_tokens =
    token Token.delete (codes "DELETE") 1
    ∷ token Token.from (codes "FROM") 1
    ∷ token Token.identifier (codes "t") 1
    ∷ token Token.where_ (codes "WHERE") 1
    ∷ token Token.identifier (codes "a") 1
    ∷ token Token.equal (codes "=") 1
    ∷ token Token.integer_literal (codes "1") 1
    ∷ token Token.semicolon (codes ";") 1
    ∷ token Token.end_of_file [] 1
    ∷ []

abbrev no_stof : Text → Option ℕ
no_stof s = none

abbrev deleted : Parser
deleted = record {
  tokens = delete_tokens;
  position = 8;
  result = record {
    expressions =
        column_ref (codes "a") [] ∷ literal_int (pos 1) ∷ binary BinaryOperator.equal 0 1 ∷ [];
    statement = record blank_statement {
      kind = StatementKind.delete;
      table_name = codes "t";
      where_index = some 2;
    };
    error = [];
  };
  uninitialised = pos 0;
}

parse_run : parse no_stof (pos 0) delete_tokens ≡ done tt deleted
unfolding parse type_eq token_at stoi parse_expression parse_delete
parse_run = refl

parse-IsOrdered_example : IsOrdered (pool deleted)
parse-IsOrdered_example = parse-IsOrdered no_stof (pos 0) delete_tokens deleted refl parse_run
