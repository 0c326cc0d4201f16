-- ===== src/CommandLine/Comment.antt =====
-- The loop of main in src/main.cpp on a query that starts with a comment.
use microsql.Base.{
  ℕ, zero, suc, ◌+◌, ◌≡◌, refl, ap, ◌∙◌, ◌≢◌, none, some, List, [], ◌∷◌, ◌++◌, arith, length, take,
  out_of_fuel, fault, Text,
}
use microsql.Lexer.Scan.{char_at, tokenize}
use microsql.Lexer.Comments.{NoNewline, scan_loop-NoNewline}
use microsql.Executor.Statements.{Context}
use microsql.CommandLine.Loop.{
  Libraries, find_char, add_line, query_of, run_query, command_loop, after_tokenize,
}
use microsql.CommandLine.Lines.{AreFree, add_lines, find_char-head, command_loop-add_lines}

-- A cut text has no other characters.
char_at-take : (n : ℕ) (t : Text) (j : ℕ) → char_at t j ≢ 10 → char_at (take n t) j ≢ 10
char_at-take zero t j h e = omega (arith, e)
char_at-take (suc n) [] j h e = h e
char_at-take (suc n) (c ∷ t) zero h e = h e
char_at-take (suc n) (c ∷ t) (suc j) h e = char_at-take n t j h e

char_at-find_char : (t : Text) → find_char 10 t ≡ none → (j : ℕ) → char_at t j ≢ 10
char_at-find_char [] h j e = omega (arith, e)
char_at-find_char (c ∷ t) h zero e =
    let (other, later) = find_char-head 10 c t h in ground (arith, other, e)
char_at-find_char (c ∷ t) h (suc j) e =
    let (other, later) = find_char-head 10 c t h in char_at-find_char t later j e

module _ (t : Text) (semi : ℕ) where
  abbrev comment : Text
  comment = b'-' ∷ b'-' ∷ t

  abbrev query : Text
  query = b'-' ∷ b'-' ∷ take (semi + 1) t

  query_of-comment : find_char b';' t ≡ some semi → query_of comment ≡ some query
  unfolding query_of find_char
  query_of-comment h =
      let count : suc (suc semi) + 1 ≡ suc (suc (semi + 1)) = omega arith in
      rw (h, find_char) (ap (λ n. some (take n comment)) count)

  query-NoNewline : ((j : ℕ) → char_at t j ≢ 10) → NoNewline query 0
  query-NoNewline h zero low e = omega (arith, e)
  query-NoNewline h (suc zero) low e = omega (arith, e)
  query-NoNewline h (suc (suc j)) low e = char_at-take (semi + 1) t j (h j) e

  module _ (l : Libraries) where
    run_query-comment :
        (ctx : Context) → find_char 10 t ≡ none → run_query l query ctx ≡ (ctx, fault out_of_fuel)
    unfolding run_query tokenize
    run_query-comment ctx h =
        ap (λ r. after_tokenize l r ctx)
          (scan_loop-NoNewline l.is_float query (length query + 2) (length query + 2) [] 0 1 refl
            refl (query-NoNewline (char_at-find_char t h)))

    command_loop-one_line :
        (rest : List Text) (ctx : Context)
        → find_char 10 t ≡ none
        → find_char b';' t ≡ some semi
        → (command_loop l (comment ∷ rest) [] ctx).outcome ≡ fault out_of_fuel
    unfolding command_loop
    command_loop-one_line rest ctx h found =
        rw (query_of-comment found, run_query-comment ctx h, command_loop)

    -- Where the lines up to the first semicolon, joined by spaces, start with two minus signs and
    -- hold no newline, the loop of main is still reading the comment when the rounds of tokenize
    -- are used up, whatever the lines behind them and the state of the program.
    pub command_loop-comment :
        (lines : List Text) (last : Text) (rest : List Text) (ctx : Context)
        → AreFree b';' lines
        → add_line (add_lines [] lines) last ≡ comment
        → find_char 10 t ≡ none
        → find_char b';' t ≡ some semi
        → (command_loop l (lines ++ last ∷ rest) [] ctx).outcome ≡ fault out_of_fuel
    command_loop-comment lines last rest ctx free text h found =
        (command_loop-add_lines l lines last rest ctx free).outcome
        ∙ ap (λ line. (command_loop l (line ∷ rest) [] ctx).outcome) text
        ∙ command_loop-one_line rest ctx h found
