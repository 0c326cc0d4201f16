-- ===== src/Lexer/Comments.antt =====
-- The loop over a comment of src/lexer/lexer.cpp.
use microsql.Base.{
  ℕ, zero, suc, ◌+◌, ◌≤◌, ◌≡◌, refl, ◌≢◌, Bool, true, false, not, List, arith, ◌==◌, out_of_fuel,
  fault, Text,
}
use microsql.Lexer.Scan.{char_at, advance_while, scan_minus, scan, scan_loop}
use microsql.Lexer.Token.{Token}

-- From a position on the query has no newline.
abbrev pub NoNewline : Text → ℕ → Type 0
NoNewline query i = (j : ℕ) → i ≤ j → char_at query j ≢ 10

advance_while-NoNewline :
    (query : Text) (fuel i : ℕ)
    → NoNewline query i
    → advance_while (λ c. not (c == 10)) query fuel i ≡ fault out_of_fuel
unfolding advance_while
advance_while-NoNewline query zero i h = refl
advance_while-NoNewline query (suc fuel) i h =
    let here : not (char_at query i == 10) ≡ true = ground (arith, h i) in
    rw (here, advance_while) (advance_while-NoNewline query fuel (i + 1) (λ j l. h j (omega arith)))

scan-NoNewline :
    (is_float : Text → Bool) (query : Text) (fuel i line : ℕ)
    → char_at query i ≡ b'-'
    → char_at query (i + 1) ≡ b'-'
    → NoNewline query i
    → scan is_float query fuel i line ≡ fault out_of_fuel
unfolding scan scan_minus
scan-NoNewline is_float query fuel i line h h' n =
    rw (h, h', advance_while-NoNewline query fuel i n, scan, scan_minus)

-- From two minus signs with no newline behind them the loop of tokenize does not end, whatever
-- the number of rounds.
pub scan_loop-NoNewline :
    (is_float : Text → Bool) (query : Text) (fuel rounds : ℕ) (tokens : List Token) (i line : ℕ)
    → char_at query i ≡ b'-'
    → char_at query (i + 1) ≡ b'-'
    → NoNewline query i
    → scan_loop is_float query fuel rounds tokens i line ≡ fault out_of_fuel
unfolding scan_loop
scan_loop-NoNewline is_float query fuel zero tokens i line h h' n = refl
scan_loop-NoNewline is_float query fuel (suc rounds) tokens i line h h' n =
    let more : (char_at query i == 0) ≡ false = ground (arith, h) in
    rw (more, scan-NoNewline is_float query fuel i line h h' n, scan_loop)
