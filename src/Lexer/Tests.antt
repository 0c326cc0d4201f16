-- ===== src/Lexer/Tests.antt =====
-- Runs of the lexer, and its theorems at concrete queries.
use microsql.Base.{ℕ, zero, suc, ◌≡◌, refl, Bool, false, [], arith, out_of_fuel, fault, Text, codes}
use microsql.Lexer.Scan.{char_at, scan_loop}
use microsql.Lexer.Comments.{NoNewline, scan_loop-NoNewline}

abbrev no_float : Text → Bool
no_float s = false

abbrev comment : Text
comment = codes "1 --x"

beyond : (j : ℕ) → char_at comment (suc (suc (suc (suc (suc j))))) ≡ 0
beyond j = refl

comment-NoNewline : NoNewline comment 2
comment-NoNewline zero h e = absurd (omega arith)
comment-NoNewline (suc zero) h e = absurd (omega arith)
comment-NoNewline (suc (suc zero)) h e = absurd (omega arith)
comment-NoNewline (suc (suc (suc zero))) h e = absurd (omega arith)
comment-NoNewline (suc (suc (suc (suc zero)))) h e = absurd (omega arith)
comment-NoNewline (suc (suc (suc (suc (suc j))))) h e = absurd (omega (arith, beyond j))

scan_loop-NoNewline_example : scan_loop no_float comment 50 40 [] 2 1 ≡ fault out_of_fuel
scan_loop-NoNewline_example =
    scan_loop-NoNewline no_float comment 50 40 [] 2 1 refl refl comment-NoNewline
