-- ===== src/Lexer/Total.antt =====
-- tokenize of src/lexer/lexer.cpp comes to its end on a query whose comments end.
use microsql.Base.{
  ℕ, zero, suc, ◌+◌, ◌-◌, ◌≤◌, ◌<◌, ◌≡◌, refl, sym, ◌∙◌, inl, inr, Bool, true, false, not, ◌&&◌,
  ◌||◌, Option, none, some, List, [], ◌∷◌, ◌++◌, arith, ◌==◌, if◌then◌else◌, ==_iff, Bool-cases,
  length, Outcome, ok, Text, codes,
}
use microsql.Base.Number.{is_digit}
use microsql.Lexer.Token
use microsql.Lexer.Token.{Token, TokenType, end_of_file}
use microsql.Lexer.Words.{is_word, is_alpha, get_token_type_alpha, get_token_type_digit}
use microsql.Lexer.Scan.{
  Step, char_at, slice, token, symbol, skip, emit, scan_bang, scan_less, scan_greater, scan_minus,
  scan_string, scan_word, scan_number, scan, scan_loop, tokenize,
}
use microsql.Lexer.Ends.{
  char_at_inside, advance_while_ends, advance_while_passes, advance_while_newline,
  advance_number_passes,
}

-- Behind each two minus signs there is a newline.
abbrev pub CommentsEnd : Text → Type 0
CommentsEnd query =
    (i : ℕ)
    → char_at query i ≡ b'-'
    → char_at query (i + 1) ≡ b'-'
    → (k : ℕ) × (i ≤ k) × (char_at query k ≡ 10)

-- A round that comes to its end behind where it began.
abbrev Forward : ℕ → Outcome (Unit {0}) Step → Type 0
Forward i r = (step : Step) × (r ≡ ok step) × (i < step.position)

Forward-ok : (i : ℕ) (step : Step) → i < step.position → Forward i (ok step)
Forward-ok i step h = (step, refl, h)

Forward-if :
    (i : ℕ) (b : Bool) (r r' : Outcome (Unit {0}) Step)
    → (b ≡ true → Forward i r)
    → (b ≡ false → Forward i r')
    → Forward i (if b then r else r')
Forward-if i true r r' f g = f refl
Forward-if i false r r' f g = g refl

module _ (is_float : Text → Bool) (query : Text) (fuel : ℕ) where
  scan_minus-Forward :
      (i line : ℕ)
      → CommentsEnd query
      → char_at query i ≡ b'-'
      → length query - i < fuel
      → Forward i (scan_minus is_float query fuel i line)
  unfolding scan_minus
  scan_minus-Forward i line ends here f =
      Forward-if i (char_at query (i + 1) == b'-') _ _
        (λ h.
          let (k, later, newline) = ends i here ((==_iff (char_at query (i + 1)) b'-').0 h) in
          let inside =
            char_at_inside query k
              (λ e. let no : 10 ≡ 0 = sym newline ∙ e in absurd (omega arith)) in
          let (end, run, l) = advance_while_newline query fuel i k newline later (omega arith) in
          (skip (end + 1) line, rw run, omega (arith, l)))
        (λ h. Forward-ok i _ (omega arith))

  scan_string-Forward :
      (i line : ℕ) → length query - i < fuel → Forward i (scan_string is_float query fuel i line)
  unfolding scan_string
  scan_string-Forward i line f =
      let (end, run, l) =
        advance_while_ends (λ c. not (c == 39) && not (c == 0)) query fuel (i + 1) refl
          (omega arith) in
      elim (Bool-cases (end == length query)) [
        | inl h ↦ (
          emit Token.error (codes "Unterminated string literal") (end + 1) line,
          rw (run, h, scan_string),
          omega (arith, l),
        )
        | inr h ↦ (
          emit Token.string_literal (slice query (i + 1) end) (end + 1) line,
          rw (run, h, scan_string),
          omega (arith, l),
        )
      ]

  scan_word-Forward :
      (i line : ℕ)
      → is_word (char_at query i) ≡ true
      → length query - i < fuel
      → Forward i (scan_word is_float query fuel i line)
  unfolding scan_word
  scan_word-Forward i line h f =
      let (end, run, l) = advance_while_passes is_word query fuel i refl h f in
      (
        emit (get_token_type_alpha (slice query i end)) (slice query i end) end line,
        rw (run, scan_word),
        l,
      )

  scan_number-Forward :
      (i line : ℕ)
      → is_digit (char_at query i) ≡ true
      → length query - i < fuel
      → Forward i (scan_number is_float query fuel i line)
  unfolding scan_number
  scan_number-Forward i line h f =
      let (end, run, l) = advance_number_passes query fuel i h f in
      (
        emit (get_token_type_digit is_float (slice query i end)) (slice query i end) end line,
        rw (run, scan_number),
        l,
      )

  scan_bang-Forward : (i line : ℕ) → Forward i (ok (scan_bang is_float query fuel i line))
  unfolding scan_bang
  scan_bang-Forward i line = elim (Bool-cases (char_at query (i + 1) == b'=')) [
    | inl h ↦ rw (h, scan_bang) (Forward-ok i _ (omega arith))
    | inr h ↦ rw (h, scan_bang) (Forward-ok i _ (omega arith))
  ]

  scan_less-Forward : (i line : ℕ) → Forward i (ok (scan_less is_float query fuel i line))
  unfolding scan_less
  scan_less-Forward i line = elim (Bool-cases (char_at query (i + 1) == b'=')) [
    | inl h ↦ rw (h, scan_less) (Forward-ok i _ (omega arith))
    | inr h ↦ elim (Bool-cases (char_at query (i + 1) == b'>')) [
      | inl h' ↦ rw (h, h', scan_less) (Forward-ok i _ (omega arith))
      | inr h' ↦ rw (h, h', scan_less) (Forward-ok i _ (omega arith))
    ]
  ]

  scan_greater-Forward : (i line : ℕ) → Forward i (ok (scan_greater is_float query fuel i line))
  unfolding scan_greater
  scan_greater-Forward i line = elim (Bool-cases (char_at query (i + 1) == b'=')) [
    | inl h ↦ rw (h, scan_greater) (Forward-ok i _ (omega arith))
    | inr h ↦ rw (h, scan_greater) (Forward-ok i _ (omega arith))
  ]

  Forward-symbol :
      (i line : ℕ) (o : Option (TokenType × Text)) (r : Outcome (Unit {0}) Step)
      → Forward i r
      → Forward i (elim o [ some (type, value) ↦ ok (emit type value (i + 1) line) | none ↦ r ])
  Forward-symbol i line none r h = h
  Forward-symbol i line (some (type, value)) r h = Forward-ok i _ (omega arith)

  scan-Forward :
      (i line : ℕ)
      → CommentsEnd query
      → length query - i < fuel
      → Forward i (scan is_float query fuel i line)
  unfolding scan
  scan-Forward i line ends f =
      let c = char_at query i in
      Forward-if i (c == 32) _ _ (λ h. Forward-ok i _ (omega arith))
        λ h.
          Forward-if i (c == 10) _ _ (λ h. Forward-ok i _ (omega arith))
            λ h.
              Forward-if i (c == b'!') _ _ (λ h. scan_bang-Forward i line)
                λ h.
                  Forward-if i (c == b'<') _ _ (λ h. scan_less-Forward i line)
                    λ h.
                      Forward-if i (c == b'>') _ _ (λ h. scan_greater-Forward i line)
                        λ h.
                          Forward-if i (c == b'-') _ _
                            (λ h. scan_minus-Forward i line ends ((==_iff c b'-').0 h) f)
                            λ h.
                              Forward-if i (c == 39) _ _ (λ h. scan_string-Forward i line f)
                                λ h. Forward-symbol i line (symbol c) _ (
                                  Forward-if i (is_alpha c || c == b'_') _ _
                                    (λ h. scan_word-Forward i line (ground arith) f)
                                    λ h.
                                      Forward-if i (is_digit c) _ _
                                        (λ h. scan_number-Forward i line h f)
                                        λ h. Forward-ok i _ (omega arith))

  scan_loop_ends :
      (rounds : ℕ) (tokens : List Token) (i line : ℕ)
      → CommentsEnd query
      → length query < fuel
      → length query - i < rounds
      → (ts : List Token) × (l : ℕ) × (scan_loop is_float query fuel rounds tokens i line
          ≡ ok (ts ++ token end_of_file [] l ∷ []))
  unfolding scan_loop
  scan_loop_ends zero tokens i line ends f h = absurd (omega arith)
  scan_loop_ends (suc rounds) tokens i line ends f h = elim (Bool-cases (char_at query i == 0)) [
    | inl stop ↦ (tokens, line, rw (stop, scan_loop))
    | inr go ↦
        let inside = char_at_inside query i (λ e. ground (arith, e)) in
        let (step, run, forward) = scan-Forward i line ends (omega arith) in
        let (ts, l, rest) =
          scan_loop_ends rounds (tokens ++ step.tokens) step.position step.line ends f
            (omega arith) in
        (ts, l, rw (go, run, scan_loop) rest)
  ]

-- On a query in which a newline follows behind each two minus signs tokenize comes to its end,
-- and the last of its tokens, after whatever others there are, is the end token.
pub tokenize_ends :
    (is_float : Text → Bool) (query : Text)
    → CommentsEnd query
    → (ts : List Token) × (l : ℕ) × (tokenize is_float query
        ≡ ok (ts ++ token end_of_file [] l ∷ []))
unfolding tokenize
tokenize_ends is_float query ends =
    scan_loop_ends is_float query (length query + 2) (length query + 2) [] 0 1 ends (omega arith)
      (omega arith)
