-- ===== src/Lexer/Ends.antt =====
-- The loops of tokenize in src/lexer/lexer.cpp come to their end, and go forward.
use microsql.Base.{
  ℕ, zero, suc, ◌+◌, ◌-◌, ◌≤◌, ◌<◌, ◌≡◌, refl, sym, ap, ◌∙◌, ◌≢◌, inl, inr, Bool, true, false, not,
  ◌&&◌, ◌||◌, [], ◌∷◌, arith, ltb, ◌==◌, ltb→lt, ltb_false→le, Bool-cases, length, ok, Text,
}
use microsql.Base.Number.{is_digit}
use microsql.Lexer.Scan.{char_at, advance_while, advance_number}

char_at_beyond : (query : Text) (i : ℕ) → length query ≤ i → char_at query i ≡ 0
char_at_beyond [] i h = refl
char_at_beyond (c ∷ query) zero h = absurd (omega arith)
char_at_beyond (c ∷ query) (suc i) h = char_at_beyond query i (omega arith)

-- Where a character is not `'\0'` the query goes on.
pub char_at_inside : (query : Text) (i : ℕ) → char_at query i ≢ 0 → i < length query
char_at_inside query i h = elim (Bool-cases (ltb i (length query))) [
  | inl inside ↦ ltb→lt i (length query) inside
  | inr beyond ↦ absurd (h (char_at_beyond query i (ltb_false→le i (length query) beyond)))
]

-- A loop that does not go past the end.
pub advance_while_ends :
    (test : ℕ → Bool) (query : Text) (fuel i : ℕ)
    → test 0 ≡ false
    → length query - i < fuel
    → (end : ℕ) × (advance_while test query fuel i ≡ ok end) × (i ≤ end)
unfolding advance_while
advance_while_ends test query zero i h f = absurd (omega arith)
advance_while_ends test query (suc fuel) i h f = elim (Bool-cases (test (char_at query i))) [
  | inr stop ↦ (i, rw (stop, advance_while), omega arith)
  | inl go ↦
      let inside =
        char_at_inside query i (λ e. let no : true ≡ false = sym go ∙ ap test e ∙ h in cc) in
      let (end, run, later) = advance_while_ends test query fuel (i + 1) h (omega arith) in
      (end, rw (go, advance_while) run, omega (arith, later))
]

-- It passes a character that is tested for.
pub advance_while_passes :
    (test : ℕ → Bool) (query : Text) (fuel i : ℕ)
    → test 0 ≡ false
    → test (char_at query i) ≡ true
    → length query - i < fuel
    → (end : ℕ) × (advance_while test query fuel i ≡ ok end) × (i < end)
unfolding advance_while
advance_while_passes test query zero i h go f = absurd (omega arith)
advance_while_passes test query (suc fuel) i h go f =
    let inside =
      char_at_inside query i (λ e. let no : true ≡ false = sym go ∙ ap test e ∙ h in cc) in
    let (end, run, later) = advance_while_ends test query fuel (i + 1) h (omega arith) in
    (end, rw (go, advance_while) run, omega (arith, later))

-- The loop over a comment ends at a newline.
pub advance_while_newline :
    (query : Text) (fuel i k : ℕ)
    → char_at query k ≡ 10
    → i ≤ k
    → k - i < fuel
    → (end : ℕ) × (advance_while (λ c. not (c == 10)) query fuel i ≡ ok end) × (i ≤ end)
unfolding advance_while
advance_while_newline query zero i k h l f = absurd (omega arith)
advance_while_newline query (suc fuel) i k h l f = elim (Bool-cases (char_at query i == 10)) [
  | inl stop ↦ (i, rw (stop, advance_while), omega arith)
  | inr go ↦
      let ne : i ≢ k = λ e.
        let no : true ≡ false = sym (ap (λ c. c == 10) (ap (char_at query) e ∙ h)) ∙ go in cc in
      let (end, run, later) =
        advance_while_newline query fuel (i + 1) k h (omega arith) (omega arith) in
      (end, rw (go, advance_while) run, omega (arith, later))
]

pub advance_number_ends :
    (has_dot : Bool) (query : Text) (fuel i : ℕ)
    → length query - i < fuel
    → (end : ℕ) × (advance_number has_dot query fuel i ≡ ok end) × (i ≤ end)
unfolding advance_number
advance_number_ends has_dot query zero i f = absurd (omega arith)
advance_number_ends has_dot query (suc fuel) i f =
    let c = char_at query i in
    elim (Bool-cases (is_digit c || (not has_dot && c == b'.'))) [
      | inr stop ↦ (i, rw (stop, advance_number), omega arith)
      | inl go ↦
          let inside = char_at_inside query i (λ e. ground (arith, e)) in
          let (end, run, later) =
            advance_number_ends (has_dot || c == b'.') query fuel (i + 1) (omega arith) in
          (end, rw (go, advance_number) run, omega (arith, later))
    ]

pub advance_number_passes :
    (query : Text) (fuel i : ℕ)
    → is_digit (char_at query i) ≡ true
    → length query - i < fuel
    → (end : ℕ) × (advance_number false query fuel i ≡ ok end) × (i < end)
unfolding advance_number
advance_number_passes query zero i h f = absurd (omega arith)
advance_number_passes query (suc fuel) i h f =
    let c = char_at query i in
    let inside = char_at_inside query i (λ e. ground (arith, e)) in
    let go : (is_digit c || (not false && c == b'.')) ≡ true = rw h in
    let (end, run, later) =
      advance_number_ends (false || c == b'.') query fuel (i + 1) (omega arith) in
    (end, rw (go, advance_number) run, omega (arith, later))
