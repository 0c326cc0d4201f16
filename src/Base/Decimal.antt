-- ===== src/Base/Decimal.antt =====
-- std::stoi of what std::to_string writes.
use microsql.Base.{
  digits_aux, ℕ, zero, suc, ◌+◌, ◌-◌, ◌*◌, ◌/◌, ◌%◌, ◌≤◌, ◌<◌, ◌≡◌, refl, sym, ap, ◌∙◌, inl, inr,
  true, false, [], ◌∷◌, arith, ltb, ◌==◌, Bool-cases, ok, Text, to_string,
}
use microsql.Base.Int.{pos, negsuc, int_max}
use microsql.Base.Number.{is_digit, is_space, leading_number, signed, stoi, skip_spaces}

-- Digits alone.
unfoldable pub IsDigits : Text → Type 0
IsDigits [] = Unit {0}
IsDigits (c ∷ cs) = (is_digit c ≡ true) × IsDigits cs

digits_aux-IsDigits : (f n : ℕ) (acc : Text) → n < f → IsDigits acc → IsDigits (digits_aux f n acc)
unfolding digits_aux IsDigits
digits_aux-IsDigits zero n acc h d = absurd (omega arith)
digits_aux-IsDigits (suc f) n acc h d = elim (Bool-cases (ltb n 10)) [
  | inl e ↦ rw (e, IsDigits) (ground arith, d)
  | inr e ↦
      rw e (digits_aux-IsDigits f (n / 10) ((n % 10 + 48) ∷ acc) (ground arith) (ground arith, d))
]

pub to_string-IsDigits : (n : ℕ) → IsDigits (to_string n)
unfolding to_string IsDigits
to_string-IsDigits n = digits_aux-IsDigits (n + 1) n [] (omega arith) tt

leading_number-digit :
    (a n m : ℕ) (acc : Text)
    → leading_number a n ((m % 10 + 48) ∷ acc) ≡ leading_number (a * 10 + m % 10) (n + 1) acc
unfolding leading_number
leading_number-digit a n m acc =
    let digit : is_digit (m % 10 + 48) ≡ true = ground arith in
    let value : a * 10 + (m % 10 + 48 - 48) ≡ a * 10 + m % 10 = omega arith in rw (digit, value)

last_digit :
    (n k : ℕ) (acc : Text)
    → leading_number (n / 10) (suc k) ((n % 10 + 48) ∷ acc) ≡ leading_number n (suc (suc k)) acc
last_digit n k acc =
    let whole : n / 10 * 10 + n % 10 ≡ n = omega arith in
    let count : suc k + 1 ≡ suc (suc k) = omega arith in
    leading_number-digit (n / 10) (suc k) n acc
    ∙ ap (λ m. leading_number m (suc k + 1) acc) whole
    ∙ ap (λ j. leading_number n j acc) count

leading_number-digits_aux :
    (f n : ℕ) (acc : Text)
    → n < f
    → (k : ℕ) × (leading_number 0 0 (digits_aux f n acc) ≡ leading_number n (suc k) acc)
unfolding digits_aux
leading_number-digits_aux zero n acc h = absurd (omega arith)
leading_number-digits_aux (suc f) n acc h = elim (Bool-cases (ltb n 10)) [
  | inl e ↦
      let small : n % 10 ≡ n = ground arith in
      (
        0,
        rw e (
            ap (λ m. leading_number 0 0 ((m + 48) ∷ acc)) (sym small)
            ∙ leading_number-digit 0 0 n acc
            ∙ ap (λ m. leading_number m 1 acc) (let e : 0 * 10 + n % 10 ≡ n = ground arith in e)),
      )
  | inr e ↦
      let (k, rest) = leading_number-digits_aux f (n / 10) ((n % 10 + 48) ∷ acc) (ground arith) in
      (suc k, rw e (rest ∙ last_digit n k acc))
]

-- The value of the digits, and that there are some.
pub leading_number-to_string : (n : ℕ) → (k : ℕ) × (leading_number 0 0 (to_string n) ≡ (n, suc k))
unfolding to_string leading_number
leading_number-to_string n = leading_number-digits_aux (n + 1) n [] (omega arith)

-- Digits are read as they stand.
skip_spaces-digit : (c : ℕ) (cs : Text) → is_digit c ≡ true → skip_spaces (c ∷ cs) ≡ c ∷ cs
unfolding skip_spaces
skip_spaces-digit c cs h = let e : is_space c ≡ false = ground arith in rw e

-- The text of a number has a first digit.
pub record Digits (t : Text) : Type 0 where
  pub first : ℕ
  pub others : Text
  pub shape : t ≡ first ∷ others
  pub digit : is_digit first ≡ true

leading-Digits : (t : Text) (n k : ℕ) → leading_number 0 0 t ≡ (n, suc k) → IsDigits t → Digits t
unfolding leading_number IsDigits
leading-Digits [] n k h d = cc
leading-Digits (c ∷ cs) n k h (x, d) = record { first = c; others = cs; shape = refl; digit = x }

pub to_string-Digits : (n : ℕ) → Digits (to_string n)
to_string-Digits n =
    let (k, e) = leading_number-to_string n in
    leading-Digits (to_string n) n k e (to_string-IsDigits n)

stoi-digit :
    (c : ℕ) (cs : Text) (n k : ℕ)
    → is_digit c ≡ true
    → leading_number 0 0 (c ∷ cs) ≡ (n, suc k)
    → n ≤ int_max
    → stoi (c ∷ cs) ≡ ok (pos n)
unfolding stoi
stoi-digit c cs n k h e small =
    let minus : (c == 45) ≡ false = ground arith in
    let plus : (c == 43) ≡ false = ground arith in
    let fits : ltb int_max n ≡ false = ground arith in
    let some_digits : (suc k == 0) ≡ false = ground arith in
    rw (skip_spaces-digit c cs h, minus, plus, e, fits, some_digits)

pub stoi-to_string : (n : ℕ) → n ≤ int_max → stoi (to_string n) ≡ ok (pos n)
stoi-to_string n small =
    let t = to_string-Digits n in
    let (k, e) = leading_number-to_string n in
    ap stoi t.shape
    ∙ stoi-digit t.first t.others n k t.digit (ap (leading_number 0 0) (sym t.shape) ∙ e) small

signed-negative :
    (r : ℕ × ℕ) (n k : ℕ) → r ≡ (suc n, suc k) → n ≤ int_max → signed true r ≡ ok (negsuc n)
signed-negative r n k e small =
    let fits : ltb (int_max + 1) (suc n) ≡ false = ground arith in
    let some_digits : (suc k == 0) ≡ false = ground arith in
    let positive : (suc n == 0) ≡ false = ground arith in
    let less : suc n - 1 ≡ n = omega arith in rw (e, fits, some_digits, positive, less)

pub stoi-negative : (n : ℕ) → n ≤ int_max → stoi (45 ∷ to_string (suc n)) ≡ ok (negsuc n)
unfolding stoi skip_spaces
stoi-negative n small =
    let (k, e) = leading_number-to_string (suc n) in
    signed-negative (leading_number 0 0 (to_string (suc n))) n k e small
