-- ===== src/Base/Number.antt =====
-- std::stoi: leading white space and a sign, then digits up to the first other character.
use microsql.Base.{
  ℕ, ◌+◌, ◌-◌, ◌*◌, inl, inr, Bool, true, false, ◌&&◌, ◌||◌, [], ◌∷◌, ltb, leb, ◌==◌, if◌then◌else◌,
  Bool-cases, invalid_argument, out_of_range, Outcome, ok, err, fault, Text,
}
use microsql.Base.Int.{ℤ, pos, negsuc, int_max}

abbrev pub is_digit : ℕ → Bool
is_digit c = leb b'0' c && leb c b'9'

abbrev pub is_space : ℕ → Bool
is_space c = c == 32 || (leb 9 c && leb c 13)

-- The digits from the front on: their value, and how many there are.
unfoldable pub leading_number : ℕ → ℕ → Text → ℕ × ℕ
leading_number acc n [] = (acc, n)
leading_number acc n (c ∷ cs) =
    let rest = leading_number (acc * 10 + (c - b'0')) (n + 1) cs in
    if is_digit c then rest else (acc, n)

unfoldable pub skip_spaces : Text → Text
skip_spaces [] = []
skip_spaces (c ∷ cs) = let rest = skip_spaces cs in if is_space c then rest else c ∷ cs

abbrev pub Parsed : Type 0
Parsed = Outcome (Unit {0}) ℤ

-- The number after the sign; INT_MIN has one more than INT_MAX.
abbrev pub signed : Bool → ℕ × ℕ → Parsed
signed negative (n, count) =
    if count == 0
    then fault invalid_argument
    else if negative
    then (if ltb (int_max + 1) n
        then fault out_of_range
        else if n == 0
        then ok (pos 0)
        else ok (negsuc (n - 1)))
    else (if ltb int_max n then fault out_of_range else ok (pos n))

abbrev after_spaces : Text → Parsed
after_spaces [] = fault invalid_argument
after_spaces (c ∷ cs) =
    if c == b'-'
    then signed true (leading_number 0 0 cs)
    else if c == b'+'
    then signed false (leading_number 0 0 cs)
    else signed false (leading_number 0 0 (c ∷ cs))

unfoldable pub stoi : Text → Parsed
unfolding skip_spaces leading_number
stoi s = after_spaces (skip_spaces s)

-- What an integer conversion may come to: a number, or one of the two exceptions.
abbrev pub IsConversion : Parsed → Type 0
IsConversion (ok v) = Unit {0}
IsConversion (err e) = ⊥
IsConversion (fault invalid_argument) = Unit {0}
IsConversion (fault out_of_range) = Unit {0}
IsConversion (fault _) = ⊥

signed-IsConversion : (negative : Bool) (r : ℕ × ℕ) → IsConversion (signed negative r)
signed-IsConversion negative (n, count) = elim (Bool-cases (count == 0)) [
  | inl none_there ↦ rw none_there tt
  | inr digits ↦ rw digits (sign negative)
]
  where
    sign :
        (negative : Bool)
        → IsConversion (
            if negative
            then (if ltb (int_max + 1) n
                then fault out_of_range
                else if n == 0
                then ok (pos 0)
                else ok (negsuc (n - 1)))
            else (if ltb int_max n then fault out_of_range else ok (pos n)))
    sign true = elim (Bool-cases (ltb (int_max + 1) n)) [
      | inl large ↦ rw large tt
      | inr small ↦ elim (Bool-cases (n == 0)) [
        | inl zero_there ↦ rw (small, zero_there) tt
        | inr other ↦ rw (small, other) tt
      ]
    ]
    sign false = elim (Bool-cases (ltb int_max n)) [
      | inl large ↦ rw large tt
      | inr small ↦ rw small tt
    ]

pub stoi-IsConversion : (s : Text) → IsConversion (stoi s)
unfolding stoi
stoi-IsConversion s = go (skip_spaces s)
  where
    go : (t : Text) → IsConversion (after_spaces t)
    go [] = tt
    go (c ∷ cs) = elim (Bool-cases (c == b'-')) [
      | inl minus ↦ rw minus (signed-IsConversion true (leading_number 0 0 cs))
      | inr other ↦ elim (Bool-cases (c == b'+')) [
        | inl plus ↦ rw (other, plus) (signed-IsConversion false (leading_number 0 0 cs))
        | inr digit ↦ rw (other, digit) (signed-IsConversion false (leading_number 0 0 (c ∷ cs)))
      ]
    ]
