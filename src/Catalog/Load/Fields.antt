-- ===== src/Catalog/Load/Fields.antt =====
-- The fields of catalog.txt that are not names: written by Catalog::save and read by Catalog::load, in src/catalog/catalog.cpp.
use microsql.Base.{
  ℕ, suc, ◌≤◌, ◌≡◌, refl, inl, inr, Bool, true, false, not, ◌&&◌, some, [], ◌∷◌, arith, Bool-cases,
  ok, Text, codes, text_eq, to_string,
}
use microsql.Base.Int.{ℤ, pos, negsuc, int_max}
use microsql.Base.Number.{is_space, stoi}
use microsql.Base.Decimal.{
  IsDigits, to_string-IsDigits, to_string-Digits, stoi-to_string, stoi-negative,
}
use microsql.Ast.Statement.{DataType}
use microsql.Catalog.{data_type_name, int_text, bool_text}
use microsql.Catalog.Load.{data_type_of}
use microsql.Catalog.Load.Words.{NoSpace, IsWord}

-- The range of `int`.
unfoldable pub IsInt : ℤ → Type 0
IsInt (pos n) = n ≤ int_max
IsInt (negsuc n) = n ≤ int_max

digits-NoSpace : (t : Text) → IsDigits t → NoSpace t
unfolding IsDigits NoSpace
digits-NoSpace [] d = tt
digits-NoSpace (c ∷ t) (x, d) = (ground arith, digits-NoSpace t d)

abbrev no_space : Text → Bool
no_space [] = true
no_space (c ∷ t) = not (is_space c) && no_space t

NoSpace-no_space : (t : Text) → no_space t ≡ true → NoSpace t
unfolding NoSpace
NoSpace-no_space [] h = tt
NoSpace-no_space (c ∷ t) h = elim (Bool-cases (is_space c)) [
  | inl e ↦ absurd (ground arith)
  | inr e ↦ (e, NoSpace-no_space t (ground arith))
]

pub no_space-IsWord : {c : ℕ} {t : Text} → no_space (c ∷ t) ≡ true → IsWord (c ∷ t)
no_space-IsWord {c} {t} h = record {
  first = c;
  others = t;
  shape = refl;
  plain = NoSpace-no_space (c ∷ t) h;
}

pub int_text-IsWord : (n : ℤ) → IsWord (int_text n)
unfolding NoSpace
int_text-IsWord (pos n) = record {
  first = (to_string-Digits n).first;
  others = (to_string-Digits n).others;
  shape = (to_string-Digits n).shape;
  plain = digits-NoSpace (to_string n) (to_string-IsDigits n);
}
int_text-IsWord (negsuc n) = record {
  first = 45;
  others = to_string (suc n);
  shape = refl;
  plain = (refl, digits-NoSpace (to_string (suc n)) (to_string-IsDigits (suc n)));
}

pub stoi-int_text : (n : ℤ) → IsInt n → stoi (int_text n) ≡ ok n
unfolding IsInt
stoi-int_text (pos n) h = stoi-to_string n h
stoi-int_text (negsuc n) h = stoi-negative n h

pub data_type_name-IsWord : (t : DataType) → IsWord (data_type_name t)
unfolding data_type_name NoSpace
data_type_name-IsWord DataType.integer = no_space-IsWord refl
data_type_name-IsWord DataType.float = no_space-IsWord refl
data_type_name-IsWord DataType.text = no_space-IsWord refl
data_type_name-IsWord DataType.boolean = no_space-IsWord refl

pub bool_text-IsWord : (b : Bool) → IsWord (bool_text b)
unfolding NoSpace
bool_text-IsWord true = no_space-IsWord refl
bool_text-IsWord false = no_space-IsWord refl

pub data_type_of-name : (t : DataType) → data_type_of (data_type_name t) ≡ some t
unfolding data_type_of data_type_name
data_type_of-name DataType.integer = refl
data_type_of-name DataType.float = refl
data_type_of-name DataType.text = refl
data_type_of-name DataType.boolean = refl

pub bool_text-true : (b : Bool) → text_eq (bool_text b) (codes "true") ≡ b
bool_text-true true = refl
bool_text-true false = refl
