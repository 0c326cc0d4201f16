-- ===== src/Executor/Eval/Where.antt =====
-- How the comparisons of a WHERE clause agree with one another.
use microsql.Base.{
  zero, suc, ◌≡◌, refl, ap, Bool, true, false, not, [], ◌∷◌, arith, ok, err, fault, ◌>>=◌, Text,
  text_eq,
}
use microsql.Base.Int.{ℤ, pos, negsuc, eq_ℤ}
use microsql.Ast.Expression.{
  equal, not_equal, less_than, less_than_or_equal, greater_than, greater_than_or_equal, is, is_not,
}
use microsql.Storage.Row.{Value, int, text}
use microsql.Executor.Error.{Exec}
use microsql.Executor.Values.{Double, value_eq, compare_values, compare_text}
use microsql.Executor.Eval.{compare_where}

-- `not` under the result.
abbrev pub negated : Exec Bool → Exec Bool
negated m = m >>= λ b. ok (not b)

pub opposite : ℤ → ℤ
opposite (pos zero) = pos 0
opposite (pos (suc n)) = negsuc n
opposite (negsuc n) = pos (suc n)

-- A number or a text: values with an order of their own.
abbrev pub IsOrderedValue : Value → Type 0
IsOrderedValue (int v) = Unit {0}
IsOrderedValue (text s) = Unit {0}
IsOrderedValue _ = ⊥

compare_text-opposite : (a b : Text) → compare_text b a ≡ opposite (compare_text a b)
unfolding compare_text opposite
compare_text-opposite [] [] = refl
compare_text-opposite [] (y ∷ b) = refl
compare_text-opposite (x ∷ a) [] = refl
compare_text-opposite (x ∷ a) (y ∷ b) = ground (arith, compare_text-opposite a b)

compare_text-eq : (a b : Text) → eq_ℤ (compare_text a b) (pos 0) ≡ text_eq a b
unfolding compare_text
compare_text-eq [] [] = refl
compare_text-eq [] (y ∷ b) = refl
compare_text-eq (x ∷ a) [] = refl
compare_text-eq (x ∷ a) (y ∷ b) = ground (arith, compare_text-eq a b)

not-not : (b : Bool) → b ≡ not (not b)
not-not true = refl
not-not false = refl

negated-bind :
    (m : Exec ℤ) (p q : ℤ → Bool)
    → ((c : ℤ) → p c ≡ not (q c))
    → (m >>= λ c. ok (p c)) ≡ negated (m >>= λ c. ok (q c))
negated-bind (ok c) p q h = ap ok (h c)
negated-bind (err e) p q h = refl
negated-bind (fault u) p q h = refl

module _ (d : Double) where
  -- On every two values the comparisons of evalWhere are complements of each other: <> of =, >=
  -- of <, > of <= and IS NOT of IS, with the same errors.
  pub where_complements :
      (l r : Value)
      → (compare_where d not_equal l r ≡ negated (compare_where d equal l r))
        × (compare_where d greater_than_or_equal l r ≡ negated (compare_where d less_than l r))
        × (compare_where d greater_than l r ≡ negated (compare_where d less_than_or_equal l r))
        × (compare_where d is_not l r ≡ negated (compare_where d is l r))
  unfolding compare_where
  where_complements l r = (
    ground arith,
    negated-bind (compare_values d l r) _ _ (λ c. refl),
    negated-bind (compare_values d l r) _ _ (λ c. not-not _),
    ground arith,
  )

  -- Where two values, of which the first is an integer or a text, compare, they compare the other
  -- way round with the opposite sign, and the sign is zero exactly where the values are equal.
  pub compare_values-opposite :
      (l r : Value) {c : ℤ}
      → IsOrderedValue l
      → compare_values d l r ≡ ok c
      → (compare_values d r l ≡ ok (opposite c)) × (value_eq d l r ≡ eq_ℤ c (pos 0))
  unfolding compare_values value_eq opposite
  compare_values-opposite (int (pos a)) (int (pos b)) o h = ground arith
  compare_values-opposite (int (pos a)) (int (negsuc b)) o h = ground arith
  compare_values-opposite (int (negsuc a)) (int (pos b)) o h = ground arith
  compare_values-opposite (int (negsuc a)) (int (negsuc b)) o h = ground arith
  compare_values-opposite (text a) (text b) o h =
      ground (arith, compare_text-opposite a b, compare_text-eq a b)
  compare_values-opposite l r o h = ground arith
