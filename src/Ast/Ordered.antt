-- ===== src/Ast/Ordered.antt =====
-- The order of the expressions that src/parser/parser.cpp pushes: an operator after its operands.
use microsql.Base.{
  ℕ, zero, suc, ◌≤◌, ◌<◌, ◌≡◌, refl, sym, ◌∙◌, ◌⊎◌, inl, inr, some, List, [], ◌∷◌, ◌++◌, arith, ltb,
  ltb→lt, ltb_false→le, Bool-cases, length, get_elem?, length-append, get_elem?-append_left,
}
use mathlib.Core.Path.{subst}
use microsql.Ast.Expression.{Expression, binary, unary}

-- What the expression at an index may refer to: earlier expressions.
abbrev pub Below : ℕ → Expression → Type 0
Below i (binary op l r) = (l < i) × (r < i)
Below i (unary op o) = o < i
Below i _ = Unit {0}

-- Children stand before their parents.
pub record IsOrdered (expressions : List Expression) : Type 0 where
  pub below : (i : ℕ) (e : Expression) → get_elem? expressions i ≡ some e → Below i e

pub get_elem?-lt {ℓ} :
    {A : Type ℓ} (xs : List A) (i : ℕ) → i < length xs → (a : A) × (get_elem? xs i ≡ some a)
get_elem?-lt [] i h = absurd (omega arith)
get_elem?-lt (x ∷ xs) zero h = (x, refl)
get_elem?-lt (x ∷ xs) (suc i) h = get_elem?-lt xs i (omega arith)

pub get_elem?_inside {ℓ} :
    {A : Type ℓ} (xs : List A) (i : ℕ) {a : A} → get_elem? xs i ≡ some a → i < length xs
get_elem?_inside [] i h = cc
get_elem?_inside (x ∷ xs) zero h = omega arith
get_elem?_inside (x ∷ xs) (suc i) h = omega (arith, get_elem?_inside xs i h)

pub get_elem?_last {ℓ} :
    {A : Type ℓ} (xs : List A) (x y : A) → get_elem? (xs ++ x ∷ []) (length xs) ≡ some y → x ≡ y
get_elem?_last [] x y h = cc
get_elem?_last (z ∷ xs) x y h = get_elem?_last xs x y h

split : (i n : ℕ) → (i < n) ⊎ (n ≤ i)
split i n = elim (Bool-cases (ltb i n)) [
  | inl h ↦ inl (ltb→lt i n h)
  | inr h ↦ inr (ltb_false→le i n h)
]

-- A push keeps the order where the new expression refers to earlier ones.
pub IsOrdered-append :
    (es : List Expression) (e : Expression)
    → IsOrdered es
    → Below (length es) e
    → IsOrdered (es ++ e ∷ [])
IsOrdered-append es e o b = record { below = new }
  where
    new : (i : ℕ) (x : Expression) → get_elem? (es ++ e ∷ []) i ≡ some x → Below i x
    new i x at = elim (split i (length es)) [
      | inl h ↦ o.below i x (sym (get_elem?-append_left es (e ∷ []) i h) ∙ at)
      | inr h ↦
          let inside = get_elem?_inside (es ++ e ∷ []) i at in
          let size = length-append es (e ∷ []) in
          let here : i ≡ length es = omega (arith, inside, size) in
          subst (λ j. Below j x) (sym here)
            (subst (Below (length es))
              (get_elem?_last es e x (subst (λ j. get_elem? (es ++ e ∷ []) j ≡ some x) here at)) b)
    ]
