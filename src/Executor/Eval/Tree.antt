-- ===== src/Executor/Eval/Tree.antt =====
-- The meaning of an expression as a tree, with no indices and no fuel, and the evaluators on indices.
use microsql.Base.{
  ℕ, zero, suc, ◌≤◌, ◌<◌, ◌≡◌, refl, Bool, true, ◌&&◌, ◌||◌, some, List, [], ◌∷◌, arith, get_elem?,
  ok, err, ◌>>=◌, Text,
}
use Prim.Native.Nat.{max}
use microsql.Base.Int.{ℤ}
use microsql.Ast.Expression.{
  BinaryOperator, and, or, UnaryOperator, Expression, literal_int, literal_float, literal_text,
  literal_bool, literal_null, column_ref, binary, unary, star,
}
use microsql.Ast.Ordered.{IsOrdered, get_elem?-lt, get_elem?_inside}
use microsql.Storage.Row.{Value, Row, int, float, text, bool, null}
use microsql.Executor.Error.{Exec, not_implemented, invalid_expression}
use microsql.Executor.Values.{Double}
use microsql.Executor.Eval.{
  column_value, expression_at, eval_binary, eval_unary, compare_where, eval_expr, eval_where,
}

pub data Tree : Type 0 where
  leaf : Expression → Tree
  node : BinaryOperator → Tree → Tree → Tree
  under : UnaryOperator → Tree → Tree

unfoldable pub depth : Tree → ℕ
depth (leaf e) = 0
depth (node op l r) = suc (max (depth l) (depth r))
depth (under op t) = suc (depth t)

-- Each index of the list leads to the tree's parts.
pub data Reads (expressions : List Expression) : Expression → Tree → Type 0 where
  reads_int : {v : ℤ} → Reads expressions (literal_int v) (leaf (literal_int v))
  reads_float : {v : ℕ} → Reads expressions (literal_float v) (leaf (literal_float v))
  reads_text : {s : Text} → Reads expressions (literal_text s) (leaf (literal_text s))
  reads_bool : {b : Bool} → Reads expressions (literal_bool b) (leaf (literal_bool b))
  reads_null : Reads expressions literal_null (leaf literal_null)
  reads_column : {c p : Text} → Reads expressions (column_ref c p) (leaf (column_ref c p))
  reads_star : Reads expressions star (leaf star)
  reads_binary :
      {op : BinaryOperator} {l r : ℕ} {le re : Expression} {lt rt : Tree}
      → get_elem? expressions l ≡ some le
      → Reads expressions le lt
      → get_elem? expressions r ≡ some re
      → Reads expressions re rt
      → Reads expressions (binary op l r) (node op lt rt)
  reads_unary :
      {op : UnaryOperator} {o : ℕ} {e : Expression} {t : Tree}
      → get_elem? expressions o ≡ some e
      → Reads expressions e t
      → Reads expressions (unary op o) (under op t)

module _ (d : Double) (row : Row) (columns : List Text) where
  unfoldable pub eval_leaf : Expression → Exec Value
  eval_leaf (literal_bool b) = ok (bool b)
  eval_leaf (literal_int v) = ok (int v)
  eval_leaf (literal_float v) = ok (float v)
  eval_leaf (literal_text s) = ok (text s)
  eval_leaf literal_null = ok null
  eval_leaf (column_ref name []) = column_value row columns name
  eval_leaf (column_ref name (_ ∷ _)) = err not_implemented
  eval_leaf _ = err invalid_expression

  -- Left before right; an error or a fault ends the evaluation.
  unfoldable pub eval_tree : Tree → Exec Value
  eval_tree (leaf e) = eval_leaf e
  eval_tree (node op l r) = do left ← eval_tree l; right ← eval_tree r; eval_binary d op left right
  eval_tree (under op t) = do v ← eval_tree t; eval_unary d op v

  -- A condition: AND and OR of conditions, comparisons of values, and all else holds.
  unfoldable pub where_tree : Tree → Exec Bool
  where_tree (leaf e) = ok true
  where_tree (under op t) = ok true
  where_tree (node and l r) = do left ← where_tree l; right ← where_tree r; ok (left && right)
  where_tree (node or l r) = do left ← where_tree l; right ← where_tree r; ok (left || right)
  where_tree (node op l r) = do
    left ← eval_tree l
    right ← eval_tree r
    compare_where d op left right

module _ (d : Double) (expressions : List Expression) (row : Row) (columns : List Text) where
  expression_at_lem :
      {e : Expression} (i : ℕ)
      → get_elem? expressions i ≡ some e
      → expression_at expressions i ≡ ok e
  unfolding expression_at
  expression_at_lem i h = rw h

  -- With fuel above its depth the evaluator gives a tree's meaning.
  pub eval_expr-eval_tree :
      (f : ℕ) {e : Expression} {t : Tree}
      → Reads expressions e t
      → depth t < f
      → eval_expr d expressions row columns f e ≡ eval_tree d row columns t
  unfolding eval_expr eval_tree eval_leaf depth
  eval_expr-eval_tree zero r h = absurd (omega arith)
  eval_expr-eval_tree (suc f) reads_int h = refl
  eval_expr-eval_tree (suc f) reads_float h = refl
  eval_expr-eval_tree (suc f) reads_text h = refl
  eval_expr-eval_tree (suc f) reads_bool h = refl
  eval_expr-eval_tree (suc f) reads_null h = refl
  eval_expr-eval_tree (suc f) (reads_column {p = []}) h = refl
  eval_expr-eval_tree (suc f) (reads_column {p = x ∷ p}) h = refl
  eval_expr-eval_tree (suc f) reads_star h = refl
  eval_expr-eval_tree (suc f) (reads_binary {l} {r} le tl re tr) h = rw (
    expression_at_lem l le,
    expression_at_lem r re,
    eval_expr-eval_tree f tl (omega arith),
    eval_expr-eval_tree f tr (omega arith),
  )
  eval_expr-eval_tree (suc f) (reads_unary {o} e t) h =
      rw (expression_at_lem o e, eval_expr-eval_tree f t (omega arith))

  -- The same for conditions.
  pub eval_where-where_tree :
      (f : ℕ) {e : Expression} {t : Tree}
      → Reads expressions e t
      → depth t < f
      → eval_where d expressions row columns f e ≡ where_tree d row columns t
  unfolding eval_where where_tree depth
  eval_where-where_tree zero r h = absurd (omega arith)
  eval_where-where_tree (suc f) reads_int h = refl
  eval_where-where_tree (suc f) reads_float h = refl
  eval_where-where_tree (suc f) reads_text h = refl
  eval_where-where_tree (suc f) reads_bool h = refl
  eval_where-where_tree (suc f) reads_null h = refl
  eval_where-where_tree (suc f) reads_column h = refl
  eval_where-where_tree (suc f) reads_star h = refl
  eval_where-where_tree (suc f) (reads_unary e t) h = refl
  eval_where-where_tree (suc f) (reads_binary {op = and} {l} {r} le tl re tr) h = rw (
    expression_at_lem l le,
    expression_at_lem r re,
    eval_where-where_tree f tl (omega arith),
    eval_where-where_tree f tr (omega arith),
  )
  eval_where-where_tree (suc f) (reads_binary {op = or} {l} {r} le tl re tr) h = rw (
    expression_at_lem l le,
    expression_at_lem r re,
    eval_where-where_tree f tl (omega arith),
    eval_where-where_tree f tr (omega arith),
  )
  eval_where-where_tree (suc f) (reads_binary {op} {l} {r} le tl re tr) h = rw (
    expression_at_lem l le,
    expression_at_lem r re,
    eval_expr-eval_tree f tl (omega arith),
    eval_expr-eval_tree f tr (omega arith),
  )

module _ (expressions : List Expression) (ordered : IsOrdered expressions) where
  -- In an ordered list every index leads to a tree, no deeper than the index.
  pub Reads-below :
      (n i : ℕ) (e : Expression)
      → i < n
      → get_elem? expressions i ≡ some e
      → (t : Tree) × Reads expressions e t × (depth t ≤ i)
  unfolding depth
  Reads-below zero i e h at = absurd (omega arith)
  Reads-below (suc n) i (binary op l r) h at =
      let (hl, hr) = ordered.below i (binary op l r) at in
      let size = get_elem?_inside expressions i at in
      let (le, al) = get_elem?-lt expressions l (omega arith) in
      let (re, ar) = get_elem?-lt expressions r (omega arith) in
      let (lt, rl, dl) = Reads-below n l le (omega arith) al in
      let (rt, rr, dr) = Reads-below n r re (omega arith) ar in
      (node op lt rt, reads_binary al rl ar rr, omega arith)
  Reads-below (suc n) i (unary op o) h at =
      let ho = ordered.below i (unary op o) at in
      let size = get_elem?_inside expressions i at in
      let (e, ae) = get_elem?-lt expressions o (omega arith) in
      let (t, rt, dt) = Reads-below n o e (omega arith) ae in
      (under op t, reads_unary ae rt, omega arith)
  Reads-below (suc n) i (literal_int v) h at = (leaf (literal_int v), reads_int, omega arith)
  Reads-below (suc n) i (literal_float v) h at = (leaf (literal_float v), reads_float, omega arith)
  Reads-below (suc n) i (literal_text v) h at = (leaf (literal_text v), reads_text, omega arith)
  Reads-below (suc n) i (literal_bool v) h at = (leaf (literal_bool v), reads_bool, omega arith)
  Reads-below (suc n) i literal_null h at = (leaf literal_null, reads_null, omega arith)
  Reads-below (suc n) i (column_ref c p) h at = (leaf (column_ref c p), reads_column, omega arith)
  Reads-below (suc n) i star h at = (leaf star, reads_star, omega arith)
