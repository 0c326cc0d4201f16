-- ===== src/Executor/Eval/Total.antt =====
-- evalExpr and evalWhere end on every list of expressions that the parser makes.
use microsql.Base.{
  ℕ, suc, ◌<◌, ◌≡◌, ◌≢◌, some, List, [], ◌∷◌, arith, get_elem?, out_of_fuel, ok, err, fault, ◌>>=◌,
  Text,
}
use microsql.Ast.Expression.{
  BinaryOperator, add, subtract, multiply, divide, and, or, UnaryOperator, Expression, column_ref,
}
use microsql.Storage.Row.{Value, Row}
use microsql.Executor.Error.{Exec}
use microsql.Executor.Values.{
  Double, apply_arithmetic, flip_sign_value, flip_bool_value, compare_values,
}
use microsql.Executor.Eval.{
  column_value, eval_binary, eval_unary, compare_where, eval_expr, eval_where,
}
use microsql.Ast.Ordered.{IsOrdered}
use microsql.Executor.Eval.Tree.{
  Tree, leaf, node, under, Reads, eval_leaf, eval_tree, where_tree, eval_expr-eval_tree,
  eval_where-where_tree, Reads-below,
}

-- The run came to its end, with a value, an error or a fault of its own.
abbrev pub Finished : {A : Type 0} → Exec A → Type 0
Finished r = r ≢ fault out_of_fuel

pub bind-Finished :
    {A B : Type 0} (m : Exec A) (k : A → Exec B)
    → Finished m
    → ((a : A) → Finished (k a))
    → Finished (m >>= k)
bind-Finished (ok a) k h g = g a
bind-Finished (err e) k h g = λ p. cc
bind-Finished (fault u) k h g = λ p. h (ground arith)

module _ (d : Double) where
  apply_arithmetic-Finished :
      (l r : Value) (op : BinaryOperator) → Finished (apply_arithmetic d l r op)
  unfolding apply_arithmetic
  apply_arithmetic-Finished l r op = λ p. ground arith

  eval_binary-Finished : (op : BinaryOperator) (l r : Value) → Finished (eval_binary d op l r)
  unfolding eval_binary
  eval_binary-Finished add l r = apply_arithmetic-Finished l r add
  eval_binary-Finished subtract l r = apply_arithmetic-Finished l r subtract
  eval_binary-Finished multiply l r = apply_arithmetic-Finished l r multiply
  eval_binary-Finished divide l r = apply_arithmetic-Finished l r divide
  eval_binary-Finished _ l r = λ p. cc

  eval_unary-Finished : (op : UnaryOperator) (v : Value) → Finished (eval_unary d op v)
  unfolding eval_unary flip_sign_value flip_bool_value
  eval_unary-Finished op v = λ p. ground arith

  compare_values-Finished : (l r : Value) → Finished (compare_values d l r)
  unfolding compare_values
  compare_values-Finished l r = λ p. ground arith

  compare_where-Finished : (op : BinaryOperator) (l r : Value) → Finished (compare_where d op l r)
  unfolding compare_where
  compare_where-Finished op l r = λ p. ground (arith, compare_values-Finished l r)

  module _ (row : Row) (columns : List Text) where
    column_value-Finished : (name : Text) → Finished (column_value row columns name)
    unfolding column_value
    column_value-Finished name = λ p. ground arith

    eval_leaf-Finished : (e : Expression) → Finished (eval_leaf d row columns e)
    unfolding eval_leaf
    eval_leaf-Finished (column_ref name []) = column_value-Finished name
    eval_leaf-Finished (column_ref name (_ ∷ _)) = λ p. cc
    eval_leaf-Finished _ = λ p. cc

    eval_tree-Finished : (t : Tree) → Finished (eval_tree d row columns t)
    unfolding eval_tree
    eval_tree-Finished (leaf e) = eval_leaf-Finished e
    eval_tree-Finished (node op l r) =
        bind-Finished (eval_tree d row columns l) _ (eval_tree-Finished l) λ a.
          bind-Finished (eval_tree d row columns r) _ (eval_tree-Finished r)
            λ b. eval_binary-Finished op a b
    eval_tree-Finished (under op t) =
        bind-Finished (eval_tree d row columns t) _ (eval_tree-Finished t)
          λ a. eval_unary-Finished op a

    where_tree-Finished : (t : Tree) → Finished (where_tree d row columns t)
    unfolding where_tree
    where_tree-Finished (leaf e) = λ p. cc
    where_tree-Finished (under op t) = λ p. cc
    where_tree-Finished (node and l r) =
        bind-Finished (where_tree d row columns l) _ (where_tree-Finished l)
          λ a. bind-Finished (where_tree d row columns r) _ (where_tree-Finished r) λ b p. cc
    where_tree-Finished (node or l r) =
        bind-Finished (where_tree d row columns l) _ (where_tree-Finished l)
          λ a. bind-Finished (where_tree d row columns r) _ (where_tree-Finished r) λ b p. cc
    where_tree-Finished (node op l r) =
        bind-Finished (eval_tree d row columns l) _ (eval_tree-Finished l) λ a.
          bind-Finished (eval_tree d row columns r) _ (eval_tree-Finished r)
            λ b. compare_where-Finished op a b

    -- An expression of a list in which operands stand before operators stands for a tree, and
    -- with fuel above its index evalExpr and evalWhere give the tree's value and condition,
    -- neither of which runs out of fuel.
    pub evaluation_total :
        (expressions : List Expression) (i : ℕ) (e : Expression)
        → IsOrdered expressions
        → get_elem? expressions i ≡ some e
        → (t : Tree) × Reads expressions e t
          × ((f : ℕ)
              → i < f
              → (eval_expr d expressions row columns f e ≡ eval_tree d row columns t)
                × (eval_where d expressions row columns f e ≡ where_tree d row columns t))
          × (eval_tree d row columns t ≢ fault out_of_fuel)
          × (where_tree d row columns t ≢ fault out_of_fuel)
    evaluation_total expressions i e ordered at =
        let (t, reads, low) = Reads-below expressions ordered (suc i) i e (omega arith) at in
        (
          t,
          reads,
          λ f h. (
            eval_expr-eval_tree d expressions row columns f reads (omega arith),
            eval_where-where_tree d expressions row columns f reads (omega arith),
          ),
          eval_tree-Finished t,
          where_tree-Finished t,
        )
