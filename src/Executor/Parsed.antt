-- ===== src/Executor/Parsed.antt =====
-- What parseExpression of src/parser/parser.cpp gives to evalExpr and evalWhere.
use microsql.Base.{ℕ, ◌<◌, ◌≡◌, Option, some, List, length, get_elem?, Text}
use mathlib.Core.Path.{subst}
use microsql.Ast.Expression.{Expression}
use microsql.Ast.Ordered.{get_elem?-lt}
use microsql.Storage.Row.{Row}
use microsql.Parser.State.{Parser, Run, done}
use microsql.Parser.Expressions.{parse_expression}
use microsql.Parser.Later.{pool, IsReady, Later, Good, good_some, good_none, good_crash, remaining}
use microsql.Parser.Ordered.{parse_expression-Good}
use microsql.Executor.Values.{Double}
use microsql.Executor.Eval.{eval_expr, eval_where}
use microsql.Executor.Eval.Tree.{Tree, Reads, eval_tree, where_tree}
use microsql.Executor.Eval.Total.{evaluation_total}

-- What holds of a run that gives an index.
abbrev Indexed : Parser → Run (Option ℕ) → Type 0
Indexed p (done (some i) q) = Later p q × (i < length (pool q))
Indexed p _ = Unit {0}

Good-Indexed :
    {stof : Text → Option ℕ} (p : Parser) {r : Run (Option ℕ)} → Good stof p r → Indexed p r
Good-Indexed p (good_none l) = tt
Good-Indexed p (good_some l h) = (l, h)
Good-Indexed p (good_crash l h) = tt

-- From a parser whose expressions are in order and whose tokens end in the end token, with more
-- fuel than tokens are left, an index that parseExpression returns is one of an expression that
-- stands for a tree, and on every row evalExpr and evalWhere with the number of expressions as
-- fuel give that tree's value and condition.
pub parse_expression-eval :
    (d : Double) (row : Row) (columns : List Text) (stof : Text → Option ℕ) (fuel : ℕ)
    (p q : Parser) (i : ℕ)
    → IsReady p
    → remaining p < fuel
    → parse_expression stof fuel p ≡ done (some i) q
    → (e : Expression) × (get_elem? (pool q) i ≡ some e)
      × (t : Tree) × Reads (pool q) e t
      × (eval_expr d (pool q) row columns (length (pool q)) e ≡ eval_tree d row columns t)
      × (eval_where d (pool q) row columns (length (pool q)) e ≡ where_tree d row columns t)
parse_expression-eval d row columns stof fuel p q i r h run =
    let (l, inside) =
      subst (Indexed p) run (Good-Indexed p (parse_expression-Good stof fuel p r h)) in
    let (e, at) = get_elem?-lt (pool q) i inside in
    let (t, reads, evaluates, _, _) =
      evaluation_total d row columns (pool q) i e l.ready.ordered at in
    let (a, b) = evaluates (length (pool q)) inside in (e, at, t, reads, a, b)
