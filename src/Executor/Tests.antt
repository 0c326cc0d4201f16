-- ===== src/Executor/Tests.antt =====
-- Runs of the evaluators, and their theorems at a concrete table row.
use microsql.Base.{
  ℕ, ◌<◌, ◌≡◌, refl, ◌≢◌, true, Option, none, some, List, [], ◌∷◌, arith, length, get_elem?,
  out_of_fuel, ok, err, fault, Text, codes,
}
use microsql.Base.Int
use microsql.Base.Number.{stoi}
use microsql.Base.Int.{ℤ, pos, negsuc, eq_ℤ}
use microsql.Ast.Statement.{Statement, StatementKind}
use microsql.Storage.TableFile.{Disk, num_pages, lookup}
use microsql.Catalog.{TableSchema, Tables, find_table, catalog_text}
use microsql.Executor.Error
use microsql.Catalog.Tables.{IsUnique}
use microsql.Executor.Names.{execute-IsUnique}
use microsql.Executor.Statements.{execute, Context, table_path, table_schema, exec_create_table}
use microsql.Executor.Create.{opened_file, exec_create_table_duplicate, exec_create_table_fresh}
use microsql.Ast.Expression.{BinaryOperator, Expression, literal_int, column_ref, binary}
use microsql.Ast.Ordered.{IsOrdered, IsOrdered-append}
use microsql.Lexer.Token
use microsql.Lexer.Token.{Token, type_eq}
use microsql.Lexer.Scan.{token}
use microsql.Storage.Row.{Row, int}
use microsql.Parser.State.{Parser, done, token_at}
use microsql.Parser.Expressions.{parse_expression}
use microsql.Parser.Tables.{start, blank_statement}
use microsql.Parser.Later.{pool, IsReady, Good}
use microsql.Parser.Ordered.{parse_expression-Good}
use microsql.Executor.Parsed.{parse_expression-eval}
use microsql.Executor.Whole.{whole}
use microsql.Executor.Values.{compare_values, apply_arithmetic, checked}
use microsql.Executor.Eval.{
  eval_expr, eval_where, compare_where, expression_at, column_value, index_of, eval_binary,
}
use microsql.Executor.Eval.Tree.{Tree, Reads, eval_tree, where_tree}
use microsql.Executor.Eval.Total.{evaluation_total}
use microsql.Executor.Eval.Where.{where_complements, negated}

abbrev columns : List Text
columns = codes "id" ∷ codes "age" ∷ []

abbrev row : Row
row = int (pos 3) ∷ int (pos 20) ∷ []

-- age + 1 > 18
abbrev condition : List Expression
condition =
    column_ref (codes "age") []
    ∷ literal_int (pos 1)
    ∷ binary BinaryOperator.add 0 1
    ∷ literal_int (pos 18)
    ∷ binary BinaryOperator.greater_than 2 3
    ∷ []

condition-IsOrdered : IsOrdered condition
condition-IsOrdered =
    IsOrdered-append _ (binary BinaryOperator.greater_than 2 3)
      (IsOrdered-append _ (literal_int (pos 18))
        (IsOrdered-append _ (binary BinaryOperator.add 0 1)
          (IsOrdered-append _ (literal_int (pos 1))
            (IsOrdered-append [] (column_ref (codes "age") []) (record { below = λ i e at. cc }) tt)
            tt)
          (omega arith, omega arith))
        tt)
      (omega arith, omega arith)

eval_where_run :
    eval_where whole condition row columns 5 (binary BinaryOperator.greater_than 2 3) ≡ ok true
unfolding eval_where expression_at eval_expr column_value index_of eval_binary apply_arithmetic
    Int.◌+ℤ◌ compare_where compare_values checked
eval_where_run = refl

evaluation_total_example :
    (t : Tree) × Reads condition (binary BinaryOperator.greater_than 2 3) t
    × ((f : ℕ)
        → 4 < f
        → (eval_expr whole condition row columns f (binary BinaryOperator.greater_than 2 3)
            ≡ eval_tree whole row columns t)
          × (eval_where whole condition row columns f (binary BinaryOperator.greater_than 2 3)
              ≡ where_tree whole row columns t))
    × (eval_tree whole row columns t ≢ fault out_of_fuel)
    × (where_tree whole row columns t ≢ fault out_of_fuel)
evaluation_total_example =
    evaluation_total whole row columns condition 4 (binary BinaryOperator.greater_than 2 3)
      condition-IsOrdered refl

where_complements_example :
    (compare_where whole BinaryOperator.not_equal (int (pos 1)) (int (pos 2))
      ≡ negated (compare_where whole BinaryOperator.equal (int (pos 1)) (int (pos 2))))
    × (compare_where whole BinaryOperator.greater_than_or_equal (int (pos 1)) (int (pos 2))
        ≡ negated (compare_where whole BinaryOperator.less_than (int (pos 1)) (int (pos 2))))
    × (compare_where whole BinaryOperator.greater_than (int (pos 1)) (int (pos 2))
        ≡ negated
            (compare_where whole BinaryOperator.less_than_or_equal (int (pos 1)) (int (pos 2))))
    × (compare_where whole BinaryOperator.is_not (int (pos 1)) (int (pos 2))
        ≡ negated (compare_where whole BinaryOperator.is (int (pos 1)) (int (pos 2))))
where_complements_example = where_complements whole (int (pos 1)) (int (pos 2))

-- The tokens of `age + 1 > 18`.
abbrev tokens : List Token
tokens =
    token Token.identifier (codes "age") 1
    ∷ token Token.plus (codes "+") 1
    ∷ token Token.integer_literal (codes "1") 1
    ∷ token Token.greater_than (codes ">") 1
    ∷ token Token.integer_literal (codes "18") 1
    ∷ token Token.end_of_file [] 1
    ∷ []

abbrev parser : Parser
parser = start (pos 0) tokens

abbrev no_float : Text → Option ℕ
no_float s = none

parser-IsReady : IsReady parser
parser-IsReady = record { ordered = record { below = λ i e at. cc }; ends = refl }

parse_expression-Good_example : Good no_float parser (parse_expression no_float 7 parser)
parse_expression-Good_example = parse_expression-Good no_float 7 parser parser-IsReady (omega arith)

abbrev parsed : Parser
parsed = record parser { position = 5; result = record parser.result { expressions = condition } }

parse_expression_run : parse_expression no_float 7 parser ≡ done (some 4) parsed
unfolding parse_expression type_eq token_at stoi
parse_expression_run = refl

parse_expression-eval_example :
    (e : Expression) × (get_elem? (pool parsed) 4 ≡ some e)
    × (t : Tree) × Reads (pool parsed) e t
    × (eval_expr whole (pool parsed) row columns (length (pool parsed)) e
        ≡ eval_tree whole row columns t)
    × (eval_where whole (pool parsed) row columns (length (pool parsed)) e
        ≡ where_tree whole row columns t)
parse_expression-eval_example =
    parse_expression-eval whole row columns no_float 7 parser parsed 4 parser-IsReady (omega arith)
      parse_expression_run

-- CREATE TABLE of a name that is taken, and of one that is free.
abbrev create_users : Statement
create_users = record blank_statement {
  kind = StatementKind.create_table;
  table_name = codes "users";
}

abbrev users : TableSchema
users = record { table_name = codes "users"; columns = []; file_path = codes "users.ms" }

abbrev context : Tables → Context
context tables = record {
  tables = tables;
  open_files = [];
  disk = record { files = []; catalog = none; writable = true };
}

find_users : find_table (users ∷ []) (codes "users") ≡ some users
unfolding find_table
find_users = refl

exec_create_table_duplicate_example :
    (disk' : Disk) × (exec_create_table create_users (context (users ∷ []))
      ≡ (record (context (users ∷ [])) { disk = disk' }, err Error.duplicate_table))
    × ((num_pages (opened_file (table_path (codes "users"))) disk').1 ≡ ok 1)
exec_create_table_duplicate_example =
    exec_create_table_duplicate create_users (context (users ∷ [])) users refl find_users

find_none : find_table [] (codes "users") ≡ none
unfolding find_table
find_none = refl

exec_create_table_fresh_example :
    (ctx' : Context) × (exec_create_table create_users (context []) ≡ (ctx', ok tt))
    × (find_table ctx'.tables (codes "users") ≡ some (table_schema create_users))
    × (lookup (codes "users") ctx'.open_files ≡ some (opened_file (table_path (codes "users"))))
    × ((num_pages (opened_file (table_path (codes "users"))) ctx'.disk).1 ≡ ok 1)
    × (ctx'.disk.catalog ≡ some (catalog_text ctx'.tables))
exec_create_table_fresh_example = exec_create_table_fresh create_users (context []) refl find_none

users-IsUnique : IsUnique (users ∷ [])
unfolding IsUnique find_table
users-IsUnique = (refl, tt)

execute-IsUnique_example : IsUnique (execute whole [] create_users (context (users ∷ []))).0.tables
execute-IsUnique_example =
    execute-IsUnique whole [] create_users (context (users ∷ [])) users-IsUnique
