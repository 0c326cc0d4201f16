-- ===== src/Executor/Names.antt =====
-- The names of the tables under execute of src/executor/executor.cpp.
use microsql.Base.{sym, inl, inr, List, ◌++◌, Option-cases, Outcome, ok, err, fault, codes}
use mathlib.Core.Path.{subst}
use microsql.Ast.Statement.{Statement, StatementKind, ColumnDefinition}
use microsql.Ast.Expression.{Expression}
use microsql.Storage.TableFile.{Disk, TableFile}
use microsql.Catalog.{CatalogError, Tables, find_table, add_table, drop_table}
use microsql.Catalog.Tables.{IsUnique, add_table-IsUnique, drop_table-IsUnique}
use microsql.Executor.Error.{Exec}
use microsql.Executor.Values.{Double}
use microsql.Executor.Session.{Io}
use microsql.Executor.Scan.{select_body}
use microsql.Executor.Insert.{insert_body}
use microsql.Executor.Change.{delete_body, update_body}
use microsql.Executor.Statements.{
  Context, Step, Reply, on_table, file_for_table, table_path, table_schema, keep_table,
  register_table, exec_create_table, forget_table, exec_drop_table, reply, done, selected,
  row_count, execute_kind, execute,
}
use microsql.Executor.Saved.{KeepsCatalog}
use microsql.Executor.Saved.Bodies.{select_body-KeepsCatalog, insert_body-KeepsCatalog}
use microsql.Executor.Saved.Changes.{delete_body-KeepsCatalog, update_body-KeepsCatalog}
use microsql.Executor.Saved.Table.{on_table-Follows}

reply-tables :
    {A : Type 0} (f : A → Reply) (r : Step A) → IsUnique r.0.tables → IsUnique (reply f r).0.tables
reply-tables f (ctx, ok a) u = u
reply-tables f (ctx, err e) u = u
reply-tables f (ctx, fault x) u = u

module _ (s : Statement) (ctx : Context) (u : IsUnique ctx.tables) where
  keep_table-IsUnique :
      (file : TableFile) (disk : Disk) (r : Tables × Outcome CatalogError (Unit {0}))
      → IsUnique r.0
      → IsUnique (keep_table s.table_name ctx (file, disk) r).0.tables
  unfolding keep_table
  keep_table-IsUnique file disk (tables, err e) v = u
  keep_table-IsUnique file disk (tables, fault x) v = u
  keep_table-IsUnique file disk (tables, ok x) v = v

  register_table-IsUnique :
      (r : (TableFile × Disk) × Exec (Unit {0})) → IsUnique (register_table s ctx r).0.tables
  unfolding register_table
  register_table-IsUnique ((file, disk), err e) = u
  register_table-IsUnique ((file, disk), fault x) = u
  register_table-IsUnique ((file, disk), ok x) =
      keep_table-IsUnique file disk (add_table ctx.tables (table_schema s))
        (add_table-IsUnique ctx.tables (table_schema s) u)

  forget_table-IsUnique :
      (r : (Tables × Disk) × Outcome CatalogError (Unit {0}))
      → IsUnique r.0.0
      → IsUnique (forget_table s.table_name ctx r).0.tables
  unfolding forget_table
  forget_table-IsUnique ((tables, disk), err e) v = v
  forget_table-IsUnique ((tables, disk), fault x) v = v
  forget_table-IsUnique ((tables, disk), ok x) v = v

  exec_drop_table-IsUnique : IsUnique (exec_drop_table s ctx).0.tables
  unfolding exec_drop_table
  exec_drop_table-IsUnique = elim (Option-cases (find_table ctx.tables s.table_name)) [
    | inl e ↦ rw (e, exec_drop_table) u
    | inr (t, e) ↦
        rw (e, exec_drop_table)
          (forget_table-IsUnique (drop_table ctx.tables s.table_name ctx.disk)
            (drop_table-IsUnique ctx.tables s.table_name ctx.disk u))
  ]

  answer-IsUnique :
      {A : Type 0} (f : A → Reply) (body : List ColumnDefinition → Io A)
      → ((columns : List ColumnDefinition) → KeepsCatalog (body columns))
      → IsUnique (reply f (on_table s.table_name body ctx)).0.tables
  answer-IsUnique f body keeps =
      reply-tables f (on_table s.table_name body ctx)
        (subst IsUnique (sym (on_table-Follows s.table_name body keeps ctx).tables) u)

  module _ (d : Double) (expressions : List Expression) where
    execute_kind-IsUnique :
        (kind : StatementKind) → IsUnique (execute_kind d expressions s ctx kind).0.tables
    unfolding execute_kind exec_create_table
    execute_kind-IsUnique StatementKind.select =
        answer-IsUnique selected (select_body d expressions s)
          (select_body-KeepsCatalog d expressions s)
    execute_kind-IsUnique StatementKind.insert =
        answer-IsUnique (λ _. done (codes "1 row inserted")) (insert_body d expressions s)
          (insert_body-KeepsCatalog d expressions s)
    execute_kind-IsUnique StatementKind.delete =
        answer-IsUnique (λ n. done (row_count n ++ codes " deleted")) (delete_body d expressions s)
          (delete_body-KeepsCatalog d expressions s)
    execute_kind-IsUnique StatementKind.update =
        answer-IsUnique (λ n. done (row_count n ++ codes " updated")) (update_body d expressions s)
          (update_body-KeepsCatalog d expressions s)
    execute_kind-IsUnique StatementKind.create_table =
        reply-tables (λ _. done (codes "Table created")) (exec_create_table s ctx)
          (register_table-IsUnique (file_for_table (table_path s.table_name) ctx.disk))
    execute_kind-IsUnique StatementKind.drop_table =
        reply-tables (λ _. done (codes "Table dropped")) (exec_drop_table s ctx)
          exec_drop_table-IsUnique
    execute_kind-IsUnique _ = u

-- Where no two tables have one name, no two have one name after execute, whatever the statement
-- and its outcome.
pub execute-IsUnique :
    (d : Double) (expressions : List Expression) (s : Statement) (ctx : Context)
    → IsUnique ctx.tables
    → IsUnique (execute d expressions s ctx).0.tables
unfolding execute
execute-IsUnique d expressions s ctx u = execute_kind-IsUnique s ctx u d expressions s.kind
