-- ===== src/Executor/Statements.antt =====
-- ExecutionContext, resolveTable, the statements and execute of src/executor/executor.cpp.
use microsql.Base.{
  Option, ℕ, Bool, true, false, none, some, List, [], ◌++◌, ◌==◌, if◌then◌else◌, length, Fault,
  Outcome, ok, err, fault, Text, codes, to_string,
}
use microsql.Ast.Statement.{Statement, StatementKind, ColumnDefinition}
use microsql.Ast.Expression.{Expression}
use microsql.Storage.Row.{Row}
use microsql.Storage.TableFile.{
  FileResult, Disk, TableFile, create, open_file, allocate_page, closed_file, lookup, insert,
  remove,
}
use microsql.Executor.Slots.{internal}
use microsql.Executor.Error.{
  ExecError, Exec, table_schema_not_found, not_implemented, internal_error, exec_error_str,
}
use microsql.Executor.Error
use microsql.Executor.Values.{Double}
use microsql.Executor.Session.{Io}
use microsql.Executor.Scan.{select_body}
use microsql.Executor.Insert.{insert_body}
use microsql.Executor.Change.{delete_body, update_body}
use microsql.Catalog.{CatalogError, TableSchema, Tables, find_table, add_table, drop_table, save}

-- ExecutionContext, with the disk behind it.
pub record Context : Type 0 where
  pub tables : Tables
  pub open_files : List (Text × TableFile)
  pub disk : Disk

abbrev pub Step : Type 0 → Type 0
Step A = Context × Exec A

-- A file that had to be opened is kept; one that does not open is an internal error.
abbrev pub keep_open :
    Text → TableSchema → Context → FileResult (Unit {0}) → Step (TableSchema × TableFile)
keep_open name schema ctx ((file, disk), ok _) =
    (record ctx { open_files = insert name file ctx.open_files }, ok (schema, file))
keep_open name schema ctx ((file, disk), err e) = (ctx, err internal_error)
keep_open name schema ctx ((file, disk), fault u) = (ctx, fault u)

abbrev pub find_open :
    Text → TableSchema → Context → Option TableFile → Step (TableSchema × TableFile)
find_open name schema ctx (some file) = (ctx, ok (schema, file))
find_open name schema ctx none =
    keep_open name schema ctx (open_file (closed_file []) schema.file_path ctx.disk)

abbrev pub find_schema : Text → Context → Option TableSchema → Step (TableSchema × TableFile)
find_schema name ctx none = (ctx, err table_schema_not_found)
find_schema name ctx (some schema) = find_open name schema ctx (lookup name ctx.open_files)

-- The schema and the open file of a table; a file is opened when it is first needed.
unfoldable pub resolve_table : Text → Context → Step (TableSchema × TableFile)
unfolding find_table lookup insert open_file
resolve_table name ctx = find_schema name ctx (find_table ctx.tables name)

-- A statement's body on the table's file: its stream and the disk are the context's afterwards.
module _ {A : Type 0} (name : Text) (body : List ColumnDefinition → Io A) where
  abbrev pub with_table : Step (TableSchema × TableFile) → Step A
  with_table (ctx, err e) = (ctx, err e)
  with_table (ctx, fault u) = (ctx, fault u)
  with_table (ctx, ok (schema, file)) =
      let (s, result) = body schema.columns (record { file = file; disk = ctx.disk }) in
      (record ctx { open_files = insert name s.file ctx.open_files; disk = s.disk }, result)

  unfoldable pub on_table : Context → Step A
  unfolding resolve_table
  on_table ctx = with_table (resolve_table name ctx)

-- The next operation on a table file, where the one before succeeded.
module _ {A B : Type 0} where
  abbrev pub file_then : FileResult A → (TableFile → Disk → FileResult B) → FileResult B
  file_then ((t, disk), ok a) k = k t disk
  file_then ((t, disk), err e) k = ((t, disk), err e)
  file_then ((t, disk), fault u) k = ((t, disk), fault u)

abbrev pub file_step : FileResult (Unit {0}) → (TableFile × Disk) × Exec (Unit {0})
file_step (after, r) = (after, internal r)

-- execCreateTable. The file is made, opened and given page 0 before the catalog is asked.
unfoldable pub file_for_table : Text → Disk → (TableFile × Disk) × Exec (Unit {0})
unfolding create open_file allocate_page
file_for_table path disk = file_step (
    file_then (create (closed_file path) disk) λ t disk.
      file_then (open_file t path disk)
        λ t disk. file_then (allocate_page t disk) λ t disk. ((t, disk), ok tt))

abbrev pub table_path : Text → Text
table_path name = name ++ codes ".ms"

abbrev pub table_schema : Statement → TableSchema
table_schema s = record {
  table_name = s.table_name;
  columns = s.column_definitions;
  file_path = table_path s.table_name;
}

-- What follows `addTable`. The context is the one from before the statement.
unfoldable pub keep_table :
    Text → Context → TableFile × Disk → Tables × Outcome CatalogError (Unit {0}) → Step (Unit {0})
unfolding save insert
keep_table name ctx (file, disk) (tables, err e) =
    (record ctx { disk = disk }, err Error.duplicate_table)
keep_table name ctx (file, disk) (tables, fault u) = (record ctx { disk = disk }, fault u)
keep_table name ctx (file, disk) (tables, ok _) = (
  record { tables = tables; open_files = insert name file ctx.open_files; disk = save tables disk },
  ok tt,
)

-- What follows the making of the file.
unfoldable pub register_table :
    Statement → Context → (TableFile × Disk) × Exec (Unit {0}) → Step (Unit {0})
unfolding keep_table add_table
register_table s ctx ((file, disk), err e) = (record ctx { disk = disk }, err e)
register_table s ctx ((file, disk), fault u) = (record ctx { disk = disk }, fault u)
register_table s ctx ((file, disk), ok _) =
    keep_table s.table_name ctx (file, disk) (add_table ctx.tables (table_schema s))

unfoldable pub exec_create_table : Statement → Context → Step (Unit {0})
unfolding file_for_table register_table
exec_create_table s ctx = register_table s ctx (file_for_table (table_path s.table_name) ctx.disk)

-- What follows `dropTable`: the file is no longer open, and the catalog is saved.
unfoldable pub forget_table :
    Text → Context → (Tables × Disk) × Outcome CatalogError (Unit {0}) → Step (Unit {0})
unfolding save remove
forget_table name ctx ((tables, disk), err e) = (
  record { tables = tables; open_files = remove name ctx.open_files; disk = disk },
  err internal_error,
)
forget_table name ctx ((tables, disk), fault u) =
    (record { tables = tables; open_files = remove name ctx.open_files; disk = disk }, fault u)
forget_table name ctx ((tables, disk), ok _) = (
  record { tables = tables; open_files = remove name ctx.open_files; disk = save tables disk },
  ok tt,
)

unfoldable pub exec_drop_table : Statement → Context → Step (Unit {0})
unfolding find_table drop_table forget_table
exec_drop_table s ctx = elim (find_table ctx.tables s.table_name) [
  | none ↦ (ctx, err table_schema_not_found)
  | some t ↦ forget_table s.table_name ctx (drop_table ctx.tables s.table_name ctx.disk)
]

-- Result
pub record Reply : Type 0 where
  pub success : Bool
  pub message : Text
  pub columns : List Text
  pub rows : List Row

unfoldable pub make_error : ExecError → Reply
make_error e = record { success = false; message = exec_error_str e; columns = []; rows = [] }

-- "1 row", "2 rows"
abbrev pub row_count : ℕ → Text
row_count n = to_string n ++ (codes " row" ++ (if n == 1 then [] else codes "s"))

abbrev pub done : Text → Reply
done message = record { success = true; message = message; columns = []; rows = [] }

-- The reply of a statement: an error is one, and a fault ends the program.
abbrev pub reply : {A : Type 0} → (A → Reply) → Step A → Context × Outcome Fault Reply
reply f (ctx, ok a) = (ctx, ok (f a))
reply f (ctx, err e) = (ctx, ok (make_error e))
reply f (ctx, fault u) = (ctx, fault u)

abbrev pub selected : List Text × List Row → Reply
selected (columns, rows) = record {
  success = true;
  message = row_count (length rows);
  columns = columns;
  rows = rows;
}

-- The switch of execute.
module _ (d : Double) (expressions : List Expression) (s : Statement) (ctx : Context) where
  unfoldable pub execute_kind : StatementKind → Context × Outcome Fault Reply
  unfolding on_table select_body insert_body delete_body update_body exec_create_table
      exec_drop_table make_error
  execute_kind StatementKind.select =
      reply selected (on_table s.table_name (select_body d expressions s) ctx)
  execute_kind StatementKind.insert =
      reply (λ _. done (codes "1 row inserted"))
        (on_table s.table_name (insert_body d expressions s) ctx)
  execute_kind StatementKind.delete =
      reply (λ n. done (row_count n ++ codes " deleted"))
        (on_table s.table_name (delete_body d expressions s) ctx)
  execute_kind StatementKind.update =
      reply (λ n. done (row_count n ++ codes " updated"))
        (on_table s.table_name (update_body d expressions s) ctx)
  execute_kind StatementKind.create_table =
      reply (λ _. done (codes "Table created")) (exec_create_table s ctx)
  execute_kind StatementKind.drop_table =
      reply (λ _. done (codes "Table dropped")) (exec_drop_table s ctx)
  execute_kind StatementKind.create_index = (ctx, ok (make_error not_implemented))
  execute_kind StatementKind.begin = (ctx, ok (make_error not_implemented))
  execute_kind StatementKind.commit = (ctx, ok (make_error not_implemented))
  execute_kind StatementKind.rollback = (ctx, ok (make_error not_implemented))

unfoldable pub execute :
    Double → List Expression → Statement → Context → Context × Outcome Fault Reply
unfolding execute_kind
execute d expressions s ctx = execute_kind d expressions s ctx s.kind
