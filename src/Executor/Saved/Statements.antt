-- ===== src/Executor/Saved/Statements.antt =====
-- The saved catalog and the tables in memory, under execute of src/executor/executor.cpp.
use microsql.Base.{
  ◌≡◌, sym, ◌∙◌, inl, inr, true, some, List, ◌++◌, Option-cases, Outcome, ok, err, fault, Text,
  codes,
}
use mathlib.Core.Path.{subst}
use microsql.Ast.Statement.{Statement, StatementKind, ColumnDefinition}
use microsql.Ast.Expression.{Expression}
use microsql.Storage.TableFile.{
  Disk, TableFile, FileResult, create, open_file, allocate_page, closed_file, remove,
}
use microsql.Catalog.{
  CatalogError, TableSchema, Tables, find_table, add_table, drop_table, erase_table,
}
use microsql.Executor.Error.{Exec}
use microsql.Executor.Values.{Double}
use microsql.Executor.Session.{Io}
use microsql.Executor.Scan.{select_body}
use microsql.Executor.Insert.{insert_body}
use microsql.Executor.Change.{delete_body, update_body}
use microsql.Executor.Statements.{
  Context, Step, Reply, on_table, file_then, file_for_table, table_path, table_schema, keep_table,
  register_table, exec_create_table, forget_table, exec_drop_table, reply, done, selected,
  row_count, execute_kind, execute,
}
use microsql.Executor.Saved.{
  SameCatalog, SameCatalog-refl, SameCatalog-trans, KeepsDisk, KeepsCatalog, create-KeepsDisk,
  open_file-KeepsDisk, allocate_page-KeepsDisk,
}
use microsql.Executor.Saved.Bodies.{select_body-KeepsCatalog, insert_body-KeepsCatalog}
use microsql.Executor.Saved.Changes.{delete_body-KeepsCatalog, update_body-KeepsCatalog}
use microsql.Executor.Saved.Table.{
  IsSavedContext, IsSaved-SameCatalog, save-IsSaved, Follows-IsSaved, on_table-Follows,
}

-- execCreateTable
file_then-KeepsDisk :
    {A B : Type 0} (disk : Disk) (r : FileResult A) (k : TableFile → Disk → FileResult B)
    → KeepsDisk disk r
    → ((t : TableFile) (disk' : Disk) → KeepsDisk disk' (k t disk'))
    → KeepsDisk disk (file_then r k)
file_then-KeepsDisk disk ((t, disk'), ok a) k h g = SameCatalog-trans h (g t disk')
file_then-KeepsDisk disk ((t, disk'), err e) k h g = h
file_then-KeepsDisk disk ((t, disk'), fault u) k h g = h

file_for_table-SameCatalog :
    (path : Text) (disk : Disk) → SameCatalog disk (file_for_table path disk).0.1
unfolding file_for_table
file_for_table-SameCatalog path disk =
    file_then-KeepsDisk disk (create (closed_file path) disk) _
      (create-KeepsDisk (closed_file path) disk)
      λ t disk'.
        file_then-KeepsDisk disk' (open_file t path disk') _ (open_file-KeepsDisk t path disk')
          λ t' disk''.
            file_then-KeepsDisk disk'' (allocate_page t' disk'') _
              (allocate_page-KeepsDisk t' disk'') λ t3 disk3. SameCatalog-refl disk3

drop_table_found :
    (tables : Tables) (name : Text) (disk : Disk) (t : TableSchema)
    → find_table tables name ≡ some t
    → drop_table tables name disk
      ≡ ((erase_table tables name, record disk { files = remove t.file_path disk.files }), ok tt)
unfolding drop_table
drop_table_found tables name disk t h = rw (h, drop_table)

module _ (s : Statement) (ctx : Context) (h : IsSavedContext ctx) where
  keep_table-IsSaved :
      (file : TableFile) (disk : Disk)
      → SameCatalog ctx.disk disk
      → (r : Tables × Outcome CatalogError (Unit {0}))
      → IsSavedContext (keep_table s.table_name ctx (file, disk) r).0
  unfolding keep_table
  keep_table-IsSaved file disk same (tables, err e) = IsSaved-SameCatalog _ _ disk same h
  keep_table-IsSaved file disk same (tables, fault u) = IsSaved-SameCatalog _ _ disk same h
  keep_table-IsSaved file disk same (tables, ok u) =
      save-IsSaved tables disk (same.writable ∙ h.device)

  register_table-IsSaved :
      (r : (TableFile × Disk) × Exec (Unit {0}))
      → SameCatalog ctx.disk r.0.1
      → IsSavedContext (register_table s ctx r).0
  unfolding register_table
  register_table-IsSaved ((file, disk), err e) same = IsSaved-SameCatalog _ _ disk same h
  register_table-IsSaved ((file, disk), fault u) same = IsSaved-SameCatalog _ _ disk same h
  register_table-IsSaved ((file, disk), ok u) same =
      keep_table-IsSaved file disk same (add_table ctx.tables (table_schema s))

  exec_create_table-IsSaved : IsSavedContext (exec_create_table s ctx).0
  unfolding exec_create_table
  exec_create_table-IsSaved =
      register_table-IsSaved (file_for_table (table_path s.table_name) ctx.disk)
        (file_for_table-SameCatalog (table_path s.table_name) ctx.disk)

  forget_table-IsSaved :
      (tables : Tables) (disk : Disk)
      → disk.writable ≡ true
      → IsSavedContext (forget_table s.table_name ctx ((tables, disk), ok tt)).0
  unfolding forget_table
  forget_table-IsSaved tables disk w = save-IsSaved tables disk w

  exec_drop_table-IsSaved : IsSavedContext (exec_drop_table s ctx).0
  unfolding exec_drop_table
  exec_drop_table-IsSaved = elim (Option-cases (find_table ctx.tables s.table_name)) [
    | inl e ↦ rw (e, exec_drop_table) h
    | inr (t, e) ↦
        let tables = erase_table ctx.tables s.table_name in
        let disk = record ctx.disk { files = remove t.file_path ctx.disk.files } in
        rw (e, exec_drop_table)
          (subst (λ r. IsSavedContext (forget_table s.table_name ctx r).0)
            (sym (drop_table_found ctx.tables s.table_name ctx.disk t e))
            (forget_table-IsSaved tables disk h.device))
  ]

  on_table-IsSaved :
      {A : Type 0} (body : List ColumnDefinition → Io A)
      → ((columns : List ColumnDefinition) → KeepsCatalog (body columns))
      → IsSavedContext (on_table s.table_name body ctx).0
  on_table-IsSaved body keeps =
      Follows-IsSaved ctx (on_table s.table_name body ctx).0
        (on_table-Follows s.table_name body keeps ctx) h

reply-context :
    {A : Type 0} (f : A → Reply) (r : Step A) → IsSavedContext r.0 → IsSavedContext (reply f r).0
reply-context f (ctx, ok a) h = h
reply-context f (ctx, err e) h = h
reply-context f (ctx, fault u) h = h

module _ (d : Double) (expressions : List Expression) (s : Statement) (ctx : Context)
    (h : IsSavedContext ctx) where
  answer-IsSaved :
      {A : Type 0} (f : A → Reply) (body : List ColumnDefinition → Io A)
      → ((columns : List ColumnDefinition) → KeepsCatalog (body columns))
      → IsSavedContext (reply f (on_table s.table_name body ctx)).0
  answer-IsSaved f body keeps =
      reply-context f (on_table s.table_name body ctx) (on_table-IsSaved s ctx h body keeps)

  execute_kind-IsSaved :
      (kind : StatementKind) → IsSavedContext (execute_kind d expressions s ctx kind).0
  unfolding execute_kind
  execute_kind-IsSaved StatementKind.select =
      answer-IsSaved selected (select_body d expressions s)
        (select_body-KeepsCatalog d expressions s)
  execute_kind-IsSaved StatementKind.insert =
      answer-IsSaved (λ _. done (codes "1 row inserted")) (insert_body d expressions s)
        (insert_body-KeepsCatalog d expressions s)
  execute_kind-IsSaved StatementKind.delete =
      answer-IsSaved (λ n. done (row_count n ++ codes " deleted")) (delete_body d expressions s)
        (delete_body-KeepsCatalog d expressions s)
  execute_kind-IsSaved StatementKind.update =
      answer-IsSaved (λ n. done (row_count n ++ codes " updated")) (update_body d expressions s)
        (update_body-KeepsCatalog d expressions s)
  execute_kind-IsSaved StatementKind.create_table =
      reply-context (λ _. done (codes "Table created")) (exec_create_table s ctx)
        (exec_create_table-IsSaved s ctx h)
  execute_kind-IsSaved StatementKind.drop_table =
      reply-context (λ _. done (codes "Table dropped")) (exec_drop_table s ctx)
        (exec_drop_table-IsSaved s ctx h)
  execute_kind-IsSaved _ = h

-- Whatever the statement and its outcome, execute leaves the saved catalog the text of the tables
-- in memory, if it was and the device takes writes.
pub execute-IsSaved :
    (d : Double) (expressions : List Expression) (s : Statement) (ctx : Context)
    → IsSavedContext ctx
    → IsSavedContext (execute d expressions s ctx).0
unfolding execute
execute-IsSaved d expressions s ctx h = execute_kind-IsSaved d expressions s ctx h s.kind
