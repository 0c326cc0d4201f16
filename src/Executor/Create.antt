-- ===== src/Executor/Create.antt =====
-- What execCreateTable of src/executor/executor.cpp leaves, for a new name and for one that is taken.
use microsql.Base.{
  ◌≡◌, refl, ap, ◌∙◌, true, false, none, some, List, [], ◌∷◌, ◌++◌, arith, ok, err, Text,
}
use microsql.Ast.Statement.{Statement}
use microsql.Storage.TableFile.{
  FileResult, Disk, TableFile, create, open_file, allocate_page, num_pages, contents, closed_file,
  empty_file, lookup, insert,
}
use microsql.Storage.TableFile.Map.{lookup-insert}
use microsql.Storage.TableFile.Pages.{IsUsable, allocate_page-read_page}
use microsql.Catalog.{TableSchema, Tables, find_table, save, catalog_text}
use microsql.Catalog.Tables.{add_table_taken, add_table_free}
use microsql.Executor.Error
use microsql.Executor.Statements.{
  Context, table_path, file_then, file_step, file_for_table, register_table, keep_table,
  table_schema, exec_create_table,
}

abbrev pub opened_file : Text → TableFile
opened_file path = record { file_path = path; is_open = true; failed = false }

-- The disk with an empty file of this name.
abbrev emptied : Text → Disk → Disk
emptied path disk = record disk { files = insert path empty_file disk.files }

emptied_size :
    (path : Text) (disk : Disk) → (contents (opened_file path) (emptied path disk)).size ≡ 0
unfolding contents
emptied_size path disk = rw (lookup-insert path empty_file disk.files, contents)

emptied-IsUsable :
    (path : Text) (disk : Disk)
    → disk.writable ≡ true
    → IsUsable (opened_file path) (emptied path disk)
emptied-IsUsable path disk w = record { opened = refl; sound = refl; device = w }

-- The file is open and holds one page, whatever it held before.
file_for_table-one_page :
    (path : Text) (disk : Disk)
    → disk.writable ≡ true
    → (disk' : Disk) × (file_for_table path disk ≡ ((opened_file path, disk'), ok tt))
      × (num_pages (opened_file path) disk' ≡ ((opened_file path, disk'), ok 1))
      × (disk'.writable ≡ true)
unfolding file_for_table create open_file
file_for_table-one_page path disk w =
    let (disk', allocated, usable, pages, _, _) =
      allocate_page-read_page (opened_file path) (emptied path disk) 0
        (emptied-IsUsable path disk w) (emptied_size path disk) (omega arith) in
    let created : create (closed_file path) disk ≡ ((closed_file path, emptied path disk), ok tt) =
      rw w in
    let opened : open_file (closed_file path) path (emptied path disk)
        ≡ ((opened_file path, emptied path disk), ok tt) =
      rw (lookup-insert path empty_file disk.files, open_file) in
    (
      disk',
      ap (λ r. file_step (file_then r (λ t d. file_then (open_file t path d) allocate))) created
          ∙ ap (λ r. file_step (file_then r allocate)) opened
          ∙ ap (λ r. file_step (file_then r (λ t d. ((t, d), ok tt)))) allocated,
      pages,
      usable.device,
    )
  where
    allocate : TableFile → Disk → FileResult (Unit {0})
    allocate t d = file_then (allocate_page t d) (λ t d. ((t, d), ok tt))

-- On a device that takes writes, execCreateTable of a name that is taken reports a duplicate
-- table and leaves the tables and the open files, but the file of that name has one page
-- afterwards, whatever it held.
pub exec_create_table_duplicate :
    (s : Statement) (ctx : Context) (t : TableSchema)
    → ctx.disk.writable ≡ true
    → find_table ctx.tables s.table_name ≡ some t
    → (disk' : Disk) × (exec_create_table s ctx
        ≡ (record ctx { disk = disk' }, err Error.duplicate_table))
      × ((num_pages (opened_file (table_path s.table_name)) disk').1 ≡ ok 1)
unfolding exec_create_table register_table keep_table
exec_create_table_duplicate s ctx t w h =
    let (disk', made, pages, device) =
      file_for_table-one_page (table_path s.table_name) ctx.disk w in
    (
      disk',
      ap (register_table s ctx) made
          ∙ ap (keep_table s.table_name ctx (opened_file (table_path s.table_name), disk'))
              (add_table_taken ctx.tables (table_schema s) h),
      ap (λ r. r.1) pages,
    )

abbrev kept : Tables → List (Text × TableFile) → Disk → Context
kept tables files disk = record { tables = tables; open_files = files; disk = disk }

-- On a device that takes writes, execCreateTable of a name that is not taken succeeds: the
-- catalog finds the new schema, its file is among the open ones and has one page, and the saved
-- catalog is the text of the new tables.
pub exec_create_table_fresh :
    (s : Statement) (ctx : Context)
    → ctx.disk.writable ≡ true
    → find_table ctx.tables s.table_name ≡ none
    → (ctx' : Context) × (exec_create_table s ctx ≡ (ctx', ok tt))
      × (find_table ctx'.tables s.table_name ≡ some (table_schema s))
      × (lookup s.table_name ctx'.open_files ≡ some (opened_file (table_path s.table_name)))
      × ((num_pages (opened_file (table_path s.table_name)) ctx'.disk).1 ≡ ok 1)
      × (ctx'.disk.catalog ≡ some (catalog_text ctx'.tables))
unfolding exec_create_table register_table keep_table save
exec_create_table_fresh s ctx w h =
    let (disk', made, pages, device) =
      file_for_table-one_page (table_path s.table_name) ctx.disk w in
    let file = opened_file (table_path s.table_name) in
    let (added, found) = add_table_free ctx.tables (table_schema s) h in
    let tables = ctx.tables ++ table_schema s ∷ [] in
    let disk'' = record disk' { catalog = some (catalog_text tables) } in
    let saved : save tables disk' ≡ disk'' = rw (device, save) in
    (
      record {
        tables = tables;
        open_files = insert s.table_name file ctx.open_files;
        disk = disk'';
      },
      ap (register_table s ctx) made
          ∙ ap (keep_table s.table_name ctx (file, disk')) added
          ∙ ap (λ d. (kept tables (insert s.table_name file ctx.open_files) d, ok tt)) saved,
      found,
      lookup-insert s.table_name file ctx.open_files,
      ap (λ r. r.1) pages,
      refl,
    )
