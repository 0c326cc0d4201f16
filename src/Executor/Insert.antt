-- ===== src/Executor/Insert.antt =====
-- execInsert of src/executor/executor.cpp, behind resolveTable.
pub mod Added
pub mod Pages
pub mod Table
pub mod Stored
pub mod Body
pub mod Tests
use microsql.Base.{
  ℕ, zero, suc, ◌+◌, ◌-◌, ◌%◌, Bool, true, false, none, some, List, [], ◌∷◌, leb, ◌==◌,
  if◌then◌else◌, length, get_elem?, ok, err,
}
use microsql.Ast.Statement.{Statement, ColumnDefinition}
use microsql.Ast.Expression.{Expression}
use microsql.Storage.Page.{Page, insert_row, free_space, slot_entry_size}
use microsql.Storage.Row.{Row, serialize_row}
use microsql.Storage.TableFile
use microsql.Storage.TableFile.{TableFile}
use microsql.Executor.Error.{Exec, column_count_mismatch, primary_key_violation}
use microsql.Executor.Values.{Double}
use microsql.Executor.Eval.{or_undefined}
use microsql.Executor.Rows.{row_from_insert_values}
use microsql.Executor.Slots.{internal, primary_key_index}
use microsql.Executor.Session.{Io, pure, lift, ◌>>=◌, on_file, get_num_pages, read_page, write_page}
use microsql.Executor.Scan.{primary_key_exists}

-- insertRowIntoPage
unfoldable pub insert_row_into_page : Page → List ℕ → ℕ → Io (Unit {0})
unfolding write_page
insert_row_into_page page bytes len =
    let (page', inserted) = insert_row page bytes len in
    do _ ← lift (internal inserted); write_page page'

-- The loop over the pages: whether one of them took the row.
unfoldable pub insert_into_pages : List ℕ → ℕ → ℕ → ℕ → Io Bool
unfolding insert_row_into_page read_page
insert_into_pages bytes len zero i = pure false
insert_into_pages bytes len (suc left) i = do
  page ← read_page i
  if leb (len + slot_entry_size) (free_space page)
      then (do _ ← insert_row_into_page page bytes len; pure true)
      else insert_into_pages bytes len left (i + 1)

-- Where no page took it, a new page does.
unfoldable pub insert_bytes : List ℕ → Io (Unit {0})
unfolding insert_into_pages insert_row_into_page read_page get_num_pages
insert_bytes bytes = do
  pages ← get_num_pages
  let len = length bytes % 0x1_0000
  inserted ← insert_into_pages bytes len (pages - 1) 1
  if inserted then pure tt else (do
    id ← on_file TableFile.allocate_page
    page ← read_page id
    insert_row_into_page page bytes len)

-- A row without a column list must have a value for every column.
unfoldable pub check_count : Statement → Row → List ColumnDefinition → Exec (Unit {0})
check_count s row columns = elim s.insert_column_names [
  | [] ↦ if length row == length columns then ok tt else err column_count_mismatch
  | name ∷ names ↦ ok tt
]

unfoldable pub check_primary_key : Double → Row → List ColumnDefinition → Io (Unit {0})
unfolding primary_key_exists primary_key_index
check_primary_key d row columns = elim (primary_key_index columns) [
  | none ↦ pure tt
  | some pk ↦ do
    value ← lift (or_undefined (get_elem? row pk))
    exists ← primary_key_exists d columns pk value none
    if exists then lift (err primary_key_violation) else pure tt
]

unfoldable pub insert_body :
    Double → List Expression → Statement → List ColumnDefinition → Io (Unit {0})
unfolding check_count check_primary_key insert_bytes
insert_body d expressions s columns = do
  row ← lift (row_from_insert_values d (length expressions) expressions s columns)
  _ ← lift (check_count s row columns)
  _ ← check_primary_key d row columns
  bytes ← lift (internal (serialize_row row columns))
  insert_bytes bytes
