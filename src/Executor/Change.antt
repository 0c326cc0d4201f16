-- ===== src/Executor/Change.antt =====
-- execDelete and execUpdate of src/executor/executor.cpp, behind resolveTable. A page is written back
-- after its slots; an error leaves the pages before it written.
use microsql.Base.{
  ℕ, zero, suc, ◌+◌, ◌-◌, ◌%◌, Bool, true, false, ◌||◌, Option, none, some, List, [], ◌∷◌,
  if◌then◌else◌, length, get_elem?, ok, err, fault, Text, text_eq,
}
use microsql.Ast.Statement.{Statement, ColumnDefinition}
use microsql.Ast.Expression.{Expression}
use microsql.Storage.Page.{Page, num_slots, slot_deleted, update_row}
use microsql.Storage.Row.{Row, serialize_row}
use microsql.Executor.Error.{Exec, primary_key_violation}
use microsql.Executor.Values.{Double}
use microsql.Executor.Eval.{or_undefined}
use microsql.Executor.Rows.{row_from_update}
use microsql.Executor.Slots.{internal, primary_key_index, read_slot_row, selects, delete_slots}
use microsql.Executor.Session.{Io, pure, lift, ◌>>=◌, get_num_pages, read_page, write_page}
use microsql.Executor.Scan.{primary_key_exists}
use microsql.Catalog.{column_names}

module _ (d : Double) (expressions : List Expression) (s : Statement)
    (columns : List ColumnDefinition) where
  unfoldable pub delete_pages : ℕ → ℕ → ℕ → Io ℕ
  unfolding delete_slots read_page write_page
  delete_pages zero i count = pure count
  delete_pages (suc left) i count = do
    page ← read_page i
    (page', count') ← lift (
        delete_slots d expressions s.where_index columns (column_names columns) (num_slots page) 0
          (page, count))
    _ ← write_page page'
    delete_pages left (i + 1) count'

  unfoldable pub delete_body : Io ℕ
  unfolding delete_pages get_num_pages
  delete_body = do pages ← get_num_pages; delete_pages (pages - 1) 1 0

-- Whether an assignment is to this column.
unfoldable pub assigns : Text → List (Text × ℕ) → Bool
assigns name [] = false
assigns name ((n, _) ∷ rest) = text_eq n name || assigns name rest

-- The primary key's index, if the statement assigns that column.
unfoldable pub assigned_key : List ColumnDefinition → List (Text × ℕ) → Option ℕ
unfolding primary_key_index assigns
assigned_key columns assignments = elim (primary_key_index columns) [
  | none ↦ none
  | some pk ↦ elim (get_elem? columns pk) [
    | none ↦ none
    | some c ↦ if assigns c.name assignments then some pk else none
  ]
]

module _ (d : Double) (expressions : List Expression) (s : Statement)
    (columns : List ColumnDefinition) where
  -- Whether a row of the slot before the update is one that the statement means.
  unfoldable pub updated_row : Row → Exec (Option Row)
  unfolding selects row_from_update
  updated_row row = elim (selects d expressions s.where_index row (column_names columns)) [
    | err e ↦ err e
    | fault u ↦ fault u
    | ok false ↦ ok none
    | ok true ↦
        elim (row_from_update d (length expressions) expressions row s.assignments
          (column_names columns)) [ ok r ↦ ok (some r) | err e ↦ err e | fault u ↦ fault u ]
  ]

  -- The primary key of an updated row, where the statement assigns it.
  unfoldable pub check_updated_key : Page → ℕ → ℕ → Row → Io (Unit {0})
  unfolding assigned_key primary_key_exists
  check_updated_key page i slot row = elim (assigned_key columns s.assignments) [
    | none ↦ pure tt
    | some pk ↦ do
      value ← lift (or_undefined (get_elem? row pk))
      exists ← primary_key_exists d columns pk value (some (page, i, slot))
      if exists then lift (err primary_key_violation) else pure tt
  ]

  unfoldable pub update_in_page : Page → ℕ → ℕ → Row → Io Page
  unfolding check_updated_key
  update_in_page page i slot row = do
    _ ← check_updated_key page i slot row
    bytes ← lift (internal (serialize_row row columns))
    let (page', done) = update_row page slot bytes (length bytes % 0x1_0000)
    _ ← lift (internal done)
    pure page'

  -- The rest of the loop's body for a row that is there.
  unfoldable pub update_found : Page → ℕ → ℕ → ℕ → Option Row → Io (Page × ℕ)
  unfolding update_in_page
  update_found page i slot count none = pure (page, count)
  update_found page i slot count (some row) = do
    page' ← update_in_page page i slot row
    pure (page', count + 1)

  unfoldable pub update_slot : ℕ → ℕ → Page × ℕ → Io (Page × ℕ)
  unfolding read_slot_row updated_row update_found
  update_slot i slot (page, count) = if slot_deleted page slot then pure (page, count) else (do
    row ← lift (read_slot_row page slot columns)
    changed ← lift (updated_row row)
    update_found page i slot count changed)

  unfoldable pub update_slots : ℕ → ℕ → ℕ → Page × ℕ → Io (Page × ℕ)
  unfolding update_slot
  update_slots zero i slot s' = pure s'
  update_slots (suc left) i slot s' = do
    s'' ← update_slot i slot s'
    update_slots left i (slot + 1) s''

  unfoldable pub update_pages : ℕ → ℕ → ℕ → Io ℕ
  unfolding update_slots read_page write_page
  update_pages zero i count = pure count
  update_pages (suc left) i count = do
    page ← read_page i
    (page', count') ← update_slots (num_slots page) i 0 (page, count)
    _ ← write_page page'
    update_pages left (i + 1) count'

  unfoldable pub update_body : Io ℕ
  unfolding update_pages get_num_pages
  update_body = do pages ← get_num_pages; update_pages (pages - 1) 1 0
