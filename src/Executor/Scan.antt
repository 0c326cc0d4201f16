-- ===== src/Executor/Scan.antt =====
-- execSelect and primaryKeyExists of src/executor/executor.cpp: the scans over the pages of a table.
-- Page 0 is reserved; data starts at page 1.
use microsql.Base.{
  ℕ, zero, suc, ◌+◌, ◌-◌, Bool, true, false, Option, none, some, List, [], ◌∷◌, ◌==◌, if◌then◌else◌,
  get_elem?, undefined, ok, err, fault, Text,
}
use microsql.Ast.Statement.{Statement, ColumnDefinition}
use microsql.Ast.Expression.{Expression, column_ref}
use microsql.Storage.Page.{Page, num_slots}
use microsql.Storage.Row.{Value, Row}
use microsql.Executor.Error.{Exec}
use microsql.Executor.Values.{Double}
use microsql.Executor.Slots.{select_slots, key_in_slots}
use microsql.Executor.Session.{Io, pure, lift, ◌>>=◌, get_num_pages, read_page}
use microsql.Catalog.{column_names}

module _ (d : Double) (expressions : List Expression) (where_index : Option ℕ)
    (columns : List ColumnDefinition) (names : List Text) where
  unfoldable pub select_pages : ℕ → ℕ → List Row → Io (List Row)
  unfolding select_slots read_page
  select_pages zero i rows = pure rows
  select_pages (suc left) i rows = do
    page ← read_page i
    rows' ← lift (select_slots d expressions where_index columns names page (num_slots page) 0 rows)
    select_pages left (i + 1) rows'

-- The columnName of an expression; only a column reference has one that is not empty.
abbrev pub column_name_of : Expression → Text
column_name_of (column_ref name _) = name
column_name_of _ = []

unfoldable pub selected_names : List Expression → List ℕ → Exec (List Text)
selected_names expressions [] = ok []
selected_names expressions (i ∷ indices) = elim (get_elem? expressions i) [
  | none ↦ fault undefined
  | some e ↦ elim (selected_names expressions indices) [
    | ok names ↦ ok (column_name_of e ∷ names)
    | err x ↦ err x
    | fault u ↦ fault u
  ]
]

-- result.columns
unfoldable pub result_columns : List Expression → List ℕ → List ColumnDefinition → Exec (List Text)
unfolding selected_names column_names
result_columns expressions [] columns = ok (column_names columns)
result_columns expressions (i ∷ indices) columns = selected_names expressions (i ∷ indices)

-- The body of execSelect behind resolveTable: the names of the columns, and the rows.
unfoldable pub select_body :
    Double → List Expression → Statement → List ColumnDefinition → Io (List Text × List Row)
unfolding result_columns select_pages get_num_pages
select_body d expressions s columns = do
  names ← lift (result_columns expressions s.select_columns columns)
  pages ← get_num_pages
  rows ← select_pages d expressions s.where_index columns names (pages - 1) 1 []
  pure (names, rows)

-- primaryKeyExists. `current` is the page in hand, its index and the slot to skip.
module _ (d : Double) (columns : List ColumnDefinition) (pk : ℕ) (value : Value)
    (current : Option (Page × ℕ × ℕ)) where
  -- The page in hand stands for the one with its index.
  unfoldable pub key_page : ℕ → Io (Page × Option ℕ)
  unfolding read_page
  key_page i = elim current [
    | none ↦ do page ← read_page i; pure (page, none)
    | some (page, at, slot) ↦
        if i == at then pure (page, some slot) else (do page ← read_page i; pure (page, none))
  ]

  unfoldable pub key_in_pages : ℕ → ℕ → Io Bool
  unfolding key_page key_in_slots
  key_in_pages zero i = pure false
  key_in_pages (suc left) i = do
    (page, skip) ← key_page i
    found ← lift (key_in_slots d columns pk value page skip (num_slots page) 0)
    if found then pure true else key_in_pages left (i + 1)

  unfoldable pub primary_key_exists : Io Bool
  unfolding key_in_pages get_num_pages
  primary_key_exists = do pages ← get_num_pages; key_in_pages (pages - 1) 1
