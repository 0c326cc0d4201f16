-- ===== src/Executor/Slots.antt =====
-- What the statements of src/executor/executor.cpp do with one page in memory, slot by slot. A loop
-- counts the rounds that are left.
use microsql.Base.{
  ℕ, zero, suc, ◌+◌, Bool, true, false, ◌||◌, Option, none, some, List, [], ◌∷◌, ◌++◌, ◌==◌,
  if◌then◌else◌, length, get_elem?, undefined, Outcome, ok, err, fault, ◌>>=◌, Text,
}
use microsql.Ast.Statement.{ColumnDefinition}
use microsql.Ast.Expression.{Expression}
use microsql.Storage.Page.{Page, slot_deleted, read_row, delete_row}
use microsql.Storage.Row.{Value, Row, deserialize_row}
use microsql.Executor.Error.{Exec, internal_error}
use microsql.Executor.Values.{Double, value_eq}
use microsql.Executor.Eval.{or_undefined, eval_where}

-- Every failure of the storage below is an internal error.
abbrev pub internal : {E A : Type 0} → Outcome E A → Exec A
internal (ok a) = ok a
internal (err e) = err internal_error
internal (fault u) = fault u

-- The row of a slot, from the pointer that readRow gives.
unfoldable pub read_slot_row : Page → ℕ → List ColumnDefinition → Exec Row
read_slot_row page slot columns = elim (read_row page slot) [
  | ok (offset, len) ↦ internal (deserialize_row (λ a. page.bytes (offset + a)) columns)
  | err e ↦ err internal_error
  | fault u ↦ fault u
]

unfoldable pub primary_key_index : List ColumnDefinition → Option ℕ
primary_key_index [] = none
primary_key_index (c ∷ columns) =
    if c.primary_key
    then some 0
    else elim (primary_key_index columns) [ none ↦ none | some i ↦ some (suc i) ]

-- Whether a row is meant: no WHERE clause, or one that holds.
unfoldable pub selects : Double → List Expression → Option ℕ → Row → List Text → Exec Bool
selects d expressions none row columns = ok true
selects d expressions (some i) row columns = elim (get_elem? expressions i) [
  | none ↦ fault undefined
  | some e ↦ eval_where d expressions row columns (length expressions) e
]

-- The loop of execSelect over the slots of a page.
module _ (d : Double) (expressions : List Expression) (where_index : Option ℕ)
    (columns : List ColumnDefinition) (names : List Text) (page : Page) where
  unfoldable pub select_slot : ℕ → List Row → Exec (List Row)
  unfolding read_slot_row selects
  select_slot slot rows = if slot_deleted page slot then ok rows else do
    row ← read_slot_row page slot columns
    match ← selects d expressions where_index row names
    ok (if match then rows ++ row ∷ [] else rows)

  unfoldable pub select_slots : ℕ → ℕ → List Row → Exec (List Row)
  unfolding select_slot
  select_slots zero slot rows = ok rows
  select_slots (suc left) slot rows = do
    rows' ← select_slot slot rows
    select_slots left (slot + 1) rows'

-- The loop of primaryKeyExists over the slots of a page; `skip` is the slot of the row itself.
module _ (d : Double) (columns : List ColumnDefinition) (pk : ℕ) (value : Value) (page : Page)
    (skip : Option ℕ) where
  abbrev pub skipped : ℕ → Bool
  skipped slot = elim skip [ none ↦ false | some s ↦ slot == s ]

  unfoldable pub key_in_slot : ℕ → Exec Bool
  unfolding read_slot_row
  key_in_slot slot = if slot_deleted page slot || skipped slot then ok false else do
    row ← read_slot_row page slot columns
    key ← or_undefined (get_elem? row pk)
    ok (value_eq d key value)

  unfoldable pub key_in_slots : ℕ → ℕ → Exec Bool
  unfolding key_in_slot
  key_in_slots zero slot = ok false
  key_in_slots (suc left) slot = do
    found ← key_in_slot slot
    if found then ok true else key_in_slots left (slot + 1)

-- The loop of execDelete over the slots of a page: the page and the count.
module _ (d : Double) (expressions : List Expression) (where_index : Option ℕ)
    (columns : List ColumnDefinition) (names : List Text) where
  unfoldable pub delete_slot : ℕ → Page × ℕ → Exec (Page × ℕ)
  unfolding read_slot_row selects
  delete_slot slot (page, count) = if slot_deleted page slot then ok (page, count) else do
    row ← read_slot_row page slot columns
    match ← selects d expressions where_index row names
    let (page', done) = delete_row page slot
    if match then (do _ ← internal done; ok (page', count + 1)) else ok (page, count)

  unfoldable pub delete_slots : ℕ → ℕ → Page × ℕ → Exec (Page × ℕ)
  unfolding delete_slot
  delete_slots zero slot s = ok s
  delete_slots (suc left) slot s = do s' ← delete_slot slot s; delete_slots left (slot + 1) s'
