-- ===== src/Executor/Store/Select.antt =====
-- execSelect of src/executor/executor.cpp on a well-formed table.
use microsql.Base.{
  ℕ, zero, suc, ◌+◌, ◌-◌, ◌≤◌, ◌<◌, ◌≡◌, sym, ap, ◌∙◌, inl, inr, Bool, Option, List, [], ◌∷◌, ◌++◌,
  arith, if◌then◌else◌, Bool-cases, Option-cases, filter, filter-append, ok, Text,
}
use mathlib.Core.List.{append_assoc, append-nil}
use microsql.Ast.Statement.{Statement, ColumnDefinition}
use microsql.Ast.Expression.{Expression}
use microsql.Storage.Page.{Page, num_slots}
use microsql.Storage.Page.Slots.{slot_view}
use microsql.Storage.Row.{Row}
use microsql.Executor.Error.{Exec}
use microsql.Executor.Values.{Double}
use microsql.Executor.Slots.{selects, select_slot, select_slots}
use microsql.Executor.Session.{Session, Io, pure, continue, get_num_pages}
use microsql.Executor.Scan.{result_columns, select_pages, select_body}
use microsql.Executor.Table.{IsTable, table_page, read_page-table_page, get_num_pages-table}
use microsql.Executor.Delete.Slot.{slot_view-deleted, IsLive-slot_deleted}
use microsql.Executor.Insert.Stored.{read_slot_row-serialize_row, slot_view-some}
use microsql.Executor.Store.{IsStore, IsRow, AreRows}
use microsql.Executor.Store.Rows.{
  slot_rows, page_rows, table_rows, slot_rows-none, slot_rows-some, ArePageRows,
}

-- The condition of a statement is evaluated on every row of the table, with this result.
abbrev pub Means :
    Double → List Expression → Option ℕ → List ColumnDefinition → List Text → (Row → Bool) → Type 0
Means d expressions where_index columns names meant =
    (bytes : List ℕ) (r : IsRow columns bytes)
    → selects d expressions where_index r.row names ≡ ok (meant r.row)

filter-one :
    (meant : Row → Bool) (row : Row) (rows : List Row)
    → (let m : Exec (List Row) = ok (if meant row then rows ++ row ∷ [] else rows) in m)
      ≡ ok (rows ++ filter meant (row ∷ []))
filter-one meant row rows = elim (Bool-cases (meant row)) [
  | inl holds ↦ rw holds
  | inr fails ↦ rw fails (ap ok (sym (append-nil rows)))
]

module _ (d : Double) (expressions : List Expression) (where_index : Option ℕ)
    (columns : List ColumnDefinition) (names : List Text) (meant : Row → Bool)
    (means : Means d expressions where_index columns names meant) where
  select_slot-slot_rows :
      (p : Page) (j : ℕ) (rows : List Row)
      → ArePageRows columns p
      → j < num_slots p
      → select_slot d expressions where_index columns names p j rows
        ≡ ok (rows ++ filter meant (slot_rows columns p j))
  unfolding select_slot
  select_slot-slot_rows p j rows are h = elim (Option-cases (slot_view p j)) [
    | inl empty ↦
        rw (slot_view-deleted p j h empty, slot_rows-none columns p j empty, select_slot)
          (ap ok (sym (append-nil rows)))
    | inr (bytes, there) ↦
        let r = are j bytes there in
        let (live, _) = slot_view-some p j bytes there in
        let read = read_slot_row-serialize_row p j bytes r.row columns there r.range r.run in
        rw
          (
            IsLive-slot_deleted p j live,
            read,
            means bytes r,
            slot_rows-some columns p j bytes there r,
            select_slot,
          )
          (filter-one meant r.row rows)
  ]

  select_slots-page_rows :
      (p : Page) (left slot : ℕ) (rows : List Row)
      → ArePageRows columns p
      → slot + left ≡ num_slots p
      → select_slots d expressions where_index columns names p left slot rows
        ≡ ok (rows ++ filter meant (page_rows columns p left slot))
  unfolding select_slots page_rows
  select_slots-page_rows p zero slot rows are e = ap ok (sym (append-nil rows))
  select_slots-page_rows p (suc left) slot rows are e =
      let here = filter meant (slot_rows columns p slot) in
      rw (select_slot-slot_rows p slot rows are (omega arith), select_slots)
        (select_slots-page_rows p left (slot + 1) (rows ++ here) are (omega arith)
          ∙ ap ok (
              append_assoc rows here (filter meant (page_rows columns p left (slot + 1)))
              ∙ ap (λ xs. rows ++ xs)
                  (sym (
                    filter-append meant (slot_rows columns p slot)
                      (page_rows columns p left (slot + 1))))))

  select_pages-table_rows :
      (n : ℕ) (s : Session) (left i : ℕ) (rows : List Row)
      → IsTable n s
      → AreRows columns n s
      → 1 ≤ i
      → i + left ≡ n
      → select_pages d expressions where_index columns names left i rows s
        ≡ (s, ok (rows ++ filter meant (table_rows columns s left i)))
  unfolding select_pages table_rows
  select_pages-table_rows n s zero i rows t are low e =
      ap (λ xs. (s, ok xs)) (sym (append-nil rows))
  select_pages-table_rows n s (suc left) i rows t are low e =
      let p = table_page s i in
      let here = page_rows columns p (num_slots p) 0 in
      let later = table_rows columns s left (i + 1) in
      ap (λ r. continue r.1 taken r.0) (read_page-table_page n s i t (omega arith))
      ∙ ap (λ r. continue r (select_pages d expressions where_index columns names left (i + 1)) s)
          (select_slots-page_rows p (num_slots p) 0 rows (are i low (omega arith)) (omega arith))
      ∙ select_pages-table_rows n s left (i + 1) (rows ++ filter meant here) t are (omega arith)
          (omega arith)
      ∙ ap (λ xs. (s, ok xs))
          (append_assoc rows (filter meant here) (filter meant later)
            ∙ ap (λ xs. rows ++ xs) (sym (filter-append meant here later)))
    where
      taken : Page → Io (List Row)
      taken page s =
          continue
            (select_slots d expressions where_index columns names page (num_slots page) 0 rows)
            (select_pages d expressions where_index columns names left (i + 1)) s

-- On a well-formed table of n pages, one or more (its file open on a stream that has not failed,
-- on a device that takes writes, with sound pages of data whose slots hold the bytes of rows, no
-- two with one value in the key column), where the select list gives names and the WHERE clause,
-- read with these names, has a result on every row that such a table may hold, execSelect
-- succeeds, leaves the table, and gives the names and, of the list of the rows of the table,
-- those for which the result is true, in their order.
pub select_body-table_rows :
    (d : Double) (expressions : List Expression) (st : Statement) (columns : List ColumnDefinition)
    (names : List Text) (meant : Row → Bool) (pk n : ℕ) (s : Session)
    → IsStore d columns pk n s
    → 1 ≤ n
    → result_columns expressions st.select_columns columns ≡ ok names
    → Means d expressions st.where_index columns names meant
    → select_body d expressions st columns s
      ≡ (s, ok (names, filter meant (table_rows columns s (n - 1) 1)))
unfolding select_body
select_body-table_rows d expressions st columns names meant pk n s store some_page named means =
    ap (λ r. continue r with_names s) named
    ∙ ap (λ r. continue r.1 (with_pages names) r.0) (get_num_pages-table n s store.table)
    ∙ ap (λ r. continue r.1 (λ rows. pure (names, rows)) r.0)
        (select_pages-table_rows d expressions st.where_index columns names meant means n s (n - 1)
          1 [] store.table store.rows (omega arith) (omega arith))
  where
    with_pages : List Text → ℕ → Io (List Text × List Row)
    with_pages names pages s =
        let r = select_pages d expressions st.where_index columns names (pages - 1) 1 [] s in
        continue r.1 (λ rows. pure (names, rows)) r.0

    with_names : List Text → Io (List Text × List Row)
    with_names names s = continue (get_num_pages s).1 (with_pages names) (get_num_pages s).0
