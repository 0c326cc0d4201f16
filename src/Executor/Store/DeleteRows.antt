-- ===== src/Executor/Store/DeleteRows.antt =====
-- execDelete of src/executor/executor.cpp on a well-formed table: the rows afterwards.
use microsql.Base.{
  ℕ, zero, suc, ◌+◌, ◌≤◌, ◌<◌, ◌≡◌, refl, sym, ap, ◌∙◌, inl, inr, Bool, true, false, not, some,
  List, [], ◌∷◌, ◌++◌, arith, if◌then◌else◌, Option-cases, filter, filter-append, ok, Text,
}
use microsql.Ast.Statement.{Statement, ColumnDefinition}
use microsql.Ast.Expression.{Expression}
use microsql.Storage.Page.{Page, num_slots}
use microsql.Storage.Page.Slots.{slot_view}
use microsql.Storage.Row.{Row}
use microsql.Catalog.{column_names}
use microsql.Executor.Error.{Exec}
use microsql.Executor.Values.{Double}
use microsql.Executor.Slots.{read_slot_row, selects}
use microsql.Executor.Session.{Session}
use microsql.Executor.Table.{table_page}
use microsql.Executor.Insert.Stored.{read_slot_row-serialize_row}
use microsql.Executor.Delete.Page.{SlotAfter, was_empty, deleted, kept}
use microsql.Executor.Delete.Table.{TableAfter, PageDone}
use microsql.Executor.Store.{IsRow, AreRows}
use microsql.Executor.Store.Select.{Means}
use microsql.Executor.Store.Rows.{
  slot_rows, page_rows, table_rows, slot_rows-none, slot_rows-some, ArePageRows, rows_of,
}

module _ (d : Double) (expressions : List Expression) (st : Statement)
    (columns : List ColumnDefinition) (n : ℕ) (meant : Row → Bool)
    (means : Means d expressions st.where_index columns (column_names columns) meant) where
  abbrev names : List Text
  names = column_names columns

  abbrev left_out : Row → Bool
  left_out row = not (meant row)

  -- What the condition says of the row of a slot.
  meant-read :
      (p : Page) (j : ℕ) (bytes : List ℕ) {row : Row} {b : Bool}
      → slot_view p j ≡ some bytes
      → (r : IsRow columns bytes) → read_slot_row p j columns ≡ ok row
      → selects d expressions st.where_index row names ≡ ok b
      → meant r.row ≡ b
  meant-read p j bytes {row} {b} there r read match =
      let again = read_slot_row-serialize_row p j bytes r.row columns there r.range r.run in
      let same : row ≡ r.row =
        (let e : (let m : Exec Row = ok row in m) ≡ ok r.row = sym read ∙ again in cc) in
      let e : (let m : Exec Bool = ok (meant r.row) in m) ≡ ok b =
        sym (means bytes r)
        ∙ ap (λ row. selects d expressions st.where_index row names) (sym same)
        ∙ match in
      cc

  filter-left_out :
      (row : Row) (b : Bool)
      → meant row ≡ b
      → filter left_out (row ∷ []) ≡ (if b then [] else row ∷ [])
  filter-left_out row true h = rw h refl
  filter-left_out row false h = rw h refl

  slot_rows-SlotAfter :
      (p q : Page) (j : ℕ)
      → ArePageRows columns p
      → SlotAfter d expressions st.where_index columns names p q j
      → slot_rows columns q j ≡ filter left_out (slot_rows columns p j)
  slot_rows-SlotAfter p q j are (was_empty before after) =
      slot_rows-none columns q j after
      ∙ ap (filter left_out) (sym (slot_rows-none columns p j before))
  slot_rows-SlotAfter p q j are (deleted read match after) = elim (Option-cases (slot_view p j)) [
    | inl empty ↦
        slot_rows-none columns q j after
        ∙ ap (filter left_out) (sym (slot_rows-none columns p j empty))
    | inr (bytes, there) ↦
        let r = are j bytes there in
        slot_rows-none columns q j after
        ∙ sym (
            ap (filter left_out) (slot_rows-some columns p j bytes there r)
            ∙ filter-left_out r.row true (meant-read p j bytes there r read match))
  ]
  slot_rows-SlotAfter p q j are (kept read match same live again) =
      elim (Option-cases (slot_view p j)) [
        | inl empty ↦
            slot_rows-none columns q j (same ∙ empty)
            ∙ ap (filter left_out) (sym (slot_rows-none columns p j empty))
        | inr (bytes, there) ↦
            let r = are j bytes there in
            slot_rows-some columns q j bytes (same ∙ there) r
            ∙ sym (
                ap (filter left_out) (slot_rows-some columns p j bytes there r)
                ∙ filter-left_out r.row false (meant-read p j bytes there r read match))
      ]

  page_rows-SlotAfter :
      (p q : Page) (left slot : ℕ)
      → ArePageRows columns p
      → ((j : ℕ) → j < slot + left → SlotAfter d expressions st.where_index columns names p q j)
      → page_rows columns q left slot ≡ filter left_out (page_rows columns p left slot)
  unfolding page_rows
  page_rows-SlotAfter p q zero slot are after = refl
  page_rows-SlotAfter p q (suc left) slot are after =
      ap (λ rows. rows ++ page_rows columns q left (slot + 1))
        (slot_rows-SlotAfter p q slot are (after slot (omega arith)))
      ∙ ap (λ rows. filter left_out (slot_rows columns p slot) ++ rows)
          (page_rows-SlotAfter p q left (slot + 1) are λ j h. after j (omega arith))
      ∙ sym
          (filter-append left_out (slot_rows columns p slot) (page_rows columns p left (slot + 1)))

  rows_of-PageDone :
      (p q : Page)
      → ArePageRows columns p
      → PageDone d expressions st columns n p q
      → rows_of columns q ≡ filter left_out (rows_of columns p)
  rows_of-PageDone p q are done =
      ap (λ l. page_rows columns q l 0) done.slots
      ∙ page_rows-SlotAfter p q (num_slots p) 0 are λ j h. done.after j (omega arith)

  -- The rows of the table after a deletion are those for which the condition does not hold.
  pub table_rows-TableAfter :
      (s s' : Session) (left i : ℕ)
      → AreRows columns n s
      → TableAfter d expressions st columns n 1 s s'
      → 1 ≤ i
      → i + left ≡ n
      → table_rows columns s' left i ≡ filter left_out (table_rows columns s left i)
  unfolding table_rows
  table_rows-TableAfter s s' zero i are a low e = refl
  table_rows-TableAfter s s' (suc left) i are a low e =
      let p = table_page s i in
      ap (λ rows. rows ++ table_rows columns s' left (i + 1))
        (rows_of-PageDone p (table_page s' i) (are i low (omega arith))
          (a.after i low (omega arith)))
      ∙ ap (λ rows. filter left_out (rows_of columns p) ++ rows)
          (table_rows-TableAfter s s' left (i + 1) are a (omega arith) (omega arith))
      ∙ sym (filter-append left_out (rows_of columns p) (table_rows columns s left (i + 1)))
