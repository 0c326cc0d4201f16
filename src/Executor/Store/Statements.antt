-- ===== src/Executor/Store/Statements.antt =====
-- execSelect after execInsert and execDelete of src/executor/executor.cpp, on a well-formed table.
use microsql.Base.{
  ℕ, suc, ◌+◌, ◌-◌, ◌≤◌, ◌<◌, ◌≡◌, ap, ◌∙◌, Bool, not, some, List, ◌∷◌, ◌++◌, arith, length, filter,
  ok, Text,
}
use microsql.Ast.Statement.{Statement, ColumnDefinition}
use microsql.Ast.Expression.{Expression}
use microsql.Storage.Page.{header_size, page_size, slot_entry_size}
use microsql.Storage.Row.{Row, serialize_row}
use microsql.Storage.Row.Encoding.{InRangeRow}
use microsql.Catalog.{column_names}
use microsql.Executor.Values.{Double}
use microsql.Executor.Rows.{row_from_insert_values}
use microsql.Executor.Slots.{primary_key_index}
use microsql.Executor.Session.{Session}
use microsql.Executor.Scan.{result_columns, select_body}
use microsql.Executor.Insert.{check_count, check_primary_key, insert_body}
use microsql.Executor.Change.{delete_body}
use microsql.Executor.Delete.Table.{delete_body-TableAfter}
use microsql.Executor.Store.{IsStore}
use microsql.Executor.Store.Rows.{table_rows}
use microsql.Executor.Store.Select.{Means, select_body-table_rows}
use microsql.Executor.Store.Insert.{insert_body-IsStore}
use microsql.Executor.Store.InsertRows.{table_rows-RowStored}
use microsql.Executor.Store.Delete.{delete_body-IsStore}
use microsql.Executor.Store.DeleteRows.{table_rows-TableAfter}

-- On a well-formed table of n pages, one or more and fewer than 2^32 - 1 (its file open on a
-- stream that has not failed, on a device that takes writes, with sound pages of data whose slots
-- hold the bytes of rows, no two with one value in the key column), where the key column is the
-- primary key, the equality of doubles does not depend on the order, the values make a row, its
-- checks pass, its values are in range and its bytes fit an empty page, execInsert succeeds, and
-- an execSelect with expressions of its own whose select list gives names and whose WHERE clause
-- has a result on every row that such a table may hold succeeds before it and after it: for some
-- lists xs and ys it finds the rows of xs and then ys that its clause means before, and those of
-- xs, the new row and ys after.
pub select_body-insert_body :
    (d : Double) (expressions query_expressions : List Expression) (st query : Statement)
    (columns : List ColumnDefinition) (row : Row) (bytes : List ℕ) (names : List Text)
    (meant : Row → Bool) (pk n : ℕ) (s : Session)
    → ((a b : ℕ) → d.eq a b ≡ d.eq b a)
    → primary_key_index columns ≡ some pk
    → row_from_insert_values d (length expressions) expressions st columns ≡ ok row
    → check_count st row columns ≡ ok tt
    → check_primary_key d row columns s ≡ (s, ok tt)
    → serialize_row row columns ≡ ok bytes
    → InRangeRow row
    → 0 < length bytes
    → length bytes + slot_entry_size ≤ page_size - header_size
    → result_columns query_expressions query.select_columns columns ≡ ok names
    → Means d query_expressions query.where_index columns names meant
    → IsStore d columns pk n s
    → 1 ≤ n
    → suc n < 0x1_0000_0000
    → (s' : Session) × (xs : List Row) × (ys : List Row) × (insert_body d expressions st columns s
        ≡ (s', ok tt))
      × (select_body d query_expressions query columns s ≡ (s, ok (names, filter meant (xs ++ ys))))
      × (select_body d query_expressions query columns s'
          ≡ (s', ok (names, filter meant (xs ++ row ∷ ys))))
select_body-insert_body d expressions query_expressions st query columns row bytes names meant pk n
      s comm key made counted free run range some_byte fits named means store some_page small =
    let (s', inserted, stored, after) =
      insert_body-IsStore d expressions st columns row bytes pk n s comm key made counted free run
        range some_byte fits store some_page small in
    let (xs, ys, old, new) =
      table_rows-RowStored columns bytes (record { row = row; range = range; run = run }) n s s'
        stored store.rows some_page in
    (
      s',
      xs,
      ys,
      inserted,
      select_body-table_rows d query_expressions query columns names meant pk n s store some_page
            named means
          ∙ ap (λ rows. (s, ok (names, filter meant rows))) old,
      select_body-table_rows d query_expressions query columns names meant pk stored.pages s' after
            (omega (arith, stored.added.inside)) named means
          ∙ ap (λ rows. (s', ok (names, filter meant rows))) new,
    )

-- On a well-formed table of n pages, one or more (its file open on a stream that has not failed,
-- on a device that takes writes, with sound pages of data whose slots hold the bytes of rows, no
-- two with one value in the key column), where the WHERE clauses of an execDelete and of an
-- execSelect, each with expressions of its own, have results on every row that such a table may
-- hold, the select list gives names and the execDelete comes to its end, the execSelect before it
-- gives the rows of the table that it means, and after it those of the rows for which the clause
-- of the execDelete does not hold.
pub select_body-delete_body_rows :
    (d : Double) (expressions query_expressions : List Expression) (st query : Statement)
    (columns : List ColumnDefinition) (names : List Text) (meant gone : Row → Bool) (pk n c : ℕ)
    (s s' : Session)
    → IsStore d columns pk n s
    → 1 ≤ n
    → Means d expressions st.where_index columns (column_names columns) gone
    → result_columns query_expressions query.select_columns columns ≡ ok names
    → Means d query_expressions query.where_index columns names meant
    → delete_body d expressions st columns s ≡ (s', ok c)
    → (let rows = table_rows columns s (n - 1) 1 in
        (select_body d query_expressions query columns s ≡ (s, ok (names, filter meant rows)))
        × (select_body d query_expressions query columns s'
            ≡ (s', ok (names, filter meant (filter (λ row. not (gone row)) rows)))))
select_body-delete_body_rows d expressions query_expressions st query columns names meant gone pk n
      c s s' store some_page goes named means run =
    let a =
      delete_body-TableAfter d expressions st columns n c s s' store.table store.sound some_page
        run in
    (
      select_body-table_rows d query_expressions query columns names meant pk n s store some_page
          named means,
      select_body-table_rows d query_expressions query columns names meant pk n s'
            (delete_body-IsStore d expressions st columns n pk c s s' store some_page run) some_page
            named means
          ∙ ap (λ rows. (s', ok (names, filter meant rows)))
              (table_rows-TableAfter d expressions st columns n gone goes s s' (n - 1) 1 store.rows
                a (omega arith) (omega arith)),
    )
