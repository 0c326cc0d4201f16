-- ===== src/Executor/Delete/TableSelect.antt =====
-- execSelect after execDelete, over the pages of a table, in src/executor/executor.cpp.
use microsql.Base.{
  ℕ, zero, suc, ◌+◌, ◌-◌, ◌≤◌, ◌<◌, ◌≡◌, refl, ap, ◌∙◌, List, [], ◌∷◌, arith, ok, Text,
}
use microsql.Ast.Statement.{Statement, ColumnDefinition}
use microsql.Ast.Expression.{Expression}
use microsql.Storage.Page.{Page, num_slots}
use microsql.Storage.Row.{Row}
use microsql.Catalog.{column_names}
use microsql.Executor.Values.{Double}
use microsql.Executor.Slots.{select_slots}
use microsql.Executor.Session.{Session, Io, continue, get_num_pages, pure}
use microsql.Executor.Scan.{result_columns, select_pages, select_body}
use microsql.Executor.Change.{delete_body}
use microsql.Executor.Table.{IsTable, table_page, read_page-table_page, get_num_pages-table}
use microsql.Executor.Delete.Select.{select_slots-SlotAfter}
use microsql.Executor.Table.{AreSound}
use microsql.Executor.Delete.Table.{TableAfter, delete_body-TableAfter}

module _ (d : Double) (expressions : List Expression) (st : Statement)
    (columns : List ColumnDefinition) (n : ℕ) (s s' : Session)
    (a : TableAfter d expressions st columns n 1 s s') where
  abbrev names : List Text
  names = column_names columns

  select_slots-PageDone :
      (i : ℕ) (rows : List Row)
      → 1 ≤ i
      → i < n
      → select_slots d expressions st.where_index columns names
          (table_page s' i)
          (num_slots (table_page s' i))
          0
          rows
        ≡ ok rows
  select_slots-PageDone i rows h k =
      let done = a.after i h k in
      select_slots-SlotAfter d expressions st.where_index columns names (table_page s i)
        (table_page s' i) (num_slots (table_page s' i)) 0 rows (omega arith)
        λ j l. done.after j (omega (arith, done.slots))

  select_pages-TableAfter :
      (left i : ℕ) (rows : List Row)
      → 1 ≤ i
      → i + left ≡ n
      → select_pages d expressions st.where_index columns names left i rows s' ≡ (s', ok rows)
  unfolding select_pages
  select_pages-TableAfter zero i rows h e = refl
  select_pages-TableAfter (suc left) i rows h e =
      ap (λ r. continue r.1 taken r.0) (read_page-table_page n s' i a.table (omega arith))
      ∙ ap
          (λ r.
            continue r (select_pages d expressions st.where_index columns names left (i + 1)) s')
          (select_slots-PageDone i rows h (omega arith))
      ∙ select_pages-TableAfter left (i + 1) rows (omega arith) (omega arith)
    where
      taken : Page → Io (List Row)
      taken page s =
          continue
            (select_slots d expressions st.where_index columns names page (num_slots page) 0 rows)
            (select_pages d expressions st.where_index columns names left (i + 1)) s

-- The names of SELECT *.
result_columns_all :
    (expressions : List Expression) (indices : List ℕ) (columns : List ColumnDefinition)
    → indices ≡ []
    → result_columns expressions indices columns ≡ ok (column_names columns)
unfolding result_columns
result_columns_all expressions [] columns e = refl
result_columns_all expressions (i ∷ indices) columns e = cc

-- On an open table file of n whole pages, one or more and fewer than 2^32, whose pages of data
-- are sound, after an execDelete that came to its end an execSelect of all columns with the same
-- WHERE clause succeeds and finds no row.
pub select_body-delete_body :
    (d : Double) (expressions : List Expression) (st all : Statement)
    (columns : List ColumnDefinition) (n count : ℕ) (s s' : Session)
    → IsTable n s
    → AreSound n 1 s
    → 1 ≤ n
    → all.select_columns ≡ []
    → all.where_index ≡ st.where_index
    → delete_body d expressions st columns s ≡ (s', ok count)
    → select_body d expressions all columns s' ≡ (s', ok (column_names columns, []))
unfolding select_body
select_body-delete_body d expressions st all columns n count s s' t sound some_page star same run =
    let a = delete_body-TableAfter d expressions st columns n count s s' t sound some_page run in
    let names = column_names columns in
    ap (λ r. continue r with_names s')
      (result_columns_all expressions all.select_columns columns star)
    ∙ ap (λ r. continue r.1 (with_pages names) r.0) (get_num_pages-table n s' a.table)
    ∙ ap
        (λ w.
          continue (select_pages d expressions w columns names (n - 1) 1 [] s').1
            (λ rows. pure (names, rows))
            (select_pages d expressions w columns names (n - 1) 1 [] s').0)
        same
    ∙ ap (λ r. continue r.1 (λ rows. pure (names, rows)) r.0)
        (select_pages-TableAfter d expressions st columns n s s' a (n - 1) 1 [] (omega arith)
          (omega arith))
  where
    with_pages : List Text → ℕ → Io (List Text × List Row)
    with_pages names pages s =
        let r = select_pages d expressions all.where_index columns names (pages - 1) 1 [] s in
        continue r.1 (λ rows. pure (names, rows)) r.0

    with_names : List Text → Io (List Text × List Row)
    with_names names s = continue (get_num_pages s).1 (with_pages names) (get_num_pages s).0
