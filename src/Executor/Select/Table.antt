-- ===== src/Executor/Select/Table.antt =====
-- execSelect of src/executor/executor.cpp over the pages of a table.
use microsql.Base.{
  ℕ, zero, suc, ◌+◌, ◌-◌, ◌≤◌, ◌<◌, ◌≡◌, refl, sym, ap, ◌∙◌, Option, List, [], ◌++◌, arith, ok, err,
  fault, Text,
}
use mathlib.Core.Path.{subst}
use mathlib.Core.List.{append_assoc, append-nil}
use microsql.Ast.Statement.{Statement, ColumnDefinition}
use microsql.Ast.Expression.{Expression}
use microsql.Storage.Page.{Page, num_slots}
use microsql.Storage.Row.{Row}
use microsql.Executor.Error.{Exec}
use microsql.Executor.Values.{Double}
use microsql.Executor.Slots.{select_slots}
use microsql.Executor.Session.{Session, Io, continue, get_num_pages, pure}
use microsql.Executor.Scan.{result_columns, select_pages, select_body}
use microsql.Executor.Table.{IsTable, table_page, read_page-table_page, get_num_pages-table}
use microsql.Executor.Select.{PageRows, select_slots-PageRows}

module _ (d : Double) (expressions : List Expression) (where_index : Option ℕ)
    (columns : List ColumnDefinition) (names : List Text) (s : Session) where
  -- The rows of a number of pages from one on, in their order.
  pub data TableRows : ℕ → ℕ → List Row → Type 0 where
    no_pages : {i : ℕ} → TableRows zero i []
    one_page :
        {left i : ℕ} {xs ys : List Row}
        → PageRows d expressions where_index columns names
            (table_page s i)
            (num_slots (table_page s i))
            0
            xs
        → TableRows left (i + 1) ys
        → TableRows (suc left) i (xs ++ ys)

  select_pages-step :
      (n left i : ℕ) (rows out : List Row) (s' : Session)
      → IsTable n s
      → i < n
      → select_pages d expressions where_index columns names (suc left) i rows s ≡ (s', ok out)
      → (xs : List Row) × PageRows d expressions where_index columns names
          (table_page s i)
          (num_slots (table_page s i))
          0
          xs
        × (select_pages d expressions where_index columns names left (i + 1) (rows ++ xs) s
            ≡ (s', ok out))
  unfolding select_pages
  select_pages-step n left i rows out s' t h run =
      by_page
        (select_slots d expressions where_index columns names (table_page s i)
          (num_slots (table_page s i)) 0 rows)
        refl (sym first ∙ run)
    where
      taken : Page → Io (List Row)
      taken page s =
          continue
            (select_slots d expressions where_index columns names page (num_slots page) 0 rows)
            (select_pages d expressions where_index columns names left (i + 1)) s

      first :
          select_pages d expressions where_index columns names (suc left) i rows s
          ≡ taken (table_page s i) s
      first = ap (λ r. continue r.1 taken r.0) (read_page-table_page n s i t h)

      by_page :
          (r : Exec (List Row))
          → select_slots d expressions where_index columns names
              (table_page s i)
              (num_slots (table_page s i))
              0
              rows
            ≡ r
          → continue r (select_pages d expressions where_index columns names left (i + 1)) s
            ≡ (s', ok out)
          → (xs : List Row) × PageRows d expressions where_index columns names
              (table_page s i)
              (num_slots (table_page s i))
              0
              xs
            × (select_pages d expressions where_index columns names left (i + 1) (rows ++ xs) s
                ≡ (s', ok out))
      by_page (err e) at run = cc
      by_page (fault u) at run = cc
      by_page (ok rows') at run =
          let (xs, a, e) =
            select_slots-PageRows d expressions where_index columns names (table_page s i)
              (num_slots (table_page s i)) 0 rows rows' at in
          (
            xs,
            a,
            ap (λ r. select_pages d expressions where_index columns names left (i + 1) r s) (sym e)
                ∙ run,
          )

  select_pages-none :
      (i : ℕ) (rows out : List Row) (s' : Session)
      → select_pages d expressions where_index columns names zero i rows s ≡ (s', ok out)
      → (s' ≡ s) × (out ≡ rows)
  unfolding select_pages
  select_pages-none i rows out s' run = (sym (ap (λ r. r.0) run), cc)

  select_pages-TableRows :
      (n left i : ℕ) (rows out : List Row) (s' : Session)
      → IsTable n s
      → i + left ≡ n
      → select_pages d expressions where_index columns names left i rows s ≡ (s', ok out)
      → (s' ≡ s) × (xs : List Row) × TableRows left i xs × (out ≡ rows ++ xs)
  select_pages-TableRows n zero i rows out s' t e run =
      let (same, none_added) = select_pages-none i rows out s' run in
      (same, [], no_pages, none_added ∙ sym (append-nil rows))
  select_pages-TableRows n (suc left) i rows out s' t e run =
      let (xs, a, rest) = select_pages-step n left i rows out s' t (omega arith) run in
      let (same, ys, b, e') =
        select_pages-TableRows n left (i + 1) (rows ++ xs) out s' t (omega arith) rest in
      (same, xs ++ ys, one_page a b, e' ∙ append_assoc rows xs ys)

-- On a device that takes writes and a table file of n whole pages, open on a stream that has not
-- failed, one or more and fewer than 2^32, where execSelect comes to its end, the table is
-- unchanged, the names are those of the select list, and the rows are, in the order of the pages
-- and their slots, the row of each slot that holds a row for which the WHERE clause holds, and
-- nothing else.
pub select_body-TableRows :
    (d : Double) (expressions : List Expression) (st : Statement) (columns : List ColumnDefinition)
    (n : ℕ) (s s' : Session) (names : List Text) (rows : List Row)
    → IsTable n s
    → 1 ≤ n
    → select_body d expressions st columns s ≡ (s', ok (names, rows))
    → (s' ≡ s)
      × (result_columns expressions st.select_columns columns ≡ ok names)
      × TableRows d expressions st.where_index columns names s (n - 1) 1 rows
unfolding select_body
select_body-TableRows d expressions st columns n s s' names rows t some_page run =
    by_names (result_columns expressions st.select_columns columns) refl run
  where
    selected : List Text → ℕ → Session → Session × Exec (List Row)
    selected names pages = select_pages d expressions st.where_index columns names (pages - 1) 1 []

    with_pages : List Text → ℕ → Io (List Text × List Row)
    with_pages names pages s =
        let r = selected names pages s in continue r.1 (λ rows. pure (names, rows)) r.0

    with_names : List Text → Io (List Text × List Row)
    with_names names s = continue (get_num_pages s).1 (with_pages names) (get_num_pages s).0

    Goal : Type 0
    Goal =
        (s' ≡ s)
        × (result_columns expressions st.select_columns columns ≡ ok names)
        × TableRows d expressions st.where_index columns names s (n - 1) 1 rows

    by_rows :
        (r : Session × Exec (List Row)) (names' : List Text)
        → selected names' n s ≡ r
        → result_columns expressions st.select_columns columns ≡ ok names'
        → continue {B = List Text × List Row} r.1 (λ rows. pure (names', rows)) r.0
          ≡ (s', ok (names, rows))
        → Goal
    by_rows (s1, err e) names' at named run = cc
    by_rows (s1, fault u) names' at named run = cc
    by_rows (s1, ok out) names' at named run =
        let same_names : names' ≡ names = cc in
        let same_rows : out ≡ rows = cc in
        let same_end : s1 ≡ s' = ap (λ r. r.0) run in
        let (same, xs, a, e) =
          select_pages-TableRows d expressions st.where_index columns names' s n (n - 1) 1 [] out s1
            t (omega arith) at in
        (
          sym same_end ∙ same,
          named ∙ ap ok same_names,
          subst (λ names. TableRows d expressions st.where_index columns names s (n - 1) 1 rows)
              same_names
              (subst (TableRows d expressions st.where_index columns names' s (n - 1) 1)
                (sym e ∙ same_rows) a),
        )

    by_names :
        (r : Exec (List Text))
        → result_columns expressions st.select_columns columns ≡ r
        → continue r with_names s ≡ (s', ok (names, rows))
        → Goal
    by_names (err e) at run = cc
    by_names (fault u) at run = cc
    by_names (ok names') at run =
        by_rows (selected names' n s) names' refl at
          (ap (λ r. continue r.1 (with_pages names') r.0) (sym (get_num_pages-table n s t)) ∙ run)
