-- ===== src/Executor/Delete/Table.antt =====
-- execDelete of src/executor/executor.cpp over the pages of a table.
use microsql.Base.{
  ℕ, zero, suc, ◌+◌, ◌-◌, ◌≤◌, ◌<◌, ◌≡◌, refl, sym, ap, ◌∙◌, ◌≢◌, inl, inr, List, arith, ◌==◌,
  ==_iff, Bool-cases, ok, err, fault, Text,
}
use mathlib.Core.Path.{subst}
use microsql.Ast.Statement.{Statement, ColumnDefinition}
use microsql.Ast.Expression.{Expression}
use microsql.Storage.Page.{Page, page_size, num_slots}
use microsql.Storage.Page.Slots.{IsValid}
use microsql.Catalog.{column_names}
use microsql.Executor.Error.{Exec}
use microsql.Executor.Values.{Double}
use microsql.Executor.Slots.{delete_slots}
use microsql.Executor.Session.{Session, Io, continue, write_page}
use microsql.Executor.Change.{delete_pages, delete_body}
use microsql.Executor.Table.{
  AreSound, IsTable, table_page, read_page-table_page, get_num_pages-table, put, write_page-put,
  put-IsTable, table_page-put, table_page-put_other, table_page-outside,
}
use microsql.Executor.Delete.Page.{SlotAfter, delete_slots-SlotAfter, delete_slots-SameOutside}

module _ (d : Double) (expressions : List Expression) (st : Statement)
    (columns : List ColumnDefinition) (n : ℕ) where
  abbrev names : List Text
  names = column_names columns

  -- A page in which each slot is as the WHERE clause has it.
  pub record PageDone (p q : Page) : Type 0 where
    pub sound : IsValid q
    pub slots : num_slots q ≡ num_slots p
    pub after :
        (j : ℕ) → j < num_slots p → SlotAfter d expressions st.where_index columns names p q j

  -- The pages from `i` on are done, and those before are as they were.
  pub record TableAfter (i : ℕ) (s s' : Session) : Type 0 where
    pub table : IsTable n s'
    pub early : (j : ℕ) → j < i → table_page s' j ≡ table_page s j
    pub after : (j : ℕ) → i ≤ j → j < n → PageDone (table_page s j) (table_page s' j)

  page_done :
      (p q : Page) (count count' : ℕ)
      → IsValid p
      → delete_slots d expressions st.where_index columns names (num_slots p) 0 (p, count)
        ≡ ok (q, count')
      → PageDone p q
  page_done p q count count' v run =
      let (sound, slots, after) =
        delete_slots-SlotAfter d expressions st.where_index columns names p q count count' v run in
      record { sound = sound; slots = slots; after = after }

  -- One page is read, done and written, and the rest of the run is on the table with that page.
  delete_pages-step :
      (s s' : Session) (left i count c : ℕ)
      → IsTable n s
      → i < n
      → IsValid (table_page s i)
      → delete_pages d expressions st columns (suc left) i count s ≡ (s', ok c)
      → (q : Page) × (count' : ℕ) × PageDone (table_page s i) q
        × (q.page_id ≡ i)
        × ((a : ℕ) → page_size ≤ a → q.bytes a ≡ 0)
        × (delete_pages d expressions st columns left (i + 1) count' (put q s) ≡ (s', ok c))
  unfolding delete_pages
  delete_pages-step s s' left i count c t h v run =
      by_page
        (delete_slots d expressions st.where_index columns names (num_slots (table_page s i)) 0
          (table_page s i, count))
        refl (sym first ∙ run)
    where
      pages_from : Page → Io ℕ
      pages_from page s =
          continue
            (delete_slots d expressions st.where_index columns names (num_slots page) 0
              (page, count))
            (λ r s.
              continue (write_page r.0 s).1
                (λ u. delete_pages d expressions st columns left (i + 1) r.1) (write_page r.0 s).0)
            s

      first :
          delete_pages d expressions st columns (suc left) i count s ≡ pages_from (table_page s i) s
      first = ap (λ r. continue r.1 pages_from r.0) (read_page-table_page n s i t h)

      rest : Page × ℕ → Io ℕ
      rest (q, count') s =
          continue (write_page q s).1
            (λ u. delete_pages d expressions st columns left (i + 1) count') (write_page q s).0

      by_page :
          (r : Exec (Page × ℕ))
          → delete_slots d expressions st.where_index columns names
              (num_slots (table_page s i))
              0
              (table_page s i, count)
            ≡ r
          → continue r rest s ≡ (s', ok c)
          → (q : Page) × (count' : ℕ) × PageDone (table_page s i) q
            × (q.page_id ≡ i)
            × ((a : ℕ) → page_size ≤ a → q.bytes a ≡ 0)
            × (delete_pages d expressions st columns left (i + 1) count' (put q s) ≡ (s', ok c))
      by_page (err e) at run = cc
      by_page (fault u) at run = cc
      by_page (ok (q, count')) at run =
          let same =
            delete_slots-SameOutside d expressions st.where_index columns names (table_page s i) q
              count count' v at in
          (
            q,
            count',
            page_done (table_page s i) q count count' v at,
            same.page_id,
            λ a b. same.bytes a b ∙ table_page-outside s i a b,
            ap
                  (λ r.
                    continue r.1 (λ u. delete_pages d expressions st columns left (i + 1) count')
                      r.0)
                  (sym (write_page-put n s q t))
                ∙ run,
          )

  delete_pages-none :
      (i count c : ℕ) (s s' : Session)
      → delete_pages d expressions st columns zero i count s ≡ (s', ok c)
      → s ≡ s'
  unfolding delete_pages
  delete_pages-none i count c s s' run = ap (λ r. r.0) run

  delete_pages-TableAfter :
      (left i count c : ℕ) (s s' : Session)
      → IsTable n s
      → AreSound n i s
      → i + left ≡ n
      → delete_pages d expressions st columns left i count s ≡ (s', ok c)
      → TableAfter i s s'
  delete_pages-TableAfter zero i count c s s' t sound e run =
      subst (TableAfter i s) (delete_pages-none i count c s s' run)
        (record { table = t; early = λ j h. refl; after = λ j h k. absurd (omega arith) })
  delete_pages-TableAfter (suc left) i count c s s' t sound e run =
      let p = table_page s i in
      let (q, count', done, id, clean, rest) =
        delete_pages-step s s' left i count c t (omega arith) (sound i (omega arith) (omega arith))
          run in
      let other : (j : ℕ) → j ≢ i → table_page (put q s) j ≡ table_page s j =
        λ j ne. table_page-put_other s q j (λ same. ne (sym same ∙ id)) in
      let here : table_page (put q s) i ≡ q =
        subst (λ k. table_page (put q s) k ≡ q) id (table_page-put s q clean) in
      let a : TableAfter (i + 1) (put q s) s' =
        delete_pages-TableAfter left (i + 1) count' c (put q s) s'
          (put-IsTable n s q t (omega (arith, id)))
          (λ j h k. subst IsValid (sym (other j (omega arith))) (sound j (omega arith) k))
          (omega arith) rest in
      record {
        table = a.table;
        early = λ j h. a.early j (omega arith) ∙ other j (omega arith);
        after = λ j h k. elim (Bool-cases (j == i)) [
          | inl same ↦
              subst (λ k. PageDone (table_page s k) (table_page s' k)) (sym ((==_iff j i).0 same))
                (subst (PageDone p) (sym (a.early i (omega arith) ∙ here)) done)
          | inr other_page ↦
              let ne : j ≢ i = ground arith in
              subst (λ p. PageDone p (table_page s' j)) (other j ne) (a.after j (omega arith) k)
        ];
      }

  -- On a device that takes writes and a table file of n whole pages, open on a stream that has
  -- not failed, one or more and fewer than 2^32, whose pages of data are sound, where execDelete
  -- comes to its end, the reserved page is as it was, every page of data is sound and has the
  -- slots it had, and each slot either held no row, or held a row for which the WHERE clause
  -- holds and is empty, or held a row for which it does not hold and holds what it held.
  pub delete_body-TableAfter :
      (c : ℕ) (s s' : Session)
      → IsTable n s
      → AreSound n 1 s
      → 1 ≤ n
      → delete_body d expressions st columns s ≡ (s', ok c)
      → TableAfter 1 s s'
  unfolding delete_body
  delete_body-TableAfter c s s' t sound some_page run =
      let opened : delete_body d expressions st columns s
          ≡ delete_pages d expressions st columns (n - 1) 1 0 s =
        ap (λ r. continue r.1 (λ pages. delete_pages d expressions st columns (pages - 1) 1 0) r.0)
          (get_num_pages-table n s t) in
      delete_pages-TableAfter (n - 1) 1 0 c s s' t sound (omega arith) (sym opened ∙ run)
