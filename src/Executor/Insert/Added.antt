-- ===== src/Executor/Insert/Added.antt =====
-- A row in a page of a table, under execInsert of src/executor/executor.cpp.
use microsql.Base.{
  ℕ, ◌+◌, ◌≤◌, ◌<◌, ◌≡◌, refl, sym, ap, ◌∙◌, ◌≢◌, some, List, arith, ◌==◌, if◌then◌else◌, length,
  take_all, ok,
}
use mathlib.Core.Path.{subst}
use microsql.Storage.Page.{Page, page_size, num_slots, insert_row}
use microsql.Storage.Page.Slots.{IsValid, slot_view}
use microsql.Storage.Page.Insert.{
  HasRoom, insert_row-ok, insert_row-IsValid, slot_view-insert_row, insert_row_outside,
}
use microsql.Executor.Slots.{internal}
use microsql.Executor.Session.{Session, continue, write_page}
use microsql.Executor.Insert.{insert_row_into_page}
use microsql.Executor.Table.{
  IsTable, table_page, put, write_page-put, put-IsTable, table_page-put, table_page-put_other,
  table_page-outside,
}

-- A table of m pages in which page k is `before` with one more slot, which holds the bytes, and the
-- other pages are those of a table of n pages.
pub record RowAdded (bytes : List ℕ) (n m k : ℕ) (before : Page) (s s' : Session) : Type 0 where
  pub table : IsTable m s'
  pub data_page : 1 ≤ k
  pub inside : k < m
  pub sound : IsValid (table_page s' k)
  pub slots : num_slots (table_page s' k) ≡ num_slots before + 1
  pub views :
      (j : ℕ)
      → slot_view (table_page s' k) j
        ≡ (if j == num_slots before then some bytes else slot_view before j)
  pub others : (j : ℕ) → j ≢ k → j < n → table_page s' j ≡ table_page s j

-- A sound page with a number and nothing behind its bytes.
pub record IsPage (k : ℕ) (p : Page) : Type 0 where
  pub page_id : p.page_id ≡ k
  pub sound : IsValid p
  pub clean : (a : ℕ) → page_size ≤ a → p.bytes a ≡ 0

pub table_page-IsPage : (i : ℕ) (s : Session) → IsValid (table_page s i) → IsPage i (table_page s i)
table_page-IsPage i s v = record { page_id = refl; sound = v; clean = table_page-outside s i }

module _ (bytes : List ℕ) where
  abbrev len : ℕ
  len = length bytes

  pub insert_row_into_page-put :
      (m : ℕ) (s : Session) (p : Page)
      → IsTable m s
      → HasRoom p len
      → insert_row_into_page p bytes len s ≡ (put (insert_row p bytes len).0 s, ok tt)
  unfolding insert_row_into_page
  insert_row_into_page-put m s p t room =
      ap (λ r. continue (internal r) (λ u. write_page (insert_row p bytes len).0) s)
        ((insert_row-ok p bytes len).1 room)
      ∙ write_page-put m s (insert_row p bytes len).0 t

  pub put-RowAdded :
      (n m k : ℕ) (s s1 : Session) (p : Page)
      → IsTable m s1
      → 1 ≤ k
      → k < m
      → IsPage k p
      → HasRoom p len
      → ((j : ℕ) → j ≢ k → j < n → table_page s1 j ≡ table_page s j)
      → RowAdded bytes n m k p s (put (insert_row p bytes len).0 s1)
  put-RowAdded n m k s s1 p t low h page room others =
      let q = (insert_row p bytes len).0 in
      let (same_id, outside) = insert_row_outside p bytes len page.sound room in
      let id : q.page_id ≡ k = same_id ∙ page.page_id in
      let here : table_page (put q s1) k ≡ q =
        subst (λ i. table_page (put q s1) i ≡ q) id
          (table_page-put s1 q (λ a b. outside a b ∙ page.clean a b)) in
      let (slots, views) = slot_view-insert_row p bytes len page.sound room (omega arith) in
      record {
        table = put-IsTable m s1 q t (omega (arith, id));
        data_page = low;
        inside = h;
        sound = subst IsValid (sym here) (insert_row-IsValid p bytes len page.sound);
        slots = ap num_slots here ∙ slots;
        views = λ j.
            ap (λ p. slot_view p j) here
            ∙ views j
            ∙ ap (λ b. if j == num_slots p then some b else slot_view p j) (take_all bytes);
        others = λ j ne l. table_page-put_other s1 q j (λ same. ne (sym same ∙ id)) ∙ others j ne l;
      }
