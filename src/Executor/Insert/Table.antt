-- ===== src/Executor/Insert/Table.antt =====
-- execInsert of src/executor/executor.cpp over the pages of a table: the bytes of a row.
use microsql.Base.{
  ℕ, suc, ◌+◌, ◌-◌, ◌*◌, ◌%◌, ◌≤◌, ◌<◌, ◌≡◌, sym, ap, ◌∙◌, ◌⊎◌, inl, inr, Bool, List, arith,
  if◌then◌else◌, length, ok,
}
use mathlib.Core.Path.{subst}
use microsql.Storage.Page.{Page, page_size, header_size, insert_row, slot_entry_size}
use microsql.Storage.Page.Insert.{HasRoom}
use microsql.Executor.Session.{Session, Io, pure, continue, ◌>>=◌, read_page}
use microsql.Executor.Insert.{insert_row_into_page, insert_into_pages, insert_bytes}
use microsql.Storage.TableFile
use microsql.Storage.TableFile.Pages.{blank_page, written, allocate_page-written}
use microsql.Storage.Page.Init.{init_empty, init-IsValid, init_outside, page_id-init}
use microsql.Executor.Session.{on_file}
use microsql.Executor.Table.{
  put_new-IsTable, from_file, IsTable, table_page, read_page-table_page, get_num_pages-table, put,
  table_page-put, table_page-put_other,
}
use microsql.Executor.Table.{AreSound}
use microsql.Executor.Insert.Added.{RowAdded, IsPage, insert_row_into_page-put, put-RowAdded}
use microsql.Executor.Insert.Pages.{Taken, insert_into_pages-Taken}

module _ (bytes : List ℕ) where
  abbrev len : ℕ
  len = length bytes

  -- A new page at the end of the table.
  new_page-put :
      (n : ℕ) (s : Session)
      → IsTable n s
      → on_file TableFile.allocate_page s ≡ (put (blank_page n) s, ok n)
  new_page-put n s t =
      ap from_file (allocate_page-written s.file s.disk n t.usable t.size t.bound)
      ∙ ap
          (λ i.
            (record s { disk = written s.file s.disk (i * page_size) (blank_page n).bytes }, ok n))
          (sym (page_id-init (record { bytes = λ a. 0; page_id = 0 }) n))

  blank_page-IsPage : (n : ℕ) → IsPage n (blank_page n)
  blank_page-IsPage n =
      let zeros : Page = record { bytes = λ a. 0; page_id = 0 } in
      record {
        page_id = page_id-init zeros n;
        sound = init-IsValid zeros n;
        clean = init_outside zeros n;
      }

  on_new_page :
      (n : ℕ) (s : Session)
      → IsTable n s
      → suc n < 0x1_0000_0000
      → 1 ≤ n
      → HasRoom (blank_page n) len
      → (s' : Session) × ((on_file TableFile.allocate_page >>= λ id.
              read_page id >>= λ page. insert_row_into_page page bytes len)
            s
          ≡ (s', ok tt))
        × RowAdded bytes n (suc n) n (blank_page n) s s'
  on_new_page n s t small some_page room =
      let s1 = put (blank_page n) s in
      let blank = blank_page-IsPage n in
      let t1 = put_new-IsTable n s (blank_page n) t blank.page_id small in
      let there : table_page s1 n ≡ blank_page n =
        subst (λ i. table_page s1 i ≡ blank_page n) blank.page_id
          (table_page-put s (blank_page n) blank.clean) in
      (
        put (insert_row (blank_page n) bytes len).0 s1,
        ap
              (λ r.
                continue r.1 (λ id. read_page id >>= λ page. insert_row_into_page page bytes len)
                  r.0)
              (new_page-put n s t)
            ∙ ap (λ r. continue r.1 (λ page. insert_row_into_page page bytes len) r.0)
                (read_page-table_page (suc n) s1 n t1 (omega arith))
            ∙ ap (λ page. insert_row_into_page page bytes len s1) there
            ∙ insert_row_into_page-put bytes (suc n) s1 (blank_page n) t1 room,
        put-RowAdded bytes n (suc n) n s s1 (blank_page n) t1 some_page (omega arith) blank room
            (λ j ne l.
              table_page-put_other s (blank_page n) j (λ same. ne (sym same ∙ blank.page_id))),
      )

  -- The rest of execInsert for a length in 16 bits and a number of pages.
  with_length : ℕ → ℕ → Io (Unit {0})
  with_length l pages = insert_into_pages bytes l (pages - 1) 1 >>= λ inserted.
      if inserted
      then pure tt
      else (on_file TableFile.allocate_page >>= λ id.
          read_page id >>= λ page. insert_row_into_page page bytes l)

  insert_bytes-with_length :
      (n : ℕ) (s : Session)
      → IsTable n s
      → len < 0x1_0000
      → insert_bytes bytes s ≡ with_length len n s
  unfolding insert_bytes with_length
  insert_bytes-with_length n s t small =
      let short : len % 0x1_0000 ≡ len = omega arith in
      ap (λ r. continue r.1 (with_length (len % 0x1_0000)) r.0) (get_num_pages-table n s t)
      ∙ ap (λ l. with_length l n s) short

  -- A page of the table takes the row, or a new one does.
  unfoldable pub IsAdded : ℕ → Session → Session → Type 0
  IsAdded n s s' =
      ((k : ℕ) × RowAdded bytes n n k (table_page s k) s s')
      ⊎ RowAdded bytes n (suc n) n (blank_page n) s s'
        × ((j : ℕ) → 1 ≤ j → j < n → ¬ HasRoom (table_page s j) len)

  -- The bytes of a row that fits an empty page go to the first page with room, or to a new page.
  pub insert_bytes-IsAdded :
      (n : ℕ) (s : Session)
      → IsTable n s
      → AreSound n 1 s
      → 1 ≤ n
      → suc n < 0x1_0000_0000
      → 0 < len
      → len + slot_entry_size ≤ page_size - header_size
      → (s' : Session) × (insert_bytes bytes s ≡ (s', ok tt)) × IsAdded n s s'
  unfolding IsAdded Taken with_length
  insert_bytes-IsAdded n s t sound some_page small some_byte fits =
      by_pages
        (insert_into_pages-Taken bytes n (n - 1) 1 s t sound (omega arith) (omega arith) some_byte)
    where
      inserted : Bool → Io (Unit {0})
      inserted b =
          if b
          then pure tt
          else (on_file TableFile.allocate_page >>= λ id.
              read_page id >>= λ page. insert_row_into_page page bytes len)

      opened : insert_bytes bytes s ≡ with_length len n s
      opened = insert_bytes-with_length n s t (omega arith)

      blank_room : HasRoom (blank_page n) len
      blank_room =
          let (_, _, _, free) = init_empty (record { bytes = λ a. 0; page_id = 0 }) n in
          (some_byte, omega (arith, free))

      by_pages :
          Taken bytes n 1 s (insert_into_pages bytes len (n - 1) 1 s)
          → (s' : Session) × (insert_bytes bytes s ≡ (s', ok tt)) × IsAdded n s s'
      by_pages (inl (k, s', run, h, added)) =
          (s', opened ∙ ap (λ r. continue r.1 inserted r.0) run, inl (k, added))
      by_pages (inr (run, full)) =
          let (s', made, added) = on_new_page n s t small some_page blank_room in
          (s', opened ∙ ap (λ r. continue r.1 inserted r.0) run ∙ made, inr (added, full))
