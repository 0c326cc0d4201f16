-- ===== src/Executor/Saved/Changes.antt =====
-- The saved catalog under execDelete and execUpdate of src/executor/executor.cpp.
use microsql.Base.{
  ℕ, zero, suc, ◌+◌, ◌-◌, ◌%◌, inl, inr, Option, none, some, List, Option-cases, length,
}
use microsql.Ast.Statement.{Statement, ColumnDefinition}
use microsql.Ast.Expression.{Expression}
use microsql.Storage.Page.{Page, num_slots, slot_deleted, update_row}
use microsql.Storage.Row.{Row, serialize_row}
use microsql.Executor.Values.{Double}
use microsql.Executor.Slots.{internal, read_slot_row}
use microsql.Executor.Session.{Io, pure, lift, ◌>>=◌}
use microsql.Executor.Change.{
  delete_pages, delete_body, assigned_key, updated_row, check_updated_key, update_in_page,
  update_found, update_slot, update_slots, update_pages, update_body,
}
use microsql.Executor.Saved.{KeepsCatalog, KeepsCatalog-bind, KeepsCatalog-pure, KeepsCatalog-if}
use microsql.Executor.Saved.Bodies.{
  after_lift, after_read, after_pages, after_write, check_key-KeepsCatalog,
}

module _ (d : Double) (expressions : List Expression) (s : Statement)
    (columns : List ColumnDefinition) where
  delete_pages-KeepsCatalog :
      (left i count : ℕ) → KeepsCatalog (delete_pages d expressions s columns left i count)
  unfolding delete_pages
  delete_pages-KeepsCatalog zero i count = KeepsCatalog-pure count
  delete_pages-KeepsCatalog (suc left) i count = after_read i _ λ page.
      after_lift _ _
        λ (page', count'). after_write page' _ (delete_pages-KeepsCatalog left (i + 1) count')

  pub delete_body-KeepsCatalog : KeepsCatalog (delete_body d expressions s columns)
  unfolding delete_body
  delete_body-KeepsCatalog = after_pages _ λ pages. delete_pages-KeepsCatalog (pages - 1) 1 0

  check_updated_key-KeepsCatalog :
      (page : Page) (i slot : ℕ) (row : Row)
      → KeepsCatalog (check_updated_key d expressions s columns page i slot row)
  unfolding check_updated_key
  check_updated_key-KeepsCatalog page i slot row =
      elim (Option-cases (assigned_key columns s.assignments)) [
        | inl no_key ↦ rw (no_key, check_updated_key) (KeepsCatalog-pure tt)
        | inr (pk, key) ↦
            rw (key, check_updated_key)
              (check_key-KeepsCatalog d columns pk (some (page, i, slot)) row)
      ]

  update_in_page-KeepsCatalog :
      (page : Page) (i slot : ℕ) (row : Row)
      → KeepsCatalog (update_in_page d expressions s columns page i slot row)
  unfolding update_in_page
  update_in_page-KeepsCatalog page i slot row =
      let updated = λ (bytes : List ℕ). update_row page slot bytes (length bytes % 0x1_0000) in
      let keep : List ℕ → ℕ → Io Page = λ bytes u. pure (updated bytes).0 in
      let write : List ℕ → Io Page = λ bytes. lift (internal (updated bytes).1) >>= keep bytes in
      KeepsCatalog-bind (check_updated_key d expressions s columns page i slot row)
        (λ u. lift (internal (serialize_row row columns)) >>= write)
        (check_updated_key-KeepsCatalog page i slot row)
        λ u. after_lift (internal (serialize_row row columns)) write λ bytes.
          after_lift (internal (updated bytes).1) (keep bytes)
            λ u. KeepsCatalog-pure (updated bytes).0

  update_found-KeepsCatalog :
      (page : Page) (i slot count : ℕ) (row : Option Row)
      → KeepsCatalog (update_found d expressions s columns page i slot count row)
  unfolding update_found
  update_found-KeepsCatalog page i slot count none = KeepsCatalog-pure {A = Page × ℕ} (page, count)
  update_found-KeepsCatalog page i slot count (some row) =
      KeepsCatalog-bind (update_in_page d expressions s columns page i slot row) _
        (update_in_page-KeepsCatalog page i slot row)
        λ page'. KeepsCatalog-pure {A = Page × ℕ} (page', count + 1)

  update_slot-KeepsCatalog :
      (i slot : ℕ) (r : Page × ℕ) → KeepsCatalog (update_slot d expressions s columns i slot r)
  unfolding update_slot
  update_slot-KeepsCatalog i slot (page, count) =
      KeepsCatalog-if (slot_deleted page slot) _ _ (KeepsCatalog-pure {A = Page × ℕ} (page, count))
        (after_lift (read_slot_row page slot columns) _ λ row.
          after_lift (updated_row d expressions s columns row) _
            λ changed. update_found-KeepsCatalog page i slot count changed)

  update_slots-KeepsCatalog :
      (left i slot : ℕ) (r : Page × ℕ)
      → KeepsCatalog (update_slots d expressions s columns left i slot r)
  unfolding update_slots
  update_slots-KeepsCatalog zero i slot r = KeepsCatalog-pure r
  update_slots-KeepsCatalog (suc left) i slot r =
      KeepsCatalog-bind (update_slot d expressions s columns i slot r) _
        (update_slot-KeepsCatalog i slot r) λ r'. update_slots-KeepsCatalog left i (slot + 1) r'

  update_pages-KeepsCatalog :
      (left i count : ℕ) → KeepsCatalog (update_pages d expressions s columns left i count)
  unfolding update_pages
  update_pages-KeepsCatalog zero i count = KeepsCatalog-pure count
  update_pages-KeepsCatalog (suc left) i count = after_read i _ λ page.
      KeepsCatalog-bind (update_slots d expressions s columns (num_slots page) i 0 (page, count)) _
        (update_slots-KeepsCatalog (num_slots page) i 0 (page, count))
        λ (page', count'). after_write page' _ (update_pages-KeepsCatalog left (i + 1) count')

  pub update_body-KeepsCatalog : KeepsCatalog (update_body d expressions s columns)
  unfolding update_body
  update_body-KeepsCatalog = after_pages _ λ pages. update_pages-KeepsCatalog (pages - 1) 1 0
