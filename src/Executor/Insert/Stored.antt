-- ===== src/Executor/Insert/Stored.antt =====
-- execInsert of src/executor/executor.cpp over a table: the row that is there afterwards.
use microsql.Base.{
  ℕ, suc, ◌+◌, ◌-◌, ◌≤◌, ◌<◌, ◌≡◌, refl, ap, ◌∙◌, ◌⊎◌, inl, inr, some, List, [], ◌∷◌, arith,
  ==_refl, length, ok,
}
use microsql.Base.Memory.{Memory, Holds, Holds-read_bytes, read_bytes}
use mathlib.Core.Path.{subst}
use microsql.Ast.Statement.{ColumnDefinition}
use microsql.Storage.Page.{Page, page_size, header_size, num_slots, slot_entry_size}
use microsql.Storage.Page.Slots.{IsLive, slot_view, slot_offset, slot_length}
use microsql.Storage.Page.Insert.{HasRoom}
use microsql.Storage.Page.Read.{read_row_live}
use microsql.Storage.TableFile.Pages.{blank_page}
use microsql.Storage.Row.{Row, serialize_row}
use microsql.Storage.Row.Encoding.{InRangeRow}
use microsql.Storage.Row.Accepts.{row_round_trip}
use microsql.Executor.Slots.{internal, read_slot_row}
use microsql.Executor.Session.{Session}
use microsql.Executor.Insert.{insert_bytes}
use microsql.Executor.Table.{IsTable, table_page}
use microsql.Executor.Table.{AreSound}
use microsql.Executor.Insert.Added.{RowAdded}
use microsql.Executor.Insert.Table.{IsAdded, insert_bytes-IsAdded}

pub slot_view-some :
    (p : Page) (j : ℕ) (bytes : List ℕ)
    → slot_view p j ≡ some bytes
    → IsLive p j × (read_bytes p.bytes (slot_offset p j) (slot_length p j) ≡ bytes)
unfolding slot_view slot_offset slot_length
slot_view-some p j bytes h = ground arith

-- Memory from an offset on.
Holds-shift :
    (m : Memory) (off at : ℕ) (bytes : List ℕ)
    → Holds m (off + at) bytes
    → Holds (λ a. m (off + a)) at bytes
Holds-shift m off at [] h = tt
Holds-shift m off at (b ∷ bytes) (e, h) =
    let next : off + at + 1 ≡ off + (at + 1) = omega arith in
    (e, Holds-shift m off (at + 1) bytes (subst (λ o. Holds m o bytes) next h))

-- A slot that holds the bytes of a row is read as that row.
pub read_slot_row-serialize_row :
    (p : Page) (j : ℕ) (bytes : List ℕ) (row : Row) (columns : List ColumnDefinition)
    → slot_view p j ≡ some bytes
    → InRangeRow row
    → serialize_row row columns ≡ ok bytes
    → read_slot_row p j columns ≡ ok row
unfolding read_slot_row
read_slot_row-serialize_row p j bytes row columns h range run =
    let (live, held) = slot_view-some p j bytes h in
    let off = slot_offset p j in
    let start : off ≡ off + 0 = omega arith in
    let here : Holds p.bytes (off + 0) bytes =
      subst (λ o. Holds p.bytes o bytes) start
        (subst (Holds p.bytes off) held (Holds-read_bytes p.bytes off (slot_length p j))) in
    let back =
      row_round_trip (λ a. p.bytes (off + a)) row columns bytes range run
        (Holds-shift p.bytes off 0 bytes here) in
    rw (read_row_live p j live, read_slot_row) (ap internal back)

-- A table of n pages with one more row, which is in a page that it had, or in a new one if no page
-- had room.
pub record RowStored (row : Row) (columns : List ColumnDefinition) (bytes : List ℕ) (n : ℕ)
    (s s' : Session) : Type 0 where
  pub pages : ℕ
  pub page : ℕ
  pub before : Page
  pub added : RowAdded bytes n pages page before s s'
  pub reads : read_slot_row (table_page s' page) (num_slots before) columns ≡ ok row
  pub place :
      (pages ≡ n) × (before ≡ table_page s page)
      ⊎ (pages ≡ suc n)
        × (page ≡ n)
        × (before ≡ blank_page n)
        × ((j : ℕ) → 1 ≤ j → j < n → ¬ HasRoom (table_page s j) (length bytes))

module _ (row : Row) (columns : List ColumnDefinition) (bytes : List ℕ) (n : ℕ) (s : Session) where
  reads_new :
      (m k : ℕ) (before : Page) (s' : Session)
      → serialize_row row columns ≡ ok bytes
      → InRangeRow row
      → RowAdded bytes n m k before s s'
      → read_slot_row (table_page s' k) (num_slots before) columns ≡ ok row
  reads_new m k before s' run range added =
      read_slot_row-serialize_row (table_page s' k) (num_slots before) bytes row columns
        (added.views (num_slots before) ∙ rw (==_refl (num_slots before))) range run

  IsAdded-RowStored :
      (s' : Session)
      → serialize_row row columns ≡ ok bytes
      → InRangeRow row
      → IsAdded bytes n s s'
      → RowStored row columns bytes n s s'
  unfolding IsAdded
  IsAdded-RowStored s' run range (inl (k, added)) = record {
    pages = n;
    page = k;
    before = table_page s k;
    added = added;
    reads = reads_new n k (table_page s k) s' run range added;
    place = inl (refl, refl);
  }
  IsAdded-RowStored s' run range (inr (added, full)) = record {
    pages = suc n;
    page = n;
    before = blank_page n;
    added = added;
    reads = reads_new (suc n) n (blank_page n) s' run range added;
    place = inr (refl, refl, refl, full);
  }

  -- The same for the bytes of a row, which is then read from the new slot.
  pub insert_bytes-serialize_row :
      serialize_row row columns ≡ ok bytes
      → InRangeRow row
      → 0 < length bytes
      → length bytes + slot_entry_size ≤ page_size - header_size
      → IsTable n s
      → AreSound n 1 s
      → 1 ≤ n
      → suc n < 0x1_0000_0000
      → (s' : Session) × (insert_bytes bytes s ≡ (s', ok tt)) × RowStored row columns bytes n s s'
  insert_bytes-serialize_row run range some_byte fits t sound some_page small =
      let (s', inserted, added) =
        insert_bytes-IsAdded bytes n s t sound some_page small some_byte fits in
      (s', inserted, IsAdded-RowStored s' run range added)
