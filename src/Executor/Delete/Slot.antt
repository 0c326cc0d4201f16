-- ===== src/Executor/Delete/Slot.antt =====
-- The loop of execDelete over the slots of a page, in src/executor/executor.cpp.
use microsql.Base.{
  ℕ, ◌+◌, ◌<◌, ◌≡◌, sym, ap, ◌∙◌, fun_ext, ◌≢◌, true, false, none, List, arith, lt→ltb,
}
use microsql.Ast.Statement.{ColumnDefinition}
use microsql.Storage.Page.{Page, num_slots, slot_deleted, delete_row}
use microsql.Storage.Page.Slots.{IsLive, IsValid, slot_view, slot_length, slot_offset}
use microsql.Storage.Page.Delete.{delete_row_kept}
use microsql.Storage.Page.Read.{read_row_live}
use microsql.Storage.Row.{deserialize_row}
use microsql.Executor.Slots.{internal, read_slot_row}

pub slot_deleted-IsLive :
    (p : Page) (i : ℕ) → i < num_slots p → slot_deleted p i ≡ false → IsLive p i
unfolding slot_deleted slot_length
slot_deleted-IsLive p i h e = (h, ground arith)

pub slot_deleted-view : (p : Page) (i : ℕ) → slot_deleted p i ≡ true → slot_view p i ≡ none
unfolding slot_deleted slot_view slot_length
slot_deleted-view p i e = ground arith

pub slot_view-deleted :
    (p : Page) (i : ℕ) → i < num_slots p → slot_view p i ≡ none → slot_deleted p i ≡ true
unfolding slot_deleted slot_view slot_length
slot_view-deleted p i h e = ground (arith, lt→ltb i (num_slots p) h)

pub IsLive-slot_deleted : (p : Page) (i : ℕ) → IsLive p i → slot_deleted p i ≡ false
unfolding slot_deleted slot_length
IsLive-slot_deleted p i live = ground (arith, live.0, live.1)

read_slot_row_live :
    (p : Page) (i : ℕ) (columns : List ColumnDefinition)
    → IsLive p i
    → read_slot_row p i columns
      ≡ internal (deserialize_row (λ a. p.bytes (slot_offset p i + a)) columns)
unfolding read_slot_row
read_slot_row_live p i columns live = rw (read_row_live p i live, read_slot_row)

-- A deletion leaves the rows of the other slots readable as they were.
pub read_slot_row-delete_row :
    (p : Page) (i j : ℕ) (columns : List ColumnDefinition)
    → IsValid p
    → IsLive p i
    → IsLive p j
    → j ≢ i
    → IsLive (delete_row p i).0 j
      × (read_slot_row (delete_row p i).0 j columns ≡ read_slot_row p j columns)
read_slot_row-delete_row p i j columns v li lj ne =
    let (live, offset, bytes) = delete_row_kept p i v li j lj ne in
    let q = (delete_row p i).0 in
    (
      live,
      read_slot_row_live q j columns live
          ∙ ap (λ m. internal (deserialize_row m columns))
              (fun_ext λ a.
                ap (λ o. q.bytes (o + a)) offset
                ∙ bytes (slot_offset p j + a) (omega (arith, v.above j lj)))
          ∙ sym (read_slot_row_live p j columns lj),
    )
