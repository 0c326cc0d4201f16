-- ===== src/Executor/Delete/Select.antt =====
-- execSelect after execDelete, over a page, in src/executor/executor.cpp.
use microsql.Base.{ℕ, zero, suc, ◌+◌, ◌<◌, ◌≡◌, refl, Option, List, arith, ok, Text}
use microsql.Ast.Statement.{ColumnDefinition}
use microsql.Ast.Expression.{Expression}
use microsql.Storage.Page.{Page, num_slots}
use microsql.Storage.Page.Slots.{IsValid}
use microsql.Storage.Row.{Row}
use microsql.Executor.Values.{Double}
use microsql.Executor.Slots.{delete_slots, select_slot, select_slots}
use microsql.Executor.Delete.Slot.{slot_view-deleted, IsLive-slot_deleted}
use microsql.Executor.Delete.Page.{SlotAfter, was_empty, deleted, kept, delete_slots-SlotAfter}

module _ (d : Double) (expressions : List Expression) (where_index : Option ℕ)
    (columns : List ColumnDefinition) (names : List Text) (p q : Page) where
  select_slot-SlotAfter :
      (j : ℕ) (rows : List Row)
      → j < num_slots q
      → SlotAfter d expressions where_index columns names p q j
      → select_slot d expressions where_index columns names q j rows ≡ ok rows
  unfolding select_slot
  select_slot-SlotAfter j rows h (was_empty x y) = rw (slot_view-deleted q j h y, select_slot)
  select_slot-SlotAfter j rows h (deleted x m y) = rw (slot_view-deleted q j h y, select_slot)
  select_slot-SlotAfter j rows h (kept x m y live read) =
      rw (IsLive-slot_deleted q j live, read, m, select_slot)

  pub select_slots-SlotAfter :
      (left slot : ℕ) (rows : List Row)
      → slot + left ≡ num_slots q
      → ((j : ℕ) → j < num_slots q → SlotAfter d expressions where_index columns names p q j)
      → select_slots d expressions where_index columns names q left slot rows ≡ ok rows
  unfolding select_slots
  select_slots-SlotAfter zero slot rows e h = refl
  select_slots-SlotAfter (suc left) slot rows e h =
      rw (select_slot-SlotAfter slot rows (omega arith) (h slot (omega arith)), select_slots)
        (select_slots-SlotAfter left (slot + 1) rows (omega arith) h)

  -- Where the loop of execDelete over a sound page comes to its end, the loop of execSelect with
  -- the same WHERE clause and the same names then finds no row on that page.
  pub select_slots-delete_slots :
      (count count' : ℕ) (rows : List Row)
      → IsValid p
      → delete_slots d expressions where_index columns names (num_slots p) 0 (p, count)
        ≡ ok (q, count')
      → select_slots d expressions where_index columns names q (num_slots q) 0 rows ≡ ok rows
  select_slots-delete_slots count count' rows v run =
      let (_, slots, after) =
        delete_slots-SlotAfter d expressions where_index columns names p q count count' v run in
      select_slots-SlotAfter (num_slots q) 0 rows (omega arith)
        (λ j h. after j (omega (arith, slots)))
