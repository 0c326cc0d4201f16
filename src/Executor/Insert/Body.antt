-- ===== src/Executor/Insert/Body.antt =====
-- execInsert of src/executor/executor.cpp where its checks pass.
use microsql.Base.{ℕ, suc, ◌+◌, ◌-◌, ◌≤◌, ◌<◌, ◌≡◌, ap, ◌∙◌, List, length, ok}
use microsql.Ast.Statement.{Statement, ColumnDefinition}
use microsql.Ast.Expression.{Expression}
use microsql.Storage.Page.{page_size, header_size, slot_entry_size}
use microsql.Storage.Row.{Row, serialize_row}
use microsql.Storage.Row.Encoding.{InRangeRow}
use microsql.Executor.Values.{Double}
use microsql.Executor.Rows.{row_from_insert_values}
use microsql.Executor.Slots.{internal}
use microsql.Executor.Session.{Session, Io, lift, continue, ◌>>=◌}
use microsql.Executor.Insert.{check_count, check_primary_key, insert_bytes, insert_body}
use microsql.Executor.Table.{IsTable}
use microsql.Executor.Table.{AreSound}
use microsql.Executor.Insert.Stored.{RowStored, insert_bytes-serialize_row}

-- On a device that takes writes and a table file of n whole pages, open on a stream that has not
-- failed, one or more and fewer than 2^32 - 1, whose pages of data are sound, where the values
-- make a row, its checks pass, its values are in range and its bytes fit an empty page,
-- execInsert succeeds: one page of data has one slot more, which reads as that row, its other
-- slots and the other pages are as they were, and that page is a new one only if no page had
-- room.
pub insert_body-RowStored :
    (d : Double) (expressions : List Expression) (st : Statement) (columns : List ColumnDefinition)
    (row : Row) (bytes : List ℕ) (n : ℕ) (s : Session)
    → row_from_insert_values d (length expressions) expressions st columns ≡ ok row
    → check_count st row columns ≡ ok tt
    → check_primary_key d row columns s ≡ (s, ok tt)
    → serialize_row row columns ≡ ok bytes
    → InRangeRow row
    → 0 < length bytes
    → length bytes + slot_entry_size ≤ page_size - header_size
    → IsTable n s
    → AreSound n 1 s
    → 1 ≤ n
    → suc n < 0x1_0000_0000
    → (s' : Session) × (insert_body d expressions st columns s ≡ (s', ok tt))
      × RowStored row columns bytes n s s'
unfolding insert_body
insert_body-RowStored d expressions st columns row bytes n s made counted free run range some_byte
      fits t sound some_page small =
    let (s', inserted, stored) =
      insert_bytes-serialize_row row columns bytes n s run range some_byte fits t sound some_page
        small in
    (
      s',
      ap (λ r. continue r from_row s) made
          ∙ ap (λ r. continue r (λ u. from_key row) s) counted
          ∙ ap (λ r. continue r.1 (λ u. from_bytes row) r.0) free
          ∙ ap (λ r. continue (internal r) insert_bytes s) run
          ∙ inserted,
      stored,
    )
  where
    from_bytes : Row → Io (Unit {0})
    from_bytes row = lift (internal (serialize_row row columns)) >>= insert_bytes

    from_key : Row → Io (Unit {0})
    from_key row = check_primary_key d row columns >>= λ u. from_bytes row

    from_row : Row → Io (Unit {0})
    from_row row = lift (check_count st row columns) >>= λ u. from_key row
