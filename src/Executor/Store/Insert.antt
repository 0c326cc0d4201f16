-- ===== src/Executor/Store/Insert.antt =====
-- execInsert of src/executor/executor.cpp on a well-formed table.
use microsql.Base.{ℕ, suc, ◌+◌, ◌-◌, ◌≤◌, ◌<◌, ◌≡◌, some, List, length, ok}
use microsql.Ast.Statement.{Statement, ColumnDefinition}
use microsql.Ast.Expression.{Expression}
use microsql.Storage.Page.{header_size, page_size, slot_entry_size}
use microsql.Storage.Row.{Row, serialize_row}
use microsql.Storage.Row.Encoding.{InRangeRow}
use microsql.Executor.Slots.{primary_key_index}
use microsql.Executor.Rows.{row_from_insert_values}
use microsql.Executor.Values.{Double}
use microsql.Executor.Session.{Session}
use microsql.Executor.Insert.{check_count, check_primary_key, insert_body}
use microsql.Executor.Unique.{check_primary_key-KeyAt}
use microsql.Executor.Insert.Stored.{RowStored}
use microsql.Executor.Insert.Body.{insert_body-RowStored}
use microsql.Executor.Store.{IsStore}
use microsql.Executor.Store.Added.{RowStored-IsStore}

-- On a well-formed table of n pages, one or more and fewer than 2^32 - 1 (its file open on a
-- stream that has not failed, on a device that takes writes, with sound pages of data whose slots
-- hold the bytes of rows, no two with one value in the key column), where the key column is the
-- primary key, the equality of doubles does not depend on the order, the values make a row, its
-- checks pass, its values are in range and its bytes fit an empty page, execInsert succeeds, adds
-- the row and leaves a well-formed table, so no two rows have one primary key.
pub insert_body-IsStore :
    (d : Double) (expressions : List Expression) (st : Statement) (columns : List ColumnDefinition)
    (row : Row) (bytes : List ℕ) (pk n : ℕ) (s : Session)
    → ((a b : ℕ) → d.eq a b ≡ d.eq b a)
    → primary_key_index columns ≡ some pk
    → row_from_insert_values d (length expressions) expressions st columns ≡ ok row
    → check_count st row columns ≡ ok tt
    → check_primary_key d row columns s ≡ (s, ok tt)
    → serialize_row row columns ≡ ok bytes
    → InRangeRow row
    → 0 < length bytes
    → length bytes + slot_entry_size ≤ page_size - header_size
    → IsStore d columns pk n s
    → 1 ≤ n
    → suc n < 0x1_0000_0000
    → (s' : Session) × (insert_body d expressions st columns s ≡ (s', ok tt))
      × (stored : RowStored row columns bytes n s s') × IsStore d columns pk stored.pages s'
insert_body-IsStore d expressions st columns row bytes pk n s comm key made counted free run range
      some_byte fits store some_page small =
    let (s', inserted, stored) =
      insert_body-RowStored d expressions st columns row bytes n s made counted free run range
        some_byte fits store.table store.sound some_page small in
    let (value, column, absent) =
      check_primary_key-KeyAt d row columns pk n s s store.table key free in
    (
      s',
      inserted,
      stored,
      RowStored-IsStore row columns bytes n s s' stored d pk value comm store column run range
          absent,
    )
