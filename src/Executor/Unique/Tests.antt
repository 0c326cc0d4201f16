-- ===== src/Executor/Unique/Tests.antt =====
-- A table whose only page of data holds NULL and 5 in its primary key.
use microsql.Base.{
  ℕ, ◌-◌, ◌*◌, ◌≤◌, ◌<◌, ◌≡◌, refl, true, false, none, some, List, [], ◌∷◌, arith, ltb,
  if◌then◌else◌, get_elem?, ok, codes,
}
use microsql.Base.Int.{pos}
use microsql.Ast.Statement.{ColumnDefinition, integer, column_size}
use microsql.Base.Memory.{read16, write16, memcpy, read_bytes}
use microsql.Storage.Row.{deserialize_row, read_columns, read_value, le_value, from_u64}
use microsql.Storage.Page.{
  page_size, Page, num_slots, init, insert_row, free_ptr, free_space, place, slot_deleted, read_row,
}
use microsql.Storage.Page.Slots.{IsLive}
use microsql.Storage.TableFile
use microsql.Storage.TableFile.{contents, lookup, num_pages}
use microsql.Executor.Session
use microsql.Executor.Session.{Session, get_num_pages}
use microsql.Executor.Scan.{primary_key_exists, key_in_pages, key_page}
use microsql.Executor.Insert.{check_primary_key}
use microsql.Executor.Key.{KeyAt}
use microsql.Executor.Table.{IsTable, table_page}
use microsql.Executor.Unique.{check_primary_key-KeyAt}
use microsql.Executor.Slots.{primary_key_index, key_in_slots, key_in_slot}
use microsql.Storage.Row.{Value}
use microsql.Executor.Whole.{whole}
use microsql.Executor.Values.{value_eq}
use microsql.Executor.Slots.{read_slot_row}
use microsql.Storage.Row.{int}

abbrev columns : List ColumnDefinition
columns =
    record {
      name = codes "id";
      type = integer;
      text_length = pos 0;
      not_null = false;
      primary_key = true;
    }
    ∷ []

abbrev fresh : Page
fresh = init (record { bytes = λ a. 0; page_id = 1 }) 1

-- One row holds NULL, the other 5.
abbrev one_row : Page
one_row = (insert_row fresh (1 ∷ []) 1).0

abbrev page : Page
page = (insert_row one_row (0 ∷ 5 ∷ 0 ∷ 0 ∷ 0 ∷ 0 ∷ 0 ∷ 0 ∷ 0 ∷ []) 9).0

abbrev file_bytes : ℕ → ℕ
file_bytes a = if ltb a page_size then 0 else page.bytes (a - page_size)

abbrev session : Session
session = record {
  file = record { file_path = codes "t.ms"; is_open = true; failed = false };
  disk = record {
    files = (codes "t.ms", record { bytes = file_bytes; size = 2 * page_size }) ∷ [];
    catalog = none;
    writable = true;
  };
}

session_size : (contents session.file session.disk).size ≡ 2 * page_size
unfolding contents lookup
session_size = refl

session-IsTable : IsTable 2 session
session-IsTable = record {
  usable = record { opened = refl; sound = refl; device = refl };
  size = session_size;
  bound = omega arith;
}

check_run : check_primary_key whole (int (pos 7) ∷ []) columns session ≡ (session, ok tt)
unfolding check_primary_key primary_key_index primary_key_exists key_in_pages key_page get_num_pages
    Session.read_page num_pages TableFile.read_page contents lookup key_in_slots key_in_slot
    num_slots insert_row init free_ptr free_space place slot_deleted read_row read16 write16 memcpy
    read_bytes read_slot_row deserialize_row read_columns read_value le_value from_u64 column_size
    value_eq
check_run = refl

key_index : primary_key_index columns ≡ some 0
unfolding primary_key_index
key_index = refl

check_primary_key-KeyAt_example :
    (value : Value) × (get_elem? (int (pos 7) ∷ []) 0 ≡ some value)
    × ((k : ℕ)
        → 1 ≤ k
        → k < 2
        → (j : ℕ) → IsLive (table_page session k) j
        → KeyAt whole columns 0 value (table_page session k) none j false)
check_primary_key-KeyAt_example =
    check_primary_key-KeyAt whole (int (pos 7) ∷ []) columns 0 2 session session session-IsTable
      key_index check_run
