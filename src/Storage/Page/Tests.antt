-- ===== src/Storage/Page/Tests.antt =====
-- Runs of the page operations, and their theorems at concrete pages.
use microsql.Base.{
  ℕ, ◌+◌, ◌%◌, ◌≤◌, ◌<◌, ◌≡◌, refl, none, some, List, [], ◌∷◌, arith, ◌==◌, if◌then◌else◌, take, ok,
}
use microsql.Base.Memory.{read16, write16, read_bytes}
use microsql.Storage.Page.{
  Page, place, slot_deleted, page_size, header_size, num_slots, free_ptr, free_space, init,
  insert_row, read_row, delete_row, update_row,
}
use microsql.Storage.Page.Slots.{slot_offset, slot_length, slot_view, IsValid, IsLive}
use microsql.Storage.Page.Init.{init-IsValid}
use microsql.Storage.Page.Insert.{HasRoom, insert_row-IsValid, slot_view-insert_row}
use microsql.Storage.Page.Delete.{slot_view-delete_row}
use microsql.Storage.Page.Update.{Accepts, update_row-IsValid, slot_view-update_row}
use microsql.Storage.Page.Read.{bytes_of, read_row-slot_view, read_row-inside}

-- Memory with arbitrary contents.
abbrev raw : Page
raw = record { bytes = λ a. a % 251; page_id = 7 }

abbrev fresh : Page
fresh = init raw 1

abbrev row_a : List ℕ
row_a = 10 ∷ 11 ∷ 12 ∷ []

abbrev row_b : List ℕ
row_b = 20 ∷ 21 ∷ []

abbrev one_row : Page
one_row = (insert_row fresh row_a 3).0

abbrev two_rows : Page
two_rows = (insert_row one_row row_b 2).0

fresh-HasRoom : HasRoom fresh 3
unfolding slot_view insert_row init free_ptr free_space num_slots place slot_deleted slot_length
    read_row read16 write16 read_bytes
fresh-HasRoom = omega arith

one_row-HasRoom : HasRoom one_row 2
unfolding slot_view insert_row init free_ptr free_space num_slots place slot_deleted slot_length
    read_row read16 write16 read_bytes
one_row-HasRoom = omega arith

two_rows_run :
    (slot_view two_rows 0 ≡ some row_a)
    × (slot_view two_rows 1 ≡ some row_b)
    × (free_ptr two_rows ≡ 4091)
    × (free_space two_rows ≡ 4067)
unfolding slot_view insert_row init free_ptr free_space num_slots place slot_deleted slot_length
    read_row read16 write16 read_bytes
two_rows_run = (refl, refl, refl, refl)

one_row-IsValid : IsValid one_row
one_row-IsValid = insert_row-IsValid fresh row_a 3 (init-IsValid raw 1)

two_rows-IsValid : IsValid two_rows
two_rows-IsValid = insert_row-IsValid one_row row_b 2 one_row-IsValid

row_a-IsLive : IsLive one_row 0
unfolding slot_view insert_row init free_ptr free_space num_slots place slot_deleted slot_length
    read_row read16 write16 read_bytes
row_a-IsLive = (omega arith, omega arith)

row_b-IsLive : IsLive two_rows 1
unfolding slot_view insert_row init free_ptr free_space num_slots place slot_deleted slot_length
    read_row read16 write16 read_bytes
row_b-IsLive = (omega arith, omega arith)

insert_row-IsValid_example : IsValid (insert_row one_row row_b 2).0
insert_row-IsValid_example = insert_row-IsValid one_row row_b 2 one_row-IsValid

slot_view-insert_row_example :
    (num_slots (insert_row one_row row_b 2).0 ≡ num_slots one_row + 1)
    × ((j : ℕ)
        → slot_view (insert_row one_row row_b 2).0 j
          ≡ (if j == num_slots one_row then some (take 2 row_b) else slot_view one_row j))
slot_view-insert_row_example =
    slot_view-insert_row one_row row_b 2 one_row-IsValid one_row-HasRoom (omega arith)

slot_view-delete_row_example :
    ((delete_row two_rows 1).1 ≡ ok tt)
    × (num_slots (delete_row two_rows 1).0 ≡ num_slots two_rows)
    × ((j : ℕ)
        → slot_view (delete_row two_rows 1).0 j ≡ (if j == 1 then none else slot_view two_rows j))
slot_view-delete_row_example = slot_view-delete_row two_rows 1 two_rows-IsValid row_b-IsLive

abbrev row_c : List ℕ
row_c = 30 ∷ 31 ∷ 32 ∷ 33 ∷ []

-- Slot 1 holds two bytes, so four bytes move.
row_c-Accepts : Accepts two_rows 1 4
unfolding slot_view insert_row init free_ptr free_space num_slots place slot_deleted slot_length
    read_row read16 write16 read_bytes
row_c-Accepts = ((omega arith, omega arith), omega arith, omega arith)

slot_view-update_row_example :
    ((update_row two_rows 1 row_c 4).1 ≡ ok (slot_offset (update_row two_rows 1 row_c 4).0 1))
    × (num_slots (update_row two_rows 1 row_c 4).0 ≡ num_slots two_rows)
    × ((j : ℕ)
        → slot_view (update_row two_rows 1 row_c 4).0 j
          ≡ (if j == 1 then some (take 4 row_c) else slot_view two_rows j))
slot_view-update_row_example =
    slot_view-update_row two_rows 1 row_c 4 two_rows-IsValid row_c-Accepts (omega arith)

update_row-IsValid_example : IsValid (update_row two_rows 1 row_c 4).0
update_row-IsValid_example = update_row-IsValid two_rows 1 row_c 4 two_rows-IsValid (omega arith)

read_row-slot_view_example : bytes_of two_rows (read_row two_rows 1) ≡ slot_view two_rows 1
read_row-slot_view_example = read_row-slot_view two_rows 1

read_row_run : read_row two_rows 1 ≡ ok (4091, 2)
unfolding slot_view insert_row init free_ptr free_space num_slots place slot_deleted slot_length
    read_row read16 write16 read_bytes
read_row_run = refl

read_row-inside_example : (header_size ≤ 4091) × (4091 + 2 ≤ page_size) × (0 < 2)
read_row-inside_example = read_row-inside two_rows 1 4091 2 two_rows-IsValid read_row_run
