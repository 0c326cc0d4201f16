-- ===== src/Storage/Page.antt =====
-- The slotted page of src/storage/page.h and src/storage/page.cpp.
-- A page is its bytes, little-endian as on the machines the program is built for, and its id.
-- `uint16_t` results are written with their wrap-around; an `int` here stays below 2^19.
pub mod Slots
mod Place
pub mod Insert
pub mod Delete
mod Rewrite
mod Move
mod Shrink
pub mod Update
pub mod Read
pub mod Init
mod Tests
use microsql.Base.{
  ℕ, ◌+◌, ◌-◌, ◌*◌, ◌%◌, ◌^◌, Bool, List, leb, ltb, ◌==◌, if◌then◌else◌, Outcome, ok, err,
}
use microsql.Base.Memory.{Memory, memcpy, read16, write16}

pub data PageError : Type 0 where
  invalid_row_length page_full slot_out_of_bounds deleted_slot : PageError

abbrev pub page_size : ℕ
page_size = 4096

abbrev pub header_size : ℕ
header_size = 16

abbrev pub slot_entry_size : ℕ
slot_entry_size = 4

abbrev pub header_offset_num_slots : ℕ
header_offset_num_slots = 4

abbrev pub header_offset_free_ptr : ℕ
header_offset_free_ptr = 6

pub record Page : Type 0 where
  pub bytes : Memory
  pub page_id : ℕ

-- Conversion of an `int` difference to `uint16_t`; the subtrahend is below 2^32.
abbrev pub sub_u16 : ℕ → ℕ → ℕ
sub_u16 a b = (a + 0x1_0000_0000 - b) % 0x1_0000

unfoldable pub num_slots : Page → ℕ
num_slots p = read16 p.bytes header_offset_num_slots

unfoldable pub free_ptr : Page → ℕ
free_ptr p = read16 p.bytes header_offset_free_ptr

unfoldable pub free_space : Page → ℕ
free_space p = sub_u16 (free_ptr p) (header_size + num_slots p * slot_entry_size)

-- The directory entry of a slot.
abbrev pub slot_at : ℕ → ℕ
slot_at i = header_size + i * slot_entry_size

-- A zero length means the slot is deleted.
unfoldable pub slot_deleted : Page → ℕ → Bool
slot_deleted p i = read16 p.bytes (slot_at i + 2) == 0

unfoldable pub init : Page → ℕ → Page
init p id =
    let cleared : Memory = λ a. if ltb a page_size then 0 else p.bytes a in
    record {
      bytes = write16 (write16 cleared header_offset_num_slots 0) header_offset_free_ptr page_size;
      page_id = id;
    }

-- The bytes after a row is placed at `offset` and entered in the directory at `slot`.
unfoldable pub place : Memory → (slot offset : ℕ) → List ℕ → ℕ → Memory
place m slot offset row row_len =
    write16 (write16 (memcpy m offset row row_len) slot offset) (slot + 2) row_len

unfoldable pub insert_row : Page → List ℕ → ℕ → Page × Outcome PageError (Unit {0})
insert_row p row row_len =
    let slots = num_slots p in
    let slot_dir_end = slot_at slots in
    let offset = sub_u16 (free_ptr p) row_len in
    if row_len == 0
    then (p, err invalid_row_length)
    else if ltb (free_space p) (row_len + slot_entry_size)
    then (p, err page_full)
    else (
      record p {
        bytes =
            write16
              (write16 (place p.bytes slot_dir_end offset row row_len) header_offset_free_ptr
                offset)
              header_offset_num_slots ((slots + 1) % 0x1_0000);
      },
      ok tt,
    )

-- The offset of the row in the page, which the source returns as a pointer, and its length.
unfoldable pub read_row : Page → ℕ → Outcome PageError (ℕ × ℕ)
read_row p i =
    if leb (num_slots p) i
    then err slot_out_of_bounds
    else if slot_deleted p i
    then err deleted_slot
    else ok (read16 p.bytes (slot_at i), read16 p.bytes (slot_at i + 2))

unfoldable pub delete_row : Page → ℕ → Page × Outcome PageError (Unit {0})
delete_row p i =
    if leb (num_slots p) i
    then (p, err slot_out_of_bounds)
    else if slot_deleted p i
    then (p, err deleted_slot)
    else (record p { bytes = write16 p.bytes (slot_at i + 2) 0 }, ok tt)

-- The offset of the updated row comes back where the source returns a pointer to it.
unfoldable pub update_row : Page → ℕ → List ℕ → ℕ → Page × Outcome PageError ℕ
update_row p i row row_len =
    let slot = slot_at i in
    let old_offset = read16 p.bytes slot in
    let old_len = read16 p.bytes (slot + 2) in
    let new_offset = sub_u16 (free_ptr p) row_len in
    if leb (num_slots p) i
    then (p, err slot_out_of_bounds)
    else if slot_deleted p i
    then (p, err deleted_slot)
    else if row_len == 0
    then (p, err invalid_row_length)
    else if ltb old_len row_len
    then if ltb (free_space p) row_len then (p, err page_full) else (
      record p {
        bytes =
            write16 (place p.bytes slot new_offset row row_len) header_offset_free_ptr new_offset;
      },
      ok new_offset,
    )
    else (
      record p { bytes = write16 (memcpy p.bytes old_offset row row_len) (slot + 2) row_len },
      ok old_offset,
    )
