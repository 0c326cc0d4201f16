-- ===== src/Storage/Page/Read.antt =====
-- Page::readRow.
use microsql.Base.{ℕ, ◌+◌, ◌≤◌, ◌<◌, ◌≡◌, Option, none, some, List, arith, Outcome, ok, err, fault}
use microsql.Base.Memory.{read_bytes}
use microsql.Storage.Page.{Page, PageError, page_size, header_size, read_row, slot_deleted}
use microsql.Storage.Page.Slots.{slot_offset, slot_length, slot_view, IsLive, IsValid}

-- The bytes that a caller finds through the pointer and the length.
abbrev pub bytes_of : Page → Outcome PageError (ℕ × ℕ) → Option (List ℕ)
bytes_of p (ok (offset, len)) = some (read_bytes p.bytes offset len)
bytes_of p (err e) = none
bytes_of p (fault u) = none

-- readRow gives a pointer and a length to exactly the bytes that the slot holds, and fails
-- exactly where the slot is outside the directory or deleted.
pub read_row-slot_view : (p : Page) (i : ℕ) → bytes_of p (read_row p i) ≡ slot_view p i
unfolding read_row slot_deleted slot_view slot_length slot_offset
read_row-slot_view p i = ground arith

pub read_row_live :
    (p : Page) (i : ℕ) → IsLive p i → read_row p i ≡ ok (slot_offset p i, slot_length p i)
unfolding read_row slot_deleted slot_length slot_offset
read_row_live p i live = ground (arith, live.0, live.1)

read_row-IsLive : (p : Page) (i : ℕ) {r : ℕ × ℕ} → read_row p i ≡ ok r → IsLive p i
unfolding read_row slot_deleted slot_length
read_row-IsLive p i h = ground arith

-- On a sound page a row that readRow returns is not empty and lies between the header and the end
-- of the page.
pub read_row-inside :
    (p : Page) (i offset len : ℕ)
    → IsValid p
    → read_row p i ≡ ok (offset, len)
    → (header_size ≤ offset) × (offset + len ≤ page_size) × (0 < len)
read_row-inside p i offset len v h =
    let live = read_row-IsLive p i h in
    let e : (offset ≡ slot_offset p i) × (len ≡ slot_length p i) =
      ground (arith, read_row_live p i live) in
    omega (arith, v.above i live, v.below i live, v.room, e.0, e.1, live.1)
