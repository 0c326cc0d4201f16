-- ===== src/Storage/Page/Place.antt =====
-- What `place` leaves in a page: the row, its directory entry, and all else as it was.
use microsql.Base.{ℕ, ◌+◌, ◌≤◌, ◌<◌, ◌≡◌, ◌⊎◌, List, arith, length, take, ◌∙◌}
use microsql.Base.Memory.{
  Memory, memcpy, read16, read_bytes, read16-write16_self, read16-write16_ne, read16-memcpy_ne,
  read_bytes-congr, read_bytes-memcpy, memcpy_outside, write16_outside,
}
use microsql.Storage.Page.{place}

-- An address outside the four bytes of the entry and the bytes of the row.
abbrev pub Spared : (slot offset row_len at n : ℕ) → Type 0
Spared slot offset row_len at n =
    ((at + n ≤ slot) ⊎ (slot + 4 ≤ at)) × ((at + n ≤ offset) ⊎ (offset + row_len ≤ at))

module _ (m : Memory) (slot offset : ℕ) (row : List ℕ) (row_len : ℕ) where
  pub read16-place_offset :
      offset < 0x1_0000 → read16 (place m slot offset row row_len) slot ≡ offset
  unfolding place
  read16-place_offset h =
      read16-write16_ne _ (slot + 2) row_len slot (omega arith)
      ∙ read16-write16_self (memcpy m offset row row_len) slot offset h

  pub read16-place_length :
      row_len < 0x1_0000 → read16 (place m slot offset row row_len) (slot + 2) ≡ row_len
  unfolding place
  read16-place_length h = read16-write16_self _ (slot + 2) row_len h

  pub read16-place_ne :
      (at : ℕ)
      → Spared slot offset row_len at 2
      → read16 (place m slot offset row row_len) at ≡ read16 m at
  unfolding place
  read16-place_ne at h =
      read16-write16_ne _ (slot + 2) row_len at (omega arith)
      ∙ read16-write16_ne _ slot offset at (omega arith)
      ∙ read16-memcpy_ne m offset row row_len at (omega arith)

  pub place_outside :
      (at : ℕ) → Spared slot offset row_len at 1 → place m slot offset row row_len at ≡ m at
  unfolding place
  place_outside at h =
      write16_outside _ (slot + 2) row_len at (omega arith)
      ∙ write16_outside _ slot offset at (omega arith)
      ∙ memcpy_outside m offset row row_len at (omega arith)

  pub read_bytes-place :
      slot + 4 ≤ offset
      → row_len ≤ length row
      → read_bytes (place m slot offset row row_len) offset row_len ≡ take row_len row
  unfolding place
  read_bytes-place apart enough =
      read_bytes-congr (memcpy m offset row row_len) (place m slot offset row row_len) offset
        row_len
        (λ a h k.
          write16_outside _ (slot + 2) row_len a (omega arith)
          ∙ write16_outside _ slot offset a (omega arith))
      ∙ read_bytes-memcpy m offset row row_len enough
