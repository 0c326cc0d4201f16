-- ===== src/Storage/Page/Shrink.antt =====
-- Page::updateRow where the new row fits in the place of the old one.
use microsql.Base.{
  ℕ, ◌+◌, ◌≤◌, ◌<◌, ◌≡◌, sym, ap, ◌∙◌, ◌⊎◌, inr, false, some, List, arith, ◌==◌, lt→ltb, length,
  take,
}
use microsql.Base.Memory.{
  memcpy, read16, write16, read16-write16_self, read16-write16_ne, read16-memcpy_ne,
  read_bytes-congr, write16_outside, memcpy_outside, read_bytes-memcpy,
}
use microsql.Storage.Page.{Page, page_size, slot_at, num_slots, free_ptr}
use microsql.Storage.Page.Slots.{slot_offset, slot_length, slot_view, IsLive, IsValid, SameExcept}
use microsql.Storage.Page.Rewrite.{Rewritten}

module _ (p : Page) (v : IsValid p) (i : ℕ) (live : IsLive p i) (row : List ℕ) (row_len : ℕ)
    (some_row : 0 < row_len) (fits : row_len ≤ slot_length p i)
    (enough : row_len ≤ length row) where
  abbrev pub kept : Page
  kept = record p {
    bytes = write16 (memcpy p.bytes (slot_offset p i) row row_len) (slot_at i + 2) row_len;
  }

  entry : (j : ℕ) → j < num_slots p → slot_at j + 4 ≤ slot_offset p i
  entry j h = omega (arith, v.room, v.above i live)

  old_inside : slot_offset p i + slot_length p i ≤ page_size
  old_inside = v.below i live

  read16-kept :
      (at : ℕ)
      → (at + 2 ≤ slot_at i + 2) ⊎ (slot_at i + 4 ≤ at)
      → at + 2 ≤ slot_offset p i
      → read16 kept.bytes at ≡ read16 p.bytes at
  read16-kept at h below =
      read16-write16_ne _ (slot_at i + 2) _ _ (omega arith)
      ∙ read16-memcpy_ne p.bytes _ row row_len at (omega arith)

  num_slots-kept : num_slots kept ≡ num_slots p
  unfolding num_slots
  num_slots-kept = read16-kept 4 (omega arith) (omega (arith, entry i live.0))

  free_ptr-kept : free_ptr kept ≡ free_ptr p
  unfolding free_ptr
  free_ptr-kept = read16-kept 6 (omega arith) (omega (arith, entry i live.0))

  pub slot_offset-kept : (j : ℕ) → j < num_slots p → slot_offset kept j ≡ slot_offset p j
  unfolding slot_offset
  slot_offset-kept j h = read16-kept (slot_at j) (omega arith) (omega (arith, entry j h))

  slot_length-kept : slot_length kept i ≡ row_len
  unfolding slot_length
  slot_length-kept = read16-write16_self _ (slot_at i + 2) row_len (omega (arith, old_inside))

  SameExcept-kept : SameExcept i p kept
  unfolding slot_length
  SameExcept-kept = record {
    slots = num_slots-kept;
    offset = λ j h ne. slot_offset-kept j h;
    length = λ j h ne. read16-kept (slot_at j + 2) (omega arith) (omega (arith, entry j h));
    row = λ j l ne. read_bytes-congr p.bytes kept.bytes _ _ λ a h k.
        write16_outside _ (slot_at i + 2) _ a (omega (arith, v.above j l, v.room, live.0))
        ∙ memcpy_outside p.bytes _ row row_len a
            (omega (arith, v.apart i j live l (λ e. ne (sym e))));
  }

  slot_view-kept : slot_view kept i ≡ some (take row_len row)
  unfolding slot_view
  slot_view-kept =
      let full : (row_len == 0) ≡ false = ground arith in
      rw
        (
          num_slots-kept,
          slot_length-kept,
          slot_offset-kept i live.0,
          full,
          lt→ltb i (num_slots p) live.0,
        )
        (ap some (
          read_bytes-congr (memcpy p.bytes (slot_offset p i) row row_len) kept.bytes _ _
            (λ a h k. write16_outside _ (slot_at i + 2) _ a (omega (arith, entry i live.0)))
          ∙ read_bytes-memcpy p.bytes _ row row_len enough))

  pub Rewritten-kept : Rewritten p kept i row row_len
  Rewritten-kept = record {
    same = SameExcept-kept;
    holds = slot_view-kept;
    room = omega (arith, num_slots-kept, free_ptr-kept, v.room);
    inside = omega (arith, free_ptr-kept);
    length = slot_length-kept;
    above = omega (arith, free_ptr-kept, slot_offset-kept i live.0, v.above i live);
    clear = inr (slot_offset-kept i live.0, fits);
  }
