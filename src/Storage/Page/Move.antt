-- ===== src/Storage/Page/Move.antt =====
-- Page::updateRow where the row grows: it moves to the free pointer.
use microsql.Base.{
  ℕ, ◌+◌, ◌≤◌, ◌<◌, ◌≡◌, ap, ◌∙◌, ◌≢◌, ◌⊎◌, inl, false, some, List, arith, ◌==◌, lt→ltb, length,
  take,
}
use microsql.Base.Memory.{
  read16, write16, read16-write16_self, read16-write16_ne, read_bytes-congr, write16_outside,
}
use microsql.Storage.Page.{Page, slot_at, num_slots, free_ptr, free_space, sub_u16, place}
use microsql.Storage.Page.Place.{
  Spared, read16-place_offset, read16-place_length, read16-place_ne, place_outside,
  read_bytes-place,
}
use microsql.Storage.Page.Slots.{
  slot_offset, slot_length, slot_view, IsLive, IsValid, free_space-IsValid, SameExcept,
}
use microsql.Storage.Page.Rewrite.{Rewritten}

module _ (p : Page) (v : IsValid p) (i : ℕ) (live : IsLive p i) (row : List ℕ) (row_len : ℕ)
    (grows : slot_length p i < row_len) (room : row_len ≤ free_space p)
    (enough : row_len ≤ length row) where
  abbrev pub offset : ℕ
  offset = sub_u16 (free_ptr p) row_len

  abbrev pub moved : Page
  moved = record p { bytes = write16 (place p.bytes (slot_at i) offset row row_len) 6 offset }

  offset_lem : offset + row_len ≡ free_ptr p
  offset_lem = omega (arith, v.room, v.inside, free_space-IsValid v)

  entry : slot_at i + 4 ≤ offset
  entry = omega (arith, live.0, v.room, free_space-IsValid v, offset_lem)

  read16-moved :
      (at : ℕ)
      → (at + 2 ≤ 6) ⊎ (8 ≤ at)
      → Spared (slot_at i) offset row_len at 2
      → read16 moved.bytes at ≡ read16 p.bytes at
  read16-moved at h s =
      read16-write16_ne _ 6 _ _ (omega arith) ∙ read16-place_ne p.bytes _ offset row row_len at s

  num_slots-moved : num_slots moved ≡ num_slots p
  unfolding num_slots
  num_slots-moved = read16-moved 4 (omega arith) (omega (arith, entry))

  free_ptr-moved : free_ptr moved ≡ offset
  unfolding free_ptr
  free_ptr-moved = read16-write16_self _ 6 offset (omega arith)

  pub slot_offset-moved : slot_offset moved i ≡ offset
  unfolding slot_offset
  slot_offset-moved =
      read16-write16_ne _ 6 _ _ (omega arith)
      ∙ read16-place_offset p.bytes _ offset row row_len (omega arith)

  slot_length-moved : slot_length moved i ≡ row_len
  unfolding slot_length
  slot_length-moved =
      read16-write16_ne _ 6 _ _ (omega arith)
      ∙ read16-place_length p.bytes _ offset row row_len (omega (arith, v.inside, offset_lem))

  entry-Spared :
      (j k : ℕ)
      → j < num_slots p
      → j ≢ i
      → k ≤ 2
      → Spared (slot_at i) offset row_len (slot_at j + k) 2
  entry-Spared j k h ne s = omega (arith, v.room, free_space-IsValid v, offset_lem)

  SameExcept-moved : SameExcept i p moved
  unfolding slot_offset slot_length
  SameExcept-moved = record {
    slots = num_slots-moved;
    offset = λ j h ne.
        read16-moved (slot_at j) (omega arith) (omega (arith, entry-Spared j 0 h ne (omega arith)));
    length =
        λ j h ne. read16-moved (slot_at j + 2) (omega arith) (entry-Spared j 2 h ne (omega arith));
    row = λ j l ne. read_bytes-congr p.bytes moved.bytes _ _ λ a h k.
        write16_outside _ 6 _ a (omega (arith, v.above j l, v.room))
        ∙ place_outside p.bytes _ offset row row_len a
            (omega (arith, v.above j l, entry, offset_lem));
  }

  slot_view-moved : slot_view moved i ≡ some (take row_len row)
  unfolding slot_view
  slot_view-moved =
      let full : (row_len == 0) ≡ false = ground arith in
      rw
        (num_slots-moved, slot_length-moved, slot_offset-moved, full, lt→ltb i (num_slots p) live.0)
        (ap some (
          read_bytes-congr (place p.bytes (slot_at i) offset row row_len) moved.bytes _ _
            (λ a h k. write16_outside _ 6 _ a (omega (arith, entry)))
          ∙ read_bytes-place p.bytes _ offset row row_len entry enough))

  pub Rewritten-moved : Rewritten p moved i row row_len
  Rewritten-moved = record {
    same = SameExcept-moved;
    holds = slot_view-moved;
    room = omega (arith, num_slots-moved, free_ptr-moved, free_space-IsValid v, offset_lem);
    inside = omega (arith, free_ptr-moved, offset_lem);
    length = slot_length-moved;
    above = omega (arith, free_ptr-moved, slot_offset-moved);
    clear = inl (omega (arith, slot_offset-moved, offset_lem));
  }
