-- ===== src/Storage/Page/Insert.antt =====
-- Page::insertRow.
use microsql.Base.{
  ℕ, ◌+◌, ◌%◌, ◌≤◌, ◌<◌, ◌≡◌, sym, ap, ◌∙◌, ◌↔◌, ◌⊎◌, inl, inr, false, ◌&&◌, some, List, arith, ltb,
  leb, ◌==◌, if◌then◌else◌, ltb→lt, lt→ltb, ltb_false→le, ==_iff, Bool-cases, length, take, ok, err,
}
use microsql.Base.Memory.{
  read16, write16, read_bytes, read16-write16_self, read16-write16_ne, read_bytes-congr,
  write16_outside,
}
use microsql.Storage.Page.{
  Page, page_size, slot_entry_size, slot_at, num_slots, free_ptr, free_space, place, insert_row,
  sub_u16, invalid_row_length, page_full,
}
use microsql.Storage.Page.Place.{
  Spared, read16-place_offset, read16-place_length, read16-place_ne, place_outside,
  read_bytes-place,
}
use microsql.Storage.Page.Slots.{
  slot_offset, slot_length, slot_view, IsLive, IsValid, free_space-IsValid, slot_view_beyond,
}

abbrev pub HasRoom : Page → ℕ → Type 0
HasRoom p row_len = (0 < row_len) × (row_len + slot_entry_size ≤ free_space p)

module _ (p : Page) (v : IsValid p) (row : List ℕ) (row_len : ℕ) (room : HasRoom p row_len) where
  abbrev p' : Page
  p' = (insert_row p row row_len).0

  abbrev offset : ℕ
  offset = sub_u16 (free_ptr p) row_len

  offset_lem : offset + row_len ≡ free_ptr p
  offset_lem = omega (arith, v.room, v.inside, free_space-IsValid v)

  bytes-insert :
      p'.bytes
      ≡ write16
          (write16 (place p.bytes (slot_at (num_slots p)) offset row row_len) 6 offset)
          4
          ((num_slots p + 1) % 0x1_0000)
  unfolding insert_row
  bytes-insert = ground arith

  num_slots-insert : num_slots p' ≡ num_slots p + 1
  unfolding num_slots
  num_slots-insert =
      ap (λ m. read16 m 4) bytes-insert
      ∙ read16-write16_self _ 4 ((num_slots p + 1) % 0x1_0000) (omega arith)
      ∙ omega (arith, v.room, v.inside)

  free_ptr-insert : free_ptr p' ≡ offset
  unfolding free_ptr
  free_ptr-insert =
      ap (λ m. read16 m 6) bytes-insert
      ∙ read16-write16_ne _ 4 _ 6 (omega arith)
      ∙ read16-write16_self _ 6 offset (omega arith)

  slot_offset-insert_new : slot_offset p' (num_slots p) ≡ offset
  unfolding slot_offset
  slot_offset-insert_new =
      ap (λ m. read16 m (slot_at (num_slots p))) bytes-insert
      ∙ read16-write16_ne _ 4 _ _ (omega arith)
      ∙ read16-write16_ne _ 6 _ _ (omega arith)
      ∙ read16-place_offset p.bytes _ offset row row_len (omega arith)

  slot_length-insert_new : slot_length p' (num_slots p) ≡ row_len
  unfolding slot_length
  slot_length-insert_new =
      ap (λ m. read16 m (slot_at (num_slots p) + 2)) bytes-insert
      ∙ read16-write16_ne _ 4 _ _ (omega arith)
      ∙ read16-write16_ne _ 6 _ _ (omega arith)
      ∙ read16-place_length p.bytes _ offset row row_len (omega (arith, v.inside, offset_lem))

  -- Beyond the header only the new entry and the new row are written.
  read16-insert_old :
      (at : ℕ)
      → 8 ≤ at
      → Spared (slot_at (num_slots p)) offset row_len at 2
      → read16 p'.bytes at ≡ read16 p.bytes at
  read16-insert_old at h s =
      ap (λ m. read16 m at) bytes-insert
      ∙ read16-write16_ne _ 4 _ _ (omega arith)
      ∙ read16-write16_ne _ 6 _ _ (omega arith)
      ∙ read16-place_ne p.bytes _ offset row row_len at s

  entry-Spared :
      (j k : ℕ)
      → j < num_slots p
      → k ≤ 2
      → Spared (slot_at (num_slots p)) offset row_len (slot_at j + k) 2
  entry-Spared j k h s = omega (arith, v.room, free_space-IsValid v, offset_lem)

  slot_offset-insert_old : (j : ℕ) → j < num_slots p → slot_offset p' j ≡ slot_offset p j
  unfolding slot_offset
  slot_offset-insert_old j h =
      read16-insert_old (slot_at j) (omega arith) (omega (arith, entry-Spared j 0 h (omega arith)))

  slot_length-insert_old : (j : ℕ) → j < num_slots p → slot_length p' j ≡ slot_length p j
  unfolding slot_length
  slot_length-insert_old j h =
      read16-insert_old (slot_at j + 2) (omega arith) (entry-Spared j 2 h (omega arith))

  row-insert_old :
      (j : ℕ)
      → IsLive p j
      → read_bytes p'.bytes (slot_offset p j) (slot_length p j)
        ≡ read_bytes p.bytes (slot_offset p j) (slot_length p j)
  row-insert_old j live = read_bytes-congr p.bytes p'.bytes _ _ λ a h k.
      ap (λ m. m a) bytes-insert
      ∙ write16_outside _ 4 _ a (omega (arith, v.above j live, v.room))
      ∙ write16_outside _ 6 _ a (omega (arith, v.above j live, v.room))
      ∙ place_outside p.bytes _ offset row row_len a
          (omega (arith, v.above j live, v.room, free_space-IsValid v, offset_lem))

  slot_view-insert_old : (j : ℕ) → j < num_slots p → slot_view p' j ≡ slot_view p j
  unfolding slot_view
  slot_view-insert_old j h = elim (Bool-cases (slot_length p j == 0)) [
    | inl gone ↦ ground (arith, slot_length-insert_old j h)
    | inr live ↦ rw (
      num_slots-insert,
      slot_length-insert_old j h,
      slot_offset-insert_old j h,
      live,
      lt→ltb j (num_slots p) h,
      lt→ltb j (num_slots p + 1) (omega arith),
      row-insert_old j (h, ground arith),
    )
  ]

  slot_view-insert_new : row_len ≤ length row → slot_view p' (num_slots p) ≡ some (take row_len row)
  unfolding slot_view
  slot_view-insert_new enough =
      let full : (row_len == 0) ≡ false = ground arith in
      rw
        (
          num_slots-insert,
          slot_length-insert_new,
          slot_offset-insert_new,
          full,
          lt→ltb (num_slots p) (num_slots p + 1) (omega arith),
        )
        (ap some (
          read_bytes-congr (place p.bytes (slot_at (num_slots p)) offset row row_len) p'.bytes _ _
            (λ a h k.
              ap (λ m. m a) bytes-insert
              ∙ write16_outside _ 4 _ a (omega (arith, v.room, free_space-IsValid v, offset_lem))
              ∙ write16_outside _ 6 _ a (omega (arith, v.room, free_space-IsValid v, offset_lem)))
          ∙ read_bytes-place p.bytes _ offset row row_len
              (omega (arith, v.room, free_space-IsValid v, offset_lem)) enough))

  outside-insert : (a : ℕ) → page_size ≤ a → p'.bytes a ≡ p.bytes a
  outside-insert a h =
      ap (λ m. m a) bytes-insert
      ∙ write16_outside _ 4 _ a (omega arith)
      ∙ write16_outside _ 6 _ a (omega arith)
      ∙ place_outside p.bytes _ offset row row_len a
          (omega (arith, v.room, v.inside, free_space-IsValid v, offset_lem))

  same_id-insert : p'.page_id ≡ p.page_id
  unfolding insert_row
  same_id-insert = ground arith

  -- Where a live slot of the new page lies.
  abbrev Located : ℕ → Type 0
  Located j =
      IsLive p j × (slot_offset p' j ≡ slot_offset p j) × (slot_length p' j ≡ slot_length p j)
      ⊎ (j ≡ num_slots p) × (slot_offset p' j ≡ offset) × (slot_length p' j ≡ row_len)

  locate : (j : ℕ) → IsLive p' j → Located j
  locate j l = elim (Bool-cases (ltb j (num_slots p))) [
    | inl old ↦
        let h : j < num_slots p = ltb→lt _ _ old in
        inl (
          (h, λ e. l.1 (slot_length-insert_old j h ∙ e)),
          slot_offset-insert_old j h,
          slot_length-insert_old j h,
        )
    | inr new ↦
        let e : j ≡ num_slots p =
          omega (arith, ltb_false→le j (num_slots p) new, num_slots-insert) in
        inr (
          e,
          ap (slot_offset p') e ∙ slot_offset-insert_new,
          ap (slot_length p') e ∙ slot_length-insert_new,
        )
  ]

  IsValid-insert : IsValid p'
  IsValid-insert = record {
    room =
        omega (arith, num_slots-insert, free_ptr-insert, v.room, free_space-IsValid v, offset_lem);
    inside = omega (arith, free_ptr-insert, v.inside, offset_lem);
    above = λ i l. elim (locate i l) [
      | inl old ↦ omega (arith, v.above i old.0, offset_lem, free_ptr-insert)
      | inr new ↦ omega (arith, free_ptr-insert)
    ];
    below = λ i l. elim (locate i l) [
      | inl old ↦ omega (arith, v.below i old.0)
      | inr new ↦ omega (arith, offset_lem, v.inside)
    ];
    apart = λ i j l k ne. elim (locate i l) [
      | inl old ↦ elim (locate j k) [
        | inl old' ↦ omega (arith, v.apart i j old.0 old'.0 ne)
        | inr new ↦ omega (arith, v.above i old.0, offset_lem)
      ]
      | inr new ↦ elim (locate j k) [
        | inl old ↦ omega (arith, v.above j old.0, offset_lem)
        | inr new' ↦ absurd (ne (new.0 ∙ sym new'.0))
      ]
    ];
  }

-- The memory behind the page, and its number.
pub insert_row_outside :
    (p : Page) (row : List ℕ) (row_len : ℕ)
    → IsValid p
    → HasRoom p row_len
    → ((insert_row p row row_len).0.page_id ≡ p.page_id)
      × ((a : ℕ) → page_size ≤ a → (insert_row p row row_len).0.bytes a ≡ p.bytes a)
insert_row_outside p row row_len v room =
    (same_id-insert p v row row_len room, outside-insert p v row row_len room)

-- A row is taken exactly when it is not empty and the page has room for it and a directory entry.
pub insert_row-ok :
    (p : Page) (row : List ℕ) (row_len : ℕ)
    → ((insert_row p row row_len).1 ≡ ok tt) ↔ HasRoom p row_len
unfolding insert_row
insert_row-ok p row row_len = (λ h. ground arith, λ h. ground arith)

-- A refused row leaves the page as it was, and the error says why.
pub insert_row_refused :
    (p : Page) (row : List ℕ) (row_len : ℕ)
    → ¬ HasRoom p row_len
    → insert_row p row row_len ≡ (p, err (if row_len == 0 then invalid_row_length else page_full))
unfolding insert_row
insert_row_refused p row row_len h = ground (arith, h)

-- insertRow keeps a page sound whether it takes the row or refuses it: the directory ends below
-- the free pointer, rows lie above it and inside the page, and no two live rows overlap.
pub insert_row-IsValid :
    (p : Page) (row : List ℕ) (row_len : ℕ) → IsValid p → IsValid (insert_row p row row_len).0
insert_row-IsValid p row row_len v =
    elim (Bool-cases (ltb 0 row_len && leb (row_len + slot_entry_size) (free_space p))) [
      | inl room ↦ IsValid-insert p v row row_len (ground arith)
      | inr no_room ↦
          let h : ¬ HasRoom p row_len = λ r. ground arith in
          rw (insert_row_refused p row row_len h) v
    ]

-- On a sound page with room for a row and its directory entry, insertRow adds one slot at the end
-- of the directory that holds the row, and leaves what every other slot holds.
pub slot_view-insert_row :
    (p : Page) (row : List ℕ) (row_len : ℕ)
    → IsValid p
    → HasRoom p row_len
    → row_len ≤ length row
    → (num_slots (insert_row p row row_len).0 ≡ num_slots p + 1)
      × ((j : ℕ)
          → slot_view (insert_row p row row_len).0 j
            ≡ (if j == num_slots p then some (take row_len row) else slot_view p j))
slot_view-insert_row p row row_len v room enough = (num_slots-insert p v row row_len room, at)
  where
    at :
        (j : ℕ)
        → slot_view (insert_row p row row_len).0 j
          ≡ (if j == num_slots p then some (take row_len row) else slot_view p j)
    at j = elim (Bool-cases (j == num_slots p)) [
      | inl new ↦ rw new (
          ap (slot_view (insert_row p row row_len).0) ((==_iff j (num_slots p)).0 new)
          ∙ slot_view-insert_new p v row row_len room enough)
      | inr other ↦ rw other (elim (Bool-cases (ltb j (num_slots p))) [
        | inl old ↦ slot_view-insert_old p v row row_len room j (ltb→lt _ _ old)
        | inr none_there ↦
            let h : num_slots p + 1 ≤ j = ground (arith, other, none_there) in
            slot_view_beyond _ j (omega (arith, num_slots-insert p v row row_len room))
            ∙ sym (slot_view_beyond p j (omega arith))
      ])
    ]

-- On a sound page with room, insertRow lowers freeSpace by exactly the row's length and one
-- directory entry.
pub free_space-insert_row :
    (p : Page) (row : List ℕ) (row_len : ℕ)
    → IsValid p
    → HasRoom p row_len
    → free_space (insert_row p row row_len).0 + row_len + slot_entry_size ≡ free_space p
free_space-insert_row p row row_len v room = omega (
  arith,
  free_space-IsValid v,
  free_space-IsValid (IsValid-insert p v row row_len room),
  num_slots-insert p v row row_len room,
  free_ptr-insert p v row row_len room,
  offset_lem p v row row_len room,
)
