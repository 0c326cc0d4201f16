-- ===== src/Storage/Page/Delete.antt =====
-- Page::deleteRow.
use microsql.Base.{
  ℕ, ◌+◌, ◌≡◌, refl, sym, ap, ◌∙◌, ◌≤◌, ◌≢◌, inl, inr, none, arith, leb, ◌==◌, if◌then◌else◌,
  ==_iff, Bool-cases, ok, err,
}
use microsql.Base.Memory.{
  write16, read16-write16_self, read16-write16_ne, read_bytes-congr, write16_outside,
}
use microsql.Storage.Page.{
  Page, page_size, slot_at, num_slots, free_ptr, delete_row, slot_deleted, slot_out_of_bounds,
  deleted_slot,
}
use microsql.Storage.Page.Slots.{
  slot_offset, slot_length, slot_view, IsLive, IsValid, SameExcept, slot_view-SameExcept,
  IsLive-SameExcept, IsLive-cases,
}

module _ (p : Page) (v : IsValid p) (i : ℕ) (live : IsLive p i) where
  abbrev p' : Page
  p' = record p { bytes = write16 p.bytes (slot_at i + 2) 0 }

  free_ptr-delete : free_ptr p' ≡ free_ptr p
  unfolding free_ptr
  free_ptr-delete = read16-write16_ne _ _ _ _ (omega arith)

  slot_length-delete : slot_length p' i ≡ 0
  unfolding slot_length
  slot_length-delete = read16-write16_self _ _ 0 (omega arith)

  num_slots-delete : num_slots p' ≡ num_slots p
  unfolding num_slots
  num_slots-delete = read16-write16_ne _ _ _ _ (omega arith)

  slot_offset-delete : (j : ℕ) → slot_offset p' j ≡ slot_offset p j
  unfolding slot_offset
  slot_offset-delete j = read16-write16_ne _ _ _ _ (omega arith)

  slot_length-delete_ne : (j : ℕ) → j ≢ i → slot_length p' j ≡ slot_length p j
  unfolding slot_length
  slot_length-delete_ne j ne = read16-write16_ne _ _ _ _ (omega arith)

  SameExcept-delete : SameExcept i p p'
  SameExcept-delete = record {
    slots = num_slots-delete;
    offset = λ j h ne. slot_offset-delete j;
    length = λ j h ne. slot_length-delete_ne j ne;
    row = λ j l ne.
        read_bytes-congr p.bytes p'.bytes _ _
          λ a h k. write16_outside _ _ 0 a (omega (arith, v.above j l, v.room, live.0));
  }

  slot_view-delete_self : slot_view p' i ≡ none
  unfolding slot_view
  slot_view-delete_self = rw slot_length-delete (ground arith)

  IsLive-delete : (j : ℕ) → IsLive p' j → IsLive p j × (j ≢ i)
  IsLive-delete j l =
      let ne : j ≢ i = λ e. l.1 (ap (slot_length p') e ∙ slot_length-delete) in
      (IsLive-SameExcept SameExcept-delete j ne l, ne)

  IsValid-delete : IsValid p'
  IsValid-delete = record {
    room = omega (arith, num_slots-delete, free_ptr-delete, v.room);
    inside = omega (arith, free_ptr-delete, v.inside);
    above = λ j l.
        omega (arith, v.above j (IsLive-delete j l).0, free_ptr-delete, slot_offset-delete j);
    below = λ j l.
        let (old, ne) = IsLive-delete j l in
        omega (arith, v.below j old, slot_offset-delete j, slot_length-delete_ne j ne);
    apart = λ j k l m ne.
        let (old, other) = IsLive-delete j l in
        let (old', other') = IsLive-delete k m in
        omega (
          arith,
          v.apart j k old old' ne,
          slot_offset-delete j,
          slot_offset-delete k,
          slot_length-delete_ne j other,
          slot_length-delete_ne k other',
        );
  }

module _ (p : Page) (i : ℕ) where
  delete_row_live :
      IsLive p i → delete_row p i ≡ (record p { bytes = write16 p.bytes (slot_at i + 2) 0 }, ok tt)
  unfolding delete_row slot_deleted slot_length
  delete_row_live live = ground (arith, live.0, live.1)

  -- A slot that is not there, or that is deleted already, is refused and the page is left alone.
  pub delete_row_refused :
      ¬ IsLive p i
      → delete_row p i ≡ (p, err (if leb (num_slots p) i then slot_out_of_bounds else deleted_slot))
  unfolding delete_row slot_deleted slot_length
  delete_row_refused h = ground (arith, h)

  -- On a sound page deleteRow of a live slot succeeds, empties that slot, and leaves the number
  -- of slots and what every other slot holds.
  pub slot_view-delete_row :
      IsValid p
      → IsLive p i
      → ((delete_row p i).1 ≡ ok tt)
        × (num_slots (delete_row p i).0 ≡ num_slots p)
        × ((j : ℕ) → slot_view (delete_row p i).0 j ≡ (if j == i then none else slot_view p j))
  slot_view-delete_row v live = rw (delete_row_live live) (
    refl,
    num_slots-delete p v i live,
    λ j. elim (Bool-cases (j == i)) [
      | inl same ↦
          rw same (
            ap (slot_view (p' p v i live)) ((==_iff j i).0 same) ∙ slot_view-delete_self p v i live)
      | inr other ↦ rw other (slot_view-SameExcept (SameExcept-delete p v i live) j (ground arith))
    ],
  )

  -- deleteRow keeps a page sound on every branch.
  pub delete_row-IsValid : IsValid p → IsValid (delete_row p i).0
  delete_row-IsValid v = elim (IsLive-cases p i) [
    | inl live ↦ rw (delete_row_live live) (IsValid-delete p v i live)
    | inr gone ↦ rw (delete_row_refused gone) v
  ]

  -- The memory behind the page.
  pub delete_row_outside :
      IsValid p
      → IsLive p i
      → ((a : ℕ) → page_size ≤ a → (delete_row p i).0.bytes a ≡ p.bytes a)
        × ((delete_row p i).0.page_id ≡ p.page_id)
  delete_row_outside v live =
      rw (delete_row_live live)
        (λ a h. write16_outside _ _ 0 a (omega (arith, v.room, v.inside, live.0, h)), refl)

  -- A slot beside the deleted one, and the bytes above the directory.
  pub delete_row_kept :
      IsValid p
      → IsLive p i
      → (j : ℕ) → IsLive p j
      → j ≢ i
      → IsLive (delete_row p i).0 j
        × (slot_offset (delete_row p i).0 j ≡ slot_offset p j)
        × ((a : ℕ) → free_ptr p ≤ a → (delete_row p i).0.bytes a ≡ p.bytes a)
  delete_row_kept v live j l ne = rw (delete_row_live live) (
    (
      omega (arith, l.0, num_slots-delete p v i live),
      λ e. l.1 (sym (slot_length-delete_ne p v i live j ne) ∙ e),
    ),
    slot_offset-delete p v i live j,
    λ a h. write16_outside _ _ 0 a (omega (arith, v.room, live.0, h)),
  )
