-- ===== src/Storage/Page/Update.antt =====
-- Page::updateRow.
use microsql.Base.{
  ℕ, ◌≤◌, ◌<◌, ◌≡◌, sym, ap, ◌∙◌, ◌⊎◌, inl, inr, ◌&&◌, ◌||◌, some, List, arith, ltb, leb, ◌==◌,
  if◌then◌else◌, leb→le, ==_iff, Bool-cases, length, take, Outcome, ok, err,
}
use microsql.Storage.Page.{
  Page, PageError, num_slots, free_ptr, free_space, sub_u16, update_row, slot_deleted,
  slot_out_of_bounds, deleted_slot, invalid_row_length, page_full,
}
use microsql.Storage.Page.Slots.{
  slot_offset, slot_length, slot_view, IsLive, IsValid, slot_view-SameExcept, IsLive-cases,
}
use microsql.Storage.Page.Rewrite.{Rewritten, IsValid-Rewritten}
use microsql.Storage.Page.Move.{moved, Rewritten-moved, slot_offset-moved}
use microsql.Storage.Page.Shrink.{kept, Rewritten-kept, slot_offset-kept}

-- When an update is taken: the slot holds a row, the new row is not empty, and one that grows finds
-- its whole length free, since the old row's place is not used again.
abbrev pub Accepts : Page → ℕ → ℕ → Type 0
Accepts p i row_len =
    IsLive p i × (0 < row_len) × ((row_len ≤ slot_length p i) ⊎ (row_len ≤ free_space p))

-- A refused update leaves the page as it was; the error says why.
pub update_row_refused :
    (p : Page) (i : ℕ) (row : List ℕ) (row_len : ℕ)
    → ¬ Accepts p i row_len
    → update_row p i row row_len ≡ (
      p,
      err (
          if leb (num_slots p) i
          then slot_out_of_bounds
          else if slot_deleted p i
          then deleted_slot
          else if row_len == 0
          then invalid_row_length
          else page_full),
    )
unfolding update_row slot_deleted slot_length
update_row_refused p i row row_len h = ground (arith, h)

Accepts-cases : (p : Page) (i row_len : ℕ) → Accepts p i row_len ⊎ (¬ Accepts p i row_len)
Accepts-cases p i row_len = elim (IsLive-cases p i) [
  | inr gone ↦ inr (λ a. gone a.0)
  | inl live ↦
      elim (Bool-cases
        (ltb 0 row_len && (leb row_len (slot_length p i) || leb row_len (free_space p)))) [
          | inl yes_it_does ↦ inl (live, ground arith, ground arith)
          | inr no_room ↦ inr (λ a. ground (arith, a.1, a.2))
        ]
]

module _ (p : Page) (i : ℕ) (row : List ℕ) (row_len : ℕ) (v : IsValid p)
    (accepts : Accepts p i row_len) (enough : row_len ≤ length row) where
  -- The new page, with the offset that is returned.
  abbrev Updated : Page × Outcome PageError ℕ → Type 0
  Updated (q, r) = Rewritten p q i row row_len × (r ≡ ok (slot_offset q i))

  update_row-kept :
      (fits : row_len ≤ slot_length p i)
      → update_row p i row row_len
        ≡ (kept p v i accepts.0 row row_len accepts.1 fits enough, ok (slot_offset p i))
  unfolding update_row slot_deleted slot_length slot_offset
  update_row-kept fits = ground (arith, accepts.0.0, accepts.0.1, accepts.1)

  update_row-moved :
      (grows : slot_length p i < row_len) (room : row_len ≤ free_space p)
      → update_row p i row row_len
        ≡ (moved p v i accepts.0 row row_len grows room enough, ok (sub_u16 (free_ptr p) row_len))
  unfolding update_row slot_deleted slot_length
  update_row-moved grows room = ground (arith, accepts.0.0, accepts.0.1)

  updated : Updated (update_row p i row row_len)
  updated = elim (Bool-cases (leb row_len (slot_length p i))) [
    | inl fits ↦
        let h : row_len ≤ slot_length p i = leb→le _ _ fits in
        let w = Rewritten-kept p v i accepts.0 row row_len accepts.1 h enough in
        rw (update_row-kept h) (
          w,
          ap ok
              (sym (slot_offset-kept p v i accepts.0 row row_len accepts.1 h enough i accepts.0.0)),
        )
    | inr grows ↦
        let h : slot_length p i < row_len = ground arith in
        let room : row_len ≤ free_space p = omega (arith, accepts.2) in
        rw (update_row-moved h room) (
          Rewritten-moved p v i accepts.0 row row_len h room enough,
          ap ok (sym (slot_offset-moved p v i accepts.0 row row_len h room enough)),
        )
  ]

module _ (p : Page) (i : ℕ) (row : List ℕ) (row_len : ℕ) where
  -- updateRow keeps a page sound on every branch, for a row of at least the stated length.
  pub update_row-IsValid : IsValid p → row_len ≤ length row → IsValid (update_row p i row row_len).0
  update_row-IsValid v enough = elim (Accepts-cases p i row_len) [
    | inl a ↦ IsValid-Rewritten v a.0 (updated p i row row_len v a enough).0
    | inr no_room ↦ rw (update_row_refused p i row row_len no_room) v
  ]

  -- On a sound page, an update of a live slot that is not empty and either fits in the old place
  -- or finds its whole length free makes that slot hold the new row, returns where it lies, and
  -- leaves the directory's size and what every other slot holds.
  pub slot_view-update_row :
      IsValid p
      → Accepts p i row_len
      → row_len ≤ length row
      → ((update_row p i row row_len).1 ≡ ok (slot_offset (update_row p i row row_len).0 i))
        × (num_slots (update_row p i row row_len).0 ≡ num_slots p)
        × ((j : ℕ)
            → slot_view (update_row p i row row_len).0 j
              ≡ (if j == i then some (take row_len row) else slot_view p j))
  slot_view-update_row v a enough =
      let (w, result) = updated p i row row_len v a enough in
      (
        result,
        w.same.slots,
        λ j. elim (Bool-cases (j == i)) [
          | inl same ↦
              rw same
                (ap (slot_view (update_row p i row row_len).0) ((==_iff j i).0 same) ∙ w.holds)
          | inr other ↦ rw other (slot_view-SameExcept w.same j (ground arith))
        ],
      )
