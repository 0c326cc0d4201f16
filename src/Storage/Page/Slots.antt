-- ===== src/Storage/Page/Slots.antt =====
-- What a page holds, slot by slot, and when its layout is sound.
use microsql.Base.{
  ℕ, ◌+◌, ◌*◌, ◌≤◌, ◌<◌, ◌≡◌, ◌∙◌, ◌≢◌, ◌⊎◌, inl, inr, not, ◌&&◌, Option, none, some, List, arith,
  ltb, ◌==◌, if◌then◌else◌, ltb→lt, le→ltb, Bool-cases,
}
use microsql.Base.Memory.{read16, read_bytes}
use microsql.Storage.Page.{
  Page, page_size, header_size, slot_entry_size, slot_at, num_slots, free_ptr, free_space,
}

unfoldable pub slot_offset : Page → ℕ → ℕ
slot_offset p i = read16 p.bytes (slot_at i)

unfoldable pub slot_length : Page → ℕ → ℕ
slot_length p i = read16 p.bytes (slot_at i + 2)

-- The row that a slot holds, if it is in the directory and not deleted.
unfoldable pub slot_view : Page → ℕ → Option (List ℕ)
unfolding slot_offset slot_length
slot_view p i =
    if ltb i (num_slots p) && not (slot_length p i == 0)
    then some (read_bytes p.bytes (slot_offset p i) (slot_length p i))
    else none

abbrev pub IsLive : Page → ℕ → Type 0
IsLive p i = (i < num_slots p) × (slot_length p i ≢ 0)

-- The directory ends below the free pointer, the rows lie above it and inside the page, and no
-- two rows overlap.
pub record IsValid (p : Page) : Type 0 where
  pub room : header_size + num_slots p * slot_entry_size ≤ free_ptr p
  pub inside : free_ptr p ≤ page_size
  pub above : (i : ℕ) → IsLive p i → free_ptr p ≤ slot_offset p i
  pub below : (i : ℕ) → IsLive p i → slot_offset p i + slot_length p i ≤ page_size
  pub apart :
      (i j : ℕ)
      → IsLive p i
      → IsLive p j
      → i ≢ j
      → (slot_offset p i + slot_length p i ≤ slot_offset p j)
        ⊎ (slot_offset p j + slot_length p j ≤ slot_offset p i)

-- On a sound page the 16-bit difference does not wrap.
pub free_space-IsValid :
    {p : Page}
    → IsValid p
    → free_space p + (header_size + num_slots p * slot_entry_size) ≡ free_ptr p
unfolding free_space
free_space-IsValid v = omega (arith, v.room, v.inside)

-- No slot beyond the directory holds a row.
pub slot_view_beyond : (p : Page) (j : ℕ) → num_slots p ≤ j → slot_view p j ≡ none
unfolding slot_view
slot_view_beyond p j h = rw (le→ltb j (num_slots p) h)

-- `q` differs from `p` at most in what slot `i` holds.
pub record SameExcept (i : ℕ) (p q : Page) : Type 0 where
  pub slots : num_slots q ≡ num_slots p
  pub offset : (j : ℕ) → j < num_slots p → j ≢ i → slot_offset q j ≡ slot_offset p j
  pub length : (j : ℕ) → j < num_slots p → j ≢ i → slot_length q j ≡ slot_length p j
  pub row :
      (j : ℕ)
      → IsLive p j
      → j ≢ i
      → read_bytes q.bytes (slot_offset p j) (slot_length p j)
        ≡ read_bytes p.bytes (slot_offset p j) (slot_length p j)

module _ {i : ℕ} {p q : Page} (same : SameExcept i p q) where
  pub slot_view-SameExcept : (j : ℕ) → j ≢ i → slot_view q j ≡ slot_view p j
  unfolding slot_view
  slot_view-SameExcept j ne = elim (Bool-cases (ltb j (num_slots p))) [
    | inr none_there ↦ rw (same.slots, none_there)
    | inl old ↦
        let h : j < num_slots p = ltb→lt _ _ old in
        elim (Bool-cases (slot_length p j == 0)) [
          | inl gone ↦ rw (same.slots, same.length j h ne, gone, old)
          | inr live ↦ rw (
            same.slots,
            same.length j h ne,
            same.offset j h ne,
            live,
            old,
            same.row j (h, ground arith) ne,
          )
        ]
  ]

  pub IsLive-SameExcept : (j : ℕ) → j ≢ i → IsLive q j → IsLive p j
  IsLive-SameExcept j ne l =
      let h : j < num_slots p = omega (arith, l.0, same.slots) in
      (h, λ e. l.1 (same.length j h ne ∙ e))

pub IsLive-cases : (p : Page) (i : ℕ) → IsLive p i ⊎ (¬ IsLive p i)
IsLive-cases p i = elim (Bool-cases (ltb i (num_slots p) && not (slot_length p i == 0))) [
  | inl live ↦ inl (ground arith)
  | inr gone ↦ inr (λ l. ground arith)
]

pub slot_view_dead : (p : Page) (i : ℕ) → ¬ IsLive p i → slot_view p i ≡ none
unfolding slot_view
slot_view_dead p i h = elim (Bool-cases (ltb i (num_slots p) && not (slot_length p i == 0))) [
  | inl live ↦ absurd (h (ground arith))
  | inr gone ↦ rw (gone, slot_view)
]
