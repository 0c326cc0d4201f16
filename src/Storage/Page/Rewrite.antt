-- ===== src/Storage/Page/Rewrite.antt =====
-- What both branches of Page::updateRow that write do to a page.
use microsql.Base.{
  ℕ, ◌+◌, ◌*◌, ◌≤◌, ◌≡◌, sym, ◌∙◌, ◌≢◌, ◌⊎◌, inl, inr, some, List, arith, ◌==◌, ==_iff, Bool-cases,
  take,
}
use microsql.Storage.Page.{Page, header_size, slot_entry_size, num_slots, free_ptr}
use microsql.Storage.Page.Slots.{
  slot_offset, slot_length, slot_view, IsLive, IsValid, SameExcept, IsLive-SameExcept,
}

-- The row of slot `i` moves to, or stays at, a place that is clear of the other rows.
pub record Rewritten (p q : Page) (i : ℕ) (row : List ℕ) (row_len : ℕ) : Type 0 where
  pub same : SameExcept i p q
  pub holds : slot_view q i ≡ some (take row_len row)
  pub room : header_size + num_slots q * slot_entry_size ≤ free_ptr q
  pub inside : free_ptr q ≤ free_ptr p
  pub length : slot_length q i ≡ row_len
  pub above : free_ptr q ≤ slot_offset q i
  pub clear :
      (slot_offset q i + row_len ≤ free_ptr p)
      ⊎ (slot_offset q i ≡ slot_offset p i) × (row_len ≤ slot_length p i)

module _ {p q : Page} {i : ℕ} {row : List ℕ} {row_len : ℕ} (v : IsValid p) (live : IsLive p i)
    (w : Rewritten p q i row row_len) where
  apart_from :
      (j : ℕ)
      → IsLive q j
      → j ≢ i
      → (slot_offset q i + slot_length q i ≤ slot_offset q j)
        ⊎ (slot_offset q j + slot_length q j ≤ slot_offset q i)
  apart_from j l ne =
      let old = IsLive-SameExcept w.same j ne l in
      omega (
        arith,
        w.clear,
        w.length,
        v.above j old,
        v.apart i j live old (λ e. ne (sym e)),
        w.same.offset j old.0 ne,
        w.same.length j old.0 ne,
      )

  pub IsValid-Rewritten : IsValid q
  IsValid-Rewritten = record {
    room = w.room;
    inside = omega (arith, w.inside, v.inside);
    above = λ j l. elim (Bool-cases (j == i)) [
      | inl same ↦ rw ((==_iff j i).0 same) w.above
      | inr other ↦
          let ne : j ≢ i = ground arith in
          let old = IsLive-SameExcept w.same j ne l in
          omega (arith, v.above j old, w.inside, w.same.offset j old.0 ne)
    ];
    below = λ j l. elim (Bool-cases (j == i)) [
      | inl same ↦
          rw ((==_iff j i).0 same) (omega (arith, w.clear, w.length, v.below i live, v.inside))
      | inr other ↦
          let ne : j ≢ i = ground arith in
          let old = IsLive-SameExcept w.same j ne l in
          omega (arith, v.below j old, w.same.offset j old.0 ne, w.same.length j old.0 ne)
    ];
    apart = λ j k l m ne. elim (Bool-cases (j == i)) [
      | inl same ↦
          let e : j ≡ i = (==_iff j i).0 same in rw e (apart_from k m (λ e'. ne (e ∙ sym e')))
      | inr other ↦
          let ne_j : j ≢ i = ground arith in
          elim (Bool-cases (k == i)) [
            | inl same ↦ rw ((==_iff k i).0 same) (omega (arith, apart_from j l ne_j))
            | inr other' ↦
                let ne_k : k ≢ i = ground arith in
                let old = IsLive-SameExcept w.same j ne_j l in
                let old' = IsLive-SameExcept w.same k ne_k m in
                omega (
                  arith,
                  v.apart j k old old' ne,
                  w.same.offset j old.0 ne_j,
                  w.same.offset k old'.0 ne_k,
                  w.same.length j old.0 ne_j,
                  w.same.length k old'.0 ne_k,
                )
          ]
    ];
  }
