-- ===== src/Executor/Store/Rows.antt =====
-- The rows of a table of src/executor/executor.cpp as a list, whatever the bytes of its pages.
use microsql.Base.{
  ℕ, zero, suc, ◌+◌, ◌≤◌, ◌<◌, ◌≡◌, refl, sym, ap, ◌∙◌, inl, inr, none, some, List, [], ◌∷◌, ◌++◌,
  arith, Option-cases, ok, err, fault,
}
use microsql.Ast.Statement.{ColumnDefinition}
use microsql.Storage.Page.{Page, num_slots}
use microsql.Storage.Page.Slots.{slot_view}
use microsql.Storage.Row.{Row}
use microsql.Executor.Error.{Exec}
use microsql.Executor.Slots.{read_slot_row}
use microsql.Executor.Session.{Session}
use microsql.Executor.Table.{table_page}
use microsql.Executor.Insert.Stored.{read_slot_row-serialize_row}
use microsql.Executor.Store.{IsRow}

module _ (columns : List ColumnDefinition) where
  abbrev row_of : Exec Row → List Row
  row_of (ok row) = row ∷ []
  row_of (err e) = []
  row_of (fault u) = []

  -- The row of a slot, if it holds one.
  unfoldable pub slot_rows : Page → ℕ → List Row
  slot_rows p j = elim (slot_view p j) [
    | none ↦ []
    | some bytes ↦ row_of (read_slot_row p j columns)
  ]

  -- The rows of a number of slots from one on.
  unfoldable pub page_rows : Page → ℕ → ℕ → List Row
  page_rows p zero slot = []
  page_rows p (suc left) slot = slot_rows p slot ++ page_rows p left (slot + 1)

  abbrev pub rows_of : Page → List Row
  rows_of p = page_rows p (num_slots p) 0

  -- The rows of a number of pages from one on.
  unfoldable pub table_rows : Session → ℕ → ℕ → List Row
  table_rows s zero i = []
  table_rows s (suc left) i =
      page_rows (table_page s i) (num_slots (table_page s i)) 0 ++ table_rows s left (i + 1)

  pub slot_rows-none : (p : Page) (j : ℕ) → slot_view p j ≡ none → slot_rows p j ≡ []
  unfolding slot_rows
  slot_rows-none p j h = rw (h, slot_rows)

  pub slot_rows-some :
      (p : Page) (j : ℕ) (bytes : List ℕ)
      → slot_view p j ≡ some bytes
      → (r : IsRow columns bytes) → slot_rows p j ≡ r.row ∷ []
  unfolding slot_rows
  slot_rows-some p j bytes h r =
      rw (h, slot_rows)
        (ap row_of (read_slot_row-serialize_row p j bytes r.row columns h r.range r.run))

  -- The slots of a page hold rows of the table.
  abbrev pub ArePageRows : Page → Type 0
  ArePageRows p = (j : ℕ) (bytes : List ℕ) → slot_view p j ≡ some bytes → IsRow columns bytes

  pub slot_rows-view :
      (p q : Page) (j : ℕ)
      → ArePageRows p
      → slot_view q j ≡ slot_view p j
      → slot_rows q j ≡ slot_rows p j
  slot_rows-view p q j rows same = elim (Option-cases (slot_view p j)) [
    | inl empty ↦ slot_rows-none q j (same ∙ empty) ∙ sym (slot_rows-none p j empty)
    | inr (bytes, h) ↦
        let r = rows j bytes h in
        slot_rows-some q j bytes (same ∙ h) r ∙ sym (slot_rows-some p j bytes h r)
  ]

  -- Pages that are the same have the same rows.
  pub table_rows-same :
      (s s' : Session) (left i : ℕ)
      → ((j : ℕ) → i ≤ j → j < i + left → table_page s' j ≡ table_page s j)
      → table_rows s' left i ≡ table_rows s left i
  unfolding table_rows
  table_rows-same s s' zero i h = refl
  table_rows-same s s' (suc left) i h =
      ap (λ p. page_rows p (num_slots p) 0 ++ table_rows s' left (i + 1))
        (h i (omega arith) (omega arith))
      ∙ ap (λ rows. page_rows (table_page s i) (num_slots (table_page s i)) 0 ++ rows)
          (table_rows-same s s' left (i + 1) λ j a b. h j (omega arith) (omega arith))
