-- ===== src/Executor/Store/InsertRows.antt =====
-- execInsert of src/executor/executor.cpp on a well-formed table: the rows afterwards.
use microsql.Base.{
  ℕ, zero, suc, ◌+◌, ◌-◌, ◌≤◌, ◌<◌, ◌≡◌, refl, sym, ap, ◌∙◌, ◌≢◌, inl, inr, true, false, some, List,
  [], ◌∷◌, ◌++◌, arith, ◌==◌, if◌then◌else◌, ==_iff, Bool-cases,
}
use mathlib.Core.Path.{subst}
use mathlib.Core.List.{append_assoc, append-nil}
use microsql.Ast.Statement.{ColumnDefinition}
use microsql.Storage.Page.{Page, num_slots}
use microsql.Storage.Page.Slots.{slot_view}
use microsql.Storage.Page.Init.{init_empty}
use microsql.Storage.TableFile.Pages.{blank_page}
use microsql.Storage.Row.{Row}
use microsql.Executor.Session.{Session}
use microsql.Executor.Table.{table_page}
use microsql.Executor.Insert.Stored.{RowStored}
use microsql.Executor.Store.{IsRow, AreRows}
use microsql.Executor.Store.Rows.{
  slot_rows, page_rows, table_rows, slot_rows-view, slot_rows-some, ArePageRows, table_rows-same,
  rows_of,
}

module _ (columns : List ColumnDefinition) (bytes : List ℕ) (r : IsRow columns bytes) where
  -- The new slot is the last of its page.
  page_rows-added :
      (p q : Page) (left slot : ℕ)
      → ArePageRows columns p
      → ((j : ℕ) → slot_view q j ≡ (if j == num_slots p then some bytes else slot_view p j))
      → slot + left ≡ num_slots p
      → page_rows columns q (suc left) slot ≡ page_rows columns p left slot ++ r.row ∷ []
  unfolding page_rows
  page_rows-added p q zero slot are views e =
      let last : (slot == num_slots p) ≡ true = ground arith in
      ap (λ rows. rows ++ []) (slot_rows-some columns q slot bytes (views slot ∙ rw last) r)
  page_rows-added p q (suc left) slot are views e =
      let other : (slot == num_slots p) ≡ false = ground arith in
      let here : slot_rows columns q slot ≡ slot_rows columns p slot =
        slot_rows-view columns p q slot are (views slot ∙ rw other) in
      ap (λ rows. rows ++ page_rows columns q (suc left) (slot + 1)) here
      ∙ ap (λ rows. slot_rows columns p slot ++ rows)
          (page_rows-added p q left (slot + 1) are views (omega arith))
      ∙ sym (
          append_assoc (slot_rows columns p slot) (page_rows columns p left (slot + 1))
            (r.row ∷ []))

  abbrev pub Inserted : List Row → List Row → Type 0
  Inserted before after =
      (xs : List Row) × (ys : List Row) × (before ≡ xs ++ ys) × (after ≡ xs ++ r.row ∷ ys)

  behind :
      (p q : Page) (before after : List Row)
      → q ≡ p
      → Inserted before after
      → Inserted (rows_of columns p ++ before) (rows_of columns q ++ after)
  behind p q before after same (xs, ys, b, a) =
      let here = rows_of columns p in
      (
        here ++ xs,
        ys,
        ap (λ rows. here ++ rows) b ∙ sym (append_assoc here xs ys),
        ap (λ p. rows_of columns p ++ after) same
            ∙ ap (λ rows. here ++ rows) a
            ∙ sym (append_assoc here xs (r.row ∷ ys)),
      )

  module _ (n : ℕ) (s s' : Session) (stored : RowStored r.row columns bytes n s s')
      (are : AreRows columns n s) where
    abbrev place : ℕ
    place = stored.page

    same_page : (j : ℕ) → j ≢ place → j < n → table_page s' j ≡ table_page s j
    same_page j ne h = stored.added.others j ne h

    -- The rows of the page that took the row.
    its_rows :
        ArePageRows columns stored.before
        → page_rows columns (table_page s' place) (num_slots (table_page s' place)) 0
          ≡ page_rows columns stored.before (num_slots stored.before) 0 ++ r.row ∷ []
    its_rows rows =
        let slots : num_slots (table_page s' place) ≡ suc (num_slots stored.before) =
          omega (arith, stored.added.slots) in
        ap (λ l. page_rows columns (table_page s' place) l 0) slots
        ∙ page_rows-added stored.before (table_page s' place) (num_slots stored.before) 0 rows
            stored.added.views (omega arith)

    -- A page that the table had.
    table_rows-old :
        (left i : ℕ)
        → stored.before ≡ table_page s place
        → i + left ≡ n
        → 1 ≤ i
        → i ≤ place
        → place < n
        → Inserted (table_rows columns s left i) (table_rows columns s' left i)
    unfolding table_rows
    table_rows-old zero i at e low h k = absurd (omega arith)
    table_rows-old (suc left) i at e low h k = elim (Bool-cases (i == place)) [
      | inl here ↦
          let same = (==_iff i place).0 here in
          let ours : ArePageRows columns stored.before =
            subst (ArePageRows columns) (sym at) (are place (omega arith) k) in
          let later =
            table_rows-same columns s s' left (i + 1)
              λ j a b. same_page j (omega (arith, same)) (omega arith) in
          let tail = table_rows columns s left (i + 1) in
          let tail' = table_rows columns s' left (i + 1) in
          let mine = rows_of columns stored.before in
          (
            mine,
            tail,
            ap (λ p. rows_of columns p ++ tail) (ap (table_page s) same ∙ sym at),
            ap (λ i. rows_of columns (table_page s' i) ++ tail') same
                ∙ ap (λ rows. rows ++ tail') (its_rows ours)
                ∙ ap (λ rows. (mine ++ r.row ∷ []) ++ rows) later
                ∙ append_assoc mine (r.row ∷ []) tail,
          )
      | inr other ↦
          behind (table_page s i) (table_page s' i) (table_rows columns s left (i + 1))
            (table_rows columns s' left (i + 1)) (same_page i (ground arith) (omega arith))
            (table_rows-old left (i + 1) at (omega arith) (omega arith) (ground arith) k)
    ]

    blank_rows : stored.before ≡ blank_page n → rows_of columns stored.before ≡ []
    unfolding page_rows
    blank_rows at =
        let (_, none_there, _, _) = init_empty (record { bytes = λ a. 0; page_id = 0 }) n in
        ap (rows_of columns) at ∙ ap (λ l. page_rows columns (blank_page n) l 0) none_there

    blank-ArePageRows : stored.before ≡ blank_page n → ArePageRows columns stored.before
    blank-ArePageRows at j held h =
        let (_, _, empty, _) = init_empty (record { bytes = λ a. 0; page_id = 0 }) n in
        let never = sym h ∙ ap (λ p. slot_view p j) at ∙ empty j in cc

    -- A new page at the end of the table.
    table_rows-new :
        (left i : ℕ)
        → stored.before ≡ blank_page n
        → place ≡ n
        → i + left ≡ n
        → Inserted (table_rows columns s left i) (table_rows columns s' (suc left) i)
    unfolding table_rows
    table_rows-new zero i at last e =
        let here : i ≡ place = omega (arith, last) in
        (
          [],
          [],
          refl,
          append-nil (rows_of columns (table_page s' i))
              ∙ ap (λ i. rows_of columns (table_page s' i)) here
              ∙ its_rows (blank-ArePageRows at)
              ∙ ap (λ rows. rows ++ r.row ∷ []) (blank_rows at),
        )
    table_rows-new (suc left) i at last e =
        behind (table_page s i) (table_page s' i) (table_rows columns s left (i + 1))
          (table_rows columns s' (suc left) (i + 1))
          (same_page i (λ same. absurd (omega (arith, same, last))) (omega arith))
          (table_rows-new left (i + 1) at last (omega arith))

    -- The rows of the table after the insertion are those before it and the new row.
    pub table_rows-RowStored :
        1 ≤ n
        → Inserted (table_rows columns s (n - 1) 1) (table_rows columns s' (stored.pages - 1) 1)
    table_rows-RowStored some_page = elim stored.place [
      | inl (pages, at) ↦
          subst (λ m. Inserted (table_rows columns s (n - 1) 1) (table_rows columns s' (m - 1) 1))
            (sym pages)
            (table_rows-old (n - 1) 1 at (omega arith) (omega arith) stored.added.data_page
              (omega (arith, stored.added.inside, pages)))
      | inr (pages, last, at, full) ↦
          let more : suc (n - 1) ≡ stored.pages - 1 = omega (arith, pages) in
          subst (λ m. Inserted (table_rows columns s (n - 1) 1) (table_rows columns s' m 1)) more
            (table_rows-new (n - 1) 1 at last (omega arith))
    ]
