-- ===== src/Executor/Select.antt =====
-- The loop of execSelect over the slots of a page, in src/executor/executor.cpp.
pub mod Table
use microsql.Base.{
  ℕ, zero, suc, ◌+◌, ◌≡◌, refl, sym, ap, ◌∙◌, inl, inr, Bool, true, false, Option, none, List, [],
  ◌∷◌, ◌++◌, Bool-cases, ok, err, fault, bind-eq-ok, Text,
}
use mathlib.Core.Path.{subst}
use mathlib.Core.List.{append_assoc, append-nil}
use microsql.Ast.Statement.{ColumnDefinition}
use microsql.Ast.Expression.{Expression}
use microsql.Storage.Page.{Page, num_slots, slot_deleted}
use microsql.Storage.Page.Slots.{slot_view}
use microsql.Storage.Row.{Row}
use microsql.Executor.Error.{Exec}
use microsql.Executor.Values.{Double}
use microsql.Executor.Slots.{read_slot_row, selects, select_slot, select_slots}
use microsql.Executor.Delete.Slot.{slot_deleted-view}

module _ (d : Double) (expressions : List Expression) (where_index : Option ℕ)
    (columns : List ColumnDefinition) (names : List Text) (page : Page) where
  -- What a slot gives to the result: its row, if it holds one that is meant.
  pub data SlotRows (j : ℕ) : List Row → Type 0 where
    no_row : slot_view page j ≡ none → SlotRows j []
    not_meant :
        {row : Row}
        → read_slot_row page j columns ≡ ok row
        → selects d expressions where_index row names ≡ ok false
        → SlotRows j []
    meant :
        {row : Row}
        → read_slot_row page j columns ≡ ok row
        → selects d expressions where_index row names ≡ ok true
        → SlotRows j (row ∷ [])

  -- The rows of a number of slots from one on, in their order.
  pub data PageRows : ℕ → ℕ → List Row → Type 0 where
    no_slots : {slot : ℕ} → PageRows zero slot []
    one_slot :
        {left slot : ℕ} {xs ys : List Row}
        → SlotRows slot xs
        → PageRows left (slot + 1) ys
        → PageRows (suc left) slot (xs ++ ys)

  abbrev AddsSlot : ℕ → List Row → Exec (List Row) → Type 0
  AddsSlot slot rows (ok out) = (xs : List Row) × SlotRows slot xs × (out ≡ rows ++ xs)
  AddsSlot slot rows (err e) = Unit {0}
  AddsSlot slot rows (fault u) = Unit {0}

  select_slot-SlotRows :
      (slot : ℕ) (rows : List Row)
      → AddsSlot slot rows (select_slot d expressions where_index columns names page slot rows)
  unfolding select_slot
  select_slot-SlotRows slot rows = elim (Bool-cases (slot_deleted page slot)) [
    | inl gone ↦
        rw (gone, select_slot)
          ([], no_row (slot_deleted-view page slot gone), sym (append-nil rows))
    | inr there ↦ by_row (read_slot_row page slot columns) refl there
  ]
    where
      Goal : Type 0
      Goal = AddsSlot slot rows (select_slot d expressions where_index columns names page slot rows)

      by_match :
          (row : Row) (m : Exec Bool)
          → slot_deleted page slot ≡ false
          → read_slot_row page slot columns ≡ ok row
          → selects d expressions where_index row names ≡ m
          → Goal
      by_match row (ok false) there read e =
          rw (there, read, e, select_slot) ([], not_meant read e, sym (append-nil rows))
      by_match row (ok true) there read e =
          rw (there, read, e, select_slot) (row ∷ [], meant read e, refl)
      by_match row (err x) there read e = rw (there, read, e, select_slot) tt
      by_match row (fault u) there read e = rw (there, read, e, select_slot) tt

      by_row :
          (r : Exec Row)
          → read_slot_row page slot columns ≡ r
          → slot_deleted page slot ≡ false
          → Goal
      by_row (ok row) e there =
          by_match row (selects d expressions where_index row names) there e refl
      by_row (err x) e there = rw (there, e, select_slot) tt
      by_row (fault u) e there = rw (there, e, select_slot) tt

  abbrev AllRows : List Row → Exec (List Row) → Type 0
  AllRows rows (ok out) = out ≡ rows ++ []
  AllRows rows (err e) = Unit {0}
  AllRows rows (fault u) = Unit {0}

  pub select_slots-PageRows :
      (left slot : ℕ) (rows out : List Row)
      → select_slots d expressions where_index columns names page left slot rows ≡ ok out
      → (xs : List Row) × PageRows left slot xs × (out ≡ rows ++ xs)
  unfolding select_slots
  select_slots-PageRows zero slot rows out run =
      ([], no_slots, subst (AllRows rows) run (sym (append-nil rows)))
  select_slots-PageRows (suc left) slot rows out run =
      let (rows', first, rest) =
        bind-eq-ok (select_slot d expressions where_index columns names page slot rows)
          (λ r. select_slots d expressions where_index columns names page left (slot + 1) r) run in
      let (xs, a, e) : AddsSlot slot rows (ok rows') =
        subst (AddsSlot slot rows) first (select_slot-SlotRows slot rows) in
      let (ys, b, e') = select_slots-PageRows left (slot + 1) rows' out rest in
      (xs ++ ys, one_slot a b, e' ∙ ap (λ r. r ++ ys) e ∙ append_assoc rows xs ys)

  -- Where the loop of execSelect over a page comes to its end, its result is, in the order of the
  -- slots, the row of each slot that holds a row for which the WHERE clause holds, and nothing
  -- else.
  pub select_slots-rows :
      (out : List Row)
      → select_slots d expressions where_index columns names page (num_slots page) 0 [] ≡ ok out
      → PageRows (num_slots page) 0 out
  select_slots-rows out run =
      let (xs, a, e) = select_slots-PageRows (num_slots page) 0 [] out run in
      subst (PageRows (num_slots page) 0) (sym e) a
