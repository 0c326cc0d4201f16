-- ===== src/Executor/Key.antt =====
-- primaryKeyExists over the slots of a page, in src/executor/executor.cpp.
use microsql.Base.{
  ℕ, zero, suc, ◌+◌, ◌≤◌, ◌<◌, ◌≡◌, refl, sym, ap, ◌∙◌, inl, inr, Bool, true, false, Option, none,
  some, List, arith, ◌==◌, if◌then◌else◌, ==_iff, Bool-cases, get_elem?, ok, ◌>>=◌, bind-eq-ok,
}
use microsql.Ast.Statement.{ColumnDefinition}
use microsql.Storage.Page.{Page, num_slots}
use microsql.Storage.Page.Slots.{IsLive}
use microsql.Storage.Row.{Value, Row}
use microsql.Executor.Error.{Exec}
use microsql.Executor.Values.{Double, value_eq}
use microsql.Executor.Eval.{or_undefined}
use microsql.Executor.Slots.{read_slot_row, skipped, key_in_slot, key_in_slots}
use microsql.Executor.Delete.Slot.{IsLive-slot_deleted}

or_undefined-ok : {A : Type 0} (o : Option A) {a : A} → or_undefined o ≡ ok a → o ≡ some a
or_undefined-ok none h = cc
or_undefined-ok (some b) h = cc

ok_injective : {A : Type 0} {a b : A} → (let m : Exec A = ok a in m) ≡ ok b → a ≡ b
ok_injective h = cc

not_found :
    (found : Bool) (rest : Exec Bool)
    → (if found then ok true else rest) ≡ ok false
    → (found ≡ false) × (rest ≡ ok false)
not_found true rest h = cc
not_found false rest h = (refl, h)

module _ (d : Double) (columns : List ColumnDefinition) (pk : ℕ) (value : Value) (page : Page)
    (skip : Option ℕ) where
  -- The row of a slot has a value in the primary key column, and whether it is the value sought.
  pub record KeyAt (j : ℕ) (same : Bool) : Type 0 where
    pub row : Row
    pub read : read_slot_row page j columns ≡ ok row
    pub key : Value
    pub column : get_elem? row pk ≡ some key
    pub compared : value_eq d key value ≡ same

  key_in_slot-KeyAt :
      (j : ℕ) (same : Bool)
      → IsLive page j
      → skipped d columns pk value page skip j ≡ false
      → key_in_slot d columns pk value page skip j ≡ ok same
      → KeyAt j same
  unfolding key_in_slot
  key_in_slot-KeyAt j same live other run =
      let opened : key_in_slot d columns pk value page skip j ≡ (
          read_slot_row page j columns >>= λ row.
          or_undefined (get_elem? row pk) >>= λ key. ok (value_eq d key value)) =
        rw (IsLive-slot_deleted page j live, other, key_in_slot) in
      let (row, read, rest) = bind-eq-ok (read_slot_row page j columns) _ (sym opened ∙ run) in
      let (key, column, compared) = bind-eq-ok (or_undefined (get_elem? row pk)) _ rest in
      record {
        row = row;
        read = read;
        key = key;
        column = or_undefined-ok (get_elem? row pk) column;
        compared = ok_injective compared;
      }

  key_in_slots-from :
      (left slot : ℕ)
      → key_in_slots d columns pk value page skip left slot ≡ ok false
      → (j : ℕ) → slot ≤ j
      → j < slot + left
      → IsLive page j
      → skipped d columns pk value page skip j ≡ false
      → KeyAt j false
  unfolding key_in_slots
  key_in_slots-from zero slot run j h k live other = absurd (omega arith)
  key_in_slots-from (suc left) slot run j h k live other =
      let (found, first, rest) = bind-eq-ok (key_in_slot d columns pk value page skip slot) _ run in
      let (not_here, later) = not_found found _ rest in
      elim (Bool-cases (j == slot)) [
        | inl same ↦
            let e = (==_iff j slot).0 same in
            key_in_slot-KeyAt j false live other
              (ap (key_in_slot d columns pk value page skip) e ∙ first ∙ ap ok not_here)
        | inr beyond ↦
            key_in_slots-from left (slot + 1) later j (ground arith) (omega arith) live other
      ]

  -- Where no slot of a page is found to hold the value, no row on it does.
  pub key_in_slots-KeyAt :
      key_in_slots d columns pk value page skip (num_slots page) 0 ≡ ok false
      → (j : ℕ) → IsLive page j
      → skipped d columns pk value page skip j ≡ false
      → KeyAt j false
  key_in_slots-KeyAt run j live other =
      key_in_slots-from (num_slots page) 0 run j (omega arith) (omega (arith, live.0)) live other
