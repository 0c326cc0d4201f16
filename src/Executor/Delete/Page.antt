-- ===== src/Executor/Delete/Page.antt =====
-- What the loop of execDelete in src/executor/executor.cpp leaves of a page, slot by slot.
use microsql.Base.{
  ℕ, zero, suc, ◌+◌, ◌≤◌, ◌<◌, ◌≡◌, refl, sym, ◌∙◌, ◌≢◌, inl, inr, Bool, true, false, Option, none,
  List, arith, ◌==◌, ==_iff, ==_refl, Bool-cases, ok, err, fault, ◌>>=◌, Text,
}
use mathlib.Core.Path.{subst}
use microsql.Ast.Statement.{ColumnDefinition}
use microsql.Ast.Expression.{Expression}
use microsql.Storage.Page.{Page, page_size, num_slots, slot_deleted, delete_row}
use microsql.Storage.Page.Slots.{IsLive, IsLive-cases, IsValid, slot_view, slot_view_dead}
use microsql.Storage.Page.Delete.{slot_view-delete_row, delete_row-IsValid, delete_row_outside}
use microsql.Storage.Row.{Row}
use microsql.Executor.Error.{Exec}
use microsql.Executor.Values.{Double}
use microsql.Executor.Slots.{read_slot_row, selects, delete_slot, delete_slots}
use microsql.Executor.Delete.Slot.{slot_deleted-IsLive, slot_deleted-view, read_slot_row-delete_row}

-- One page in two states: its number, and the memory behind it.
pub record SameOutside (p q : Page) : Type 0 where
  pub page_id : q.page_id ≡ p.page_id
  pub bytes : (a : ℕ) → page_size ≤ a → q.bytes a ≡ p.bytes a

module _ (d : Double) (expressions : List Expression) (where_index : Option ℕ)
    (columns : List ColumnDefinition) (names : List Text) where
  -- What became of a slot: it held no row, or its row is meant and it is empty, or its row is not
  -- meant and it holds what it held.
  pub data SlotAfter (p q : Page) (j : ℕ) : Type 0 where
    was_empty : slot_view p j ≡ none → slot_view q j ≡ none → SlotAfter p q j
    deleted :
        {row : Row}
        → read_slot_row p j columns ≡ ok row
        → selects d expressions where_index row names ≡ ok true
        → slot_view q j ≡ none
        → SlotAfter p q j
    kept :
        {row : Row}
        → read_slot_row p j columns ≡ ok row
        → selects d expressions where_index row names ≡ ok false
        → slot_view q j ≡ slot_view p j
        → IsLive q j
        → read_slot_row q j columns ≡ ok row
        → SlotAfter p q j

  -- A round of the loop: the slot is done, and the others are as they were.
  record Round (slot : ℕ) (p q : Page) : Type 0 where
    sound : IsValid q
    slots : num_slots q ≡ num_slots p
    outside : SameOutside p q
    after : SlotAfter p q slot
    views : (j : ℕ) → j ≢ slot → slot_view q j ≡ slot_view p j
    reads :
        (j : ℕ)
        → IsLive p j
        → j ≢ slot
        → IsLive q j × (read_slot_row q j columns ≡ read_slot_row p j columns)

  abbrev OnPage : (Page → Type 0) → Exec (Page × ℕ) → Type 0
  OnPage P (ok (q, count)) = P q
  OnPage P (err e) = Unit {0}
  OnPage P (fault u) = Unit {0}

  still : (slot : ℕ) (p : Page) → IsValid p → SlotAfter p p slot → Round slot p p
  still slot p v a = record {
    sound = v;
    slots = refl;
    outside = record { page_id = refl; bytes = λ a h. refl };
    after = a;
    views = λ j ne. refl;
    reads = λ j l ne. (l, refl);
  }

  removed :
      (slot : ℕ) (p : Page) {row : Row}
      → IsValid p
      → IsLive p slot
      → read_slot_row p slot columns ≡ ok row
      → selects d expressions where_index row names ≡ ok true
      → Round slot p (delete_row p slot).0
  removed slot p v live read match =
      let (_, slots, views) = slot_view-delete_row p slot v live in
      let (bytes, same_id) = delete_row_outside p slot v live in
      record {
        sound = delete_row-IsValid p slot v;
        slots = slots;
        outside = record { page_id = same_id; bytes = bytes };
        after = deleted read match (rw (views slot, ==_refl slot));
        views = λ j ne. let other : (j == slot) ≡ false = ground arith in rw (views j, other);
        reads = λ j l ne. read_slot_row-delete_row p slot j columns v live l ne;
      }

  delete_slot-Round :
      (slot : ℕ) (p : Page) (count : ℕ)
      → IsValid p
      → slot < num_slots p
      → OnPage (Round slot p) (delete_slot d expressions where_index columns names slot (p, count))
  unfolding delete_slot
  delete_slot-Round slot p count v inside = elim (Bool-cases (slot_deleted p slot)) [
    | inl gone ↦
        let none_there = slot_deleted-view p slot gone in
        rw (gone, delete_slot) (still slot p v (was_empty none_there none_there))
    | inr there ↦ by_row (read_slot_row p slot columns) refl there
  ]
    where
      Goal : Type 0
      Goal =
          OnPage (Round slot p)
            (delete_slot d expressions where_index columns names slot (p, count))

      by_match :
          (row : Row) (m : Exec Bool)
          → slot_deleted p slot ≡ false
          → read_slot_row p slot columns ≡ ok row
          → selects d expressions where_index row names ≡ m
          → Goal
      by_match row (ok false) there read e =
          rw (there, read, e, delete_slot)
            (still slot p v (kept read e refl (slot_deleted-IsLive p slot inside there) read))
      by_match row (ok true) there read e =
          let live = slot_deleted-IsLive p slot inside there in
          let (done, _, _) = slot_view-delete_row p slot v live in
          rw (there, read, e, done, delete_slot) (removed slot p v live read e)
      by_match row (err x) there read e = rw (there, read, e, delete_slot) tt
      by_match row (fault u) there read e = rw (there, read, e, delete_slot) tt

      by_row :
          (r : Exec Row) → read_slot_row p slot columns ≡ r → slot_deleted p slot ≡ false → Goal
      by_row (ok row) e there =
          by_match row (selects d expressions where_index row names) there e refl
      by_row (err x) e there = rw (there, e, delete_slot) tt
      by_row (fault u) e there = rw (there, e, delete_slot) tt

  -- The slots from `slot` on are done, and those before are as they were.
  record PageAfter (slot : ℕ) (p q : Page) : Type 0 where
    sound : IsValid q
    slots : num_slots q ≡ num_slots p
    outside : SameOutside p q
    early : (j : ℕ) → j < slot → slot_view q j ≡ slot_view p j
    early_reads :
        (j : ℕ)
        → j < slot
        → IsLive p j
        → IsLive q j × (read_slot_row q j columns ≡ read_slot_row p j columns)
    after : (j : ℕ) → slot ≤ j → j < num_slots p → SlotAfter p q j

  -- What later rounds leave alone.
  SlotAfter-later :
      {p q q' : Page} (j : ℕ)
      → slot_view q' j ≡ slot_view q j
      → (IsLive q j → IsLive q' j × (read_slot_row q' j columns ≡ read_slot_row q j columns))
      → SlotAfter p q j
      → SlotAfter p q' j
  SlotAfter-later j e f (was_empty a b) = was_empty a (e ∙ b)
  SlotAfter-later j e f (deleted r m b) = deleted r m (e ∙ b)
  SlotAfter-later j e f (kept r m b l k) = kept r m (e ∙ b) (f l).0 ((f l).1 ∙ k)

  slot_view-SlotAfter :
      {p q : Page} (j : ℕ) → slot_view p j ≡ none → SlotAfter p q j → slot_view q j ≡ none
  slot_view-SlotAfter j h (was_empty a b) = b
  slot_view-SlotAfter j h (deleted r m b) = b
  slot_view-SlotAfter j h (kept r m b l k) = b ∙ h

  -- A slot whose row an earlier round left alone.
  SlotAfter-Round :
      {slot : ℕ} {p p' q : Page} (j : ℕ)
      → Round slot p p'
      → j ≢ slot
      → SlotAfter p' q j
      → SlotAfter p q j
  SlotAfter-Round {p} j r ne a = elim (IsLive-cases p j) [
    | inl live ↦
        let read = (r.reads j live ne).1 in
        elim a [
          | was_empty x y ↦ was_empty (sym (r.views j ne) ∙ x) y
          | deleted x m y ↦ deleted (sym read ∙ x) m y
          | kept x m y l k ↦ kept (sym read ∙ x) m (y ∙ r.views j ne) l k
        ]
    | inr dead ↦
        let empty = slot_view_dead p j dead in
        was_empty empty (slot_view-SlotAfter j (r.views j ne ∙ empty) a)
  ]

  PageAfter-Round :
      (slot : ℕ) (p p' q : Page) → Round slot p p' → PageAfter (slot + 1) p' q → PageAfter slot p q
  PageAfter-Round slot p p' q r a = record {
    sound = a.sound;
    slots = a.slots ∙ r.slots;
    outside = record {
      page_id = a.outside.page_id ∙ r.outside.page_id;
      bytes = λ b h. a.outside.bytes b h ∙ r.outside.bytes b h;
    };
    early = λ j h. a.early j (omega arith) ∙ r.views j (omega arith);
    early_reads = λ j h live.
        let (l, e) = r.reads j live (omega arith) in
        let (l', e') = a.early_reads j (omega arith) l in (l', e' ∙ e);
    after = λ j h k. elim (Bool-cases (j == slot)) [
      | inl same ↦ subst (SlotAfter p q) (sym ((==_iff j slot).0 same)) (
          SlotAfter-later slot (a.early slot (omega arith)) (a.early_reads slot (omega arith))
            r.after)
      | inr other ↦
          let ne : j ≢ slot = ground arith in
          SlotAfter-Round j r ne (a.after j (omega arith) (omega (arith, r.slots)))
    ];
  }

  OnPage-Round :
      (slot : ℕ) (p p' : Page)
      → Round slot p p'
      → (r : Exec (Page × ℕ)) → OnPage (PageAfter (slot + 1) p') r
      → OnPage (PageAfter slot p) r
  OnPage-Round slot p p' r (ok (q, c)) a = PageAfter-Round slot p p' q r a
  OnPage-Round slot p p' r (err x) a = tt
  OnPage-Round slot p p' r (fault u) a = tt

  -- The rounds after the first, where it came to its end.
  OnPage-bind :
      (slot : ℕ) (p : Page) (r : Exec (Page × ℕ)) (k : Page × ℕ → Exec (Page × ℕ))
      → OnPage (Round slot p) r
      → ((p' : Page) (c : ℕ) → Round slot p p' → OnPage (PageAfter (slot + 1) p') (k (p', c)))
      → OnPage (PageAfter slot p) (r >>= k)
  OnPage-bind slot p (ok (p', c)) k r h = OnPage-Round slot p p' r (k (p', c)) (h p' c r)
  OnPage-bind slot p (err x) k r h = tt
  OnPage-bind slot p (fault u) k r h = tt

  delete_slots-PageAfter :
      (left slot : ℕ) (p : Page) (count : ℕ)
      → IsValid p
      → slot + left ≡ num_slots p
      → OnPage
          (PageAfter slot p)
          (delete_slots d expressions where_index columns names left slot (p, count))
  unfolding delete_slots
  delete_slots-PageAfter zero slot p count v e = record {
    sound = v;
    slots = refl;
    outside = record { page_id = refl; bytes = λ a h. refl };
    early = λ j h. refl;
    early_reads = λ j h l. (l, refl);
    after = λ j h k. absurd (omega arith);
  }
  delete_slots-PageAfter (suc left) slot p count v e =
      OnPage-bind slot p (delete_slot d expressions where_index columns names slot (p, count)) _
        (delete_slot-Round slot p count v (omega arith))
        λ p' c r. delete_slots-PageAfter left (slot + 1) p' c r.sound (omega (arith, r.slots))

  delete_slots-from :
      (p q : Page) (count count' : ℕ)
      → IsValid p
      → delete_slots d expressions where_index columns names (num_slots p) 0 (p, count)
        ≡ ok (q, count')
      → PageAfter 0 p q
  delete_slots-from p q count count' v run =
      subst (OnPage (PageAfter 0 p)) run
        (delete_slots-PageAfter (num_slots p) 0 p count v (omega arith))

  pub delete_slots-SameOutside :
      (p q : Page) (count count' : ℕ)
      → IsValid p
      → delete_slots d expressions where_index columns names (num_slots p) 0 (p, count)
        ≡ ok (q, count')
      → SameOutside p q
  delete_slots-SameOutside p q count count' v run =
      (delete_slots-from p q count count' v run).outside

  -- Where the loop of execDelete over a sound page comes to its end, the page is sound, has the
  -- slots it had, and each slot either held no row, or held a row for which the WHERE clause
  -- holds and is empty, or held a row for which it does not hold and holds what it held.
  pub delete_slots-SlotAfter :
      (p q : Page) (count count' : ℕ)
      → IsValid p
      → delete_slots d expressions where_index columns names (num_slots p) 0 (p, count)
        ≡ ok (q, count')
      → IsValid q × (num_slots q ≡ num_slots p) × ((j : ℕ) → j < num_slots p → SlotAfter p q j)
  delete_slots-SlotAfter p q count count' v run =
      let a = delete_slots-from p q count count' v run in
      (a.sound, a.slots, λ j h. a.after j (omega arith) h)
