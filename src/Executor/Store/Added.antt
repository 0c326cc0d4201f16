-- ===== src/Executor/Store/Added.antt =====
-- A well-formed table of src/executor/executor.cpp with one more row.
use microsql.Base.{
  ℕ, ◌≤◌, ◌<◌, ◌≡◌, sym, ap, ◌∙◌, ◌≢◌, ◌⊎◌, inl, inr, false, none, some, List, arith, ◌==◌, ==_iff,
  ==_refl, Bool-cases, get_elem?, ok,
}
use mathlib.Core.Path.{subst}
use microsql.Ast.Statement.{ColumnDefinition}
use microsql.Storage.Page.{num_slots}
use microsql.Storage.Page.Slots.{IsLive, IsValid, slot_view}
use microsql.Storage.Page.Init.{init_empty}
use microsql.Storage.TableFile.Pages.{blank_page}
use microsql.Storage.Row.{Value, Row, serialize_row}
use microsql.Storage.Row.Encoding.{InRangeRow}
use microsql.Executor.Slots.{read_slot_row}
use microsql.Executor.Values.{Double, value_eq}
use microsql.Executor.Session.{Session}
use microsql.Executor.Table.{AreSound, table_page}
use microsql.Executor.Key.{KeyAt}
use microsql.Executor.Insert.Stored.{RowStored, slot_view-some}
use microsql.Executor.Store.{IsStore, IsRow, AreRows, AreKeys, KeyOf, KeyOf-view, value_eq_comm}

module _ (row : Row) (columns : List ColumnDefinition) (bytes : List ℕ) (n : ℕ) (s s' : Session)
    (stored : RowStored row columns bytes n s s') where
  abbrev place : ℕ
  place = stored.page

  abbrev slot : ℕ
  slot = num_slots stored.before

  -- A slot after the insertion is the new one, or one of the table before it.
  abbrev Old : ℕ → ℕ → Type 0
  Old i j = (i < n) × (slot_view (table_page s' i) j ≡ slot_view (table_page s i) j)

  blank_view : (j : ℕ) → slot_view (blank_page n) j ≡ none
  blank_view j =
      let (_, _, empty, _) = init_empty (record { bytes = λ a. 0; page_id = 0 }) n in empty j

  -- The page with the new row.
  on_its_page :
      (j : ℕ) (held : List ℕ)
      → slot_view (table_page s' place) j ≡ some held
      → j ≢ slot
      → Old place j
  on_its_page j held h ne =
      let other : (j == slot) ≡ false = ground arith in
      let same : slot_view (table_page s' place) j ≡ slot_view stored.before j =
        stored.added.views j ∙ rw other in
      elim stored.place [
        | inl (pages, before) ↦
            (omega (arith, stored.added.inside, pages), same ∙ ap (λ p. slot_view p j) before)
        | inr (pages, at, before, full) ↦
            let gone : slot_view (table_page s' place) j ≡ none =
              same ∙ ap (λ p. slot_view p j) before ∙ blank_view j in
            let never = sym gone ∙ h in cc
      ]

  -- Any other page was there.
  old_page : (i : ℕ) → i < stored.pages → i ≢ place → i < n
  old_page i h ne = elim stored.place [
    | inl (pages, before) ↦ omega arith
    | inr (pages, at, before, full) ↦ omega (arith, at, pages, h, ne)
  ]

  slot_origin :
      (i j : ℕ) (held : List ℕ)
      → i < stored.pages
      → slot_view (table_page s' i) j ≡ some held
      → (i ≡ place) × (j ≡ slot) ⊎ Old i j
  slot_origin i j held h view = elim (Bool-cases (i == place)) [
    | inr elsewhere ↦
        let ne : i ≢ place = ground arith in
        let inside : i < n = old_page i h ne in
        inr (inside, ap (λ p. slot_view p j) (stored.added.others i ne inside))
    | inl here ↦
        let e = (==_iff i place).0 here in
        elim (Bool-cases (j == slot)) [
          | inl new ↦ inl (e, (==_iff j slot).0 new)
          | inr other ↦ inr (
              subst (λ i. Old i j) (sym e)
                (on_its_page j held (subst (λ i. slot_view (table_page s' i) j ≡ some held) e view)
                  (ground arith)))
        ]
  ]

  module _ (d : Double) (pk : ℕ) (value : Value) (comm : (a b : ℕ) → d.eq a b ≡ d.eq b a)
      (store : IsStore d columns pk n s) (column : get_elem? row pk ≡ some value)
      (run : serialize_row row columns ≡ ok bytes) (range : InRangeRow row) where
    -- The key of a slot: the new row's, or one that was there.
    key_origin :
        (i j : ℕ) (v : Value)
        → 1 ≤ i
        → i < stored.pages
        → KeyOf columns pk (table_page s' i) j v
        → (i ≡ place) × (j ≡ slot) × (v ≡ value) ⊎ (i < n) × KeyOf columns pk (table_page s i) j v
    key_origin i j v low h k = elim (slot_origin i j k.bytes h k.view) [
      | inl (at, new) ↦
          let same : read_slot_row (table_page s' i) j columns ≡ ok row =
            ap (λ i. read_slot_row (table_page s' i) j columns) at
            ∙ ap (λ j. read_slot_row (table_page s' place) j columns) new
            ∙ stored.reads in
          let row_same : k.row ≡ row = (let e = sym k.read ∙ same in cc) in
          inl (at, new, (let e = sym k.column ∙ ap (λ r. get_elem? r pk) row_same ∙ column in cc))
      | inr (inside, view) ↦ inr (
        inside,
        KeyOf-view columns pk (table_page s i) (table_page s' i) j v view
            (store.rows i low inside j) k,
      )
    ]

    -- No row of the table before has the new key, as the check of execInsert finds it.
    abbrev IsNewKey : Type 0
    IsNewKey =
        (k : ℕ)
        → 1 ≤ k
        → k < n
        → (j : ℕ) → IsLive (table_page s k) j
        → KeyAt d columns pk value (table_page s k) none j false

    new_key :
        IsNewKey
        → (i j : ℕ) (v : Value) → 1 ≤ i
        → i < n
        → KeyOf columns pk (table_page s i) j v
        → value_eq d v value ≡ false
    new_key absent i j v low h k =
        let (live, _) = slot_view-some (table_page s i) j k.bytes k.view in
        let a = absent i low h j live in
        let row_same : a.row ≡ k.row = (let e = sym a.read ∙ k.read in cc) in
        let key_same : a.key ≡ v =
          (let e = sym a.column ∙ ap (λ r. get_elem? r pk) row_same ∙ k.column in cc) in
        subst (λ v. value_eq d v value ≡ false) key_same a.compared

    rows_after : AreRows columns stored.pages s'
    rows_after i low h j held view = elim (slot_origin i j held h view) [
      | inr (inside, same) ↦ store.rows i low inside j held (sym same ∙ view)
      | inl (at, new) ↦
          let there : slot_view (table_page s' i) j ≡ some bytes =
            ap (λ i. slot_view (table_page s' i) j) at
            ∙ ap (λ j. slot_view (table_page s' place) j) new
            ∙ stored.added.views slot
            ∙ rw (==_refl slot) in
          let same : bytes ≡ held = (let e = sym there ∙ view in cc) in
          subst (IsRow columns) same (record { row = row; range = range; run = run })
    ]

    keys_after : IsNewKey → AreKeys d columns pk stored.pages s'
    keys_after absent i i' low h low' h' j j' ne v v' k k' = elim (key_origin i j v low h k) [
      | inl (at, new, same) ↦ elim (key_origin i' j' v' low' h' k') [
        | inl (at', new', same') ↦ absurd (ne (at ∙ sym at', new ∙ sym new'))
        | inr (inside', old') ↦
            subst (λ v. value_eq d v v' ≡ false) (sym same)
              (value_eq_comm d comm v' value (new_key absent i' j' v' low' inside' old'))
      ]
      | inr (inside, old) ↦ elim (key_origin i' j' v' low' h' k') [
        | inl (at', new', same') ↦
            subst (λ w. value_eq d v w ≡ false) (sym same') (new_key absent i j v low inside old)
        | inr (inside', old') ↦ store.keys i i' low inside low' inside' j j' ne v v' old old'
      ]
    ]

    sound_after : AreSound stored.pages 1 s'
    sound_after j low h = elim (Bool-cases (j == place)) [
      | inl here ↦
          subst (λ j. IsValid (table_page s' j)) (sym ((==_iff j place).0 here)) stored.added.sound
      | inr elsewhere ↦
          let inside : j < n = old_page j h (ground arith) in
          subst IsValid (sym (stored.added.others j (ground arith) inside))
            (store.sound j low inside)
    ]

    -- The table with the new row is well formed, if no row before had its key.
    pub RowStored-IsStore : IsNewKey → IsStore d columns pk stored.pages s'
    RowStored-IsStore absent = record {
      table = stored.added.table;
      sound = sound_after;
      rows = rows_after;
      keys = keys_after absent;
    }
