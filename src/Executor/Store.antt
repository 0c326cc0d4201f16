-- ===== src/Executor/Store.antt =====
-- A table of src/executor/executor.cpp as the rows that its slots hold: when it is well formed.
pub mod Added
pub mod Insert
pub mod Rows
pub mod InsertRows
pub mod DeleteRows
pub mod Statements
pub mod Select
pub mod Delete
pub mod Tests
use microsql.Base.{
  ℕ, zero, suc, ◌+◌, ◌-◌, ◌*◌, ◌/◌, ◌%◌, ◌^◌, ◌≤◌, ◌<◌, ◌≡◌, refl, sym, ap, ◌∙◌, fun_ext, ◌≢◌, ◌↔◌,
  ◌⊎◌, inl, inr, Bool, true, false, not, ◌&&◌, ◌||◌, Option, none, some, List, [], ◌∷◌, ◌++◌, map,
  arith, ltb, leb, ◌==◌, if◌then◌else◌, ltb→lt, lt→ltb, le→ltb, ltb_false→le, leb_false→lt, leb→le,
  le→leb, ==_iff, ==_refl, Bool-cases, Option-cases, length, get_elem?, get_or, set, take, drop,
  replicate, length-append, length-take, length-replicate, take_all, get_elem?-append_left, Fault,
  bad_variant_access, invalid_argument, out_of_range, undefined, out_of_fuel, Outcome, ok, err,
  fault, ◌>>=◌, bind-eq-ok, OnOk, OnOk-bind, Text, codes, text_eq, text_eq_refl, text_eq→eq,
  to_string,
}
use mathlib.Core.Path.{subst}
use microsql.Ast.Statement.{ColumnDefinition}
use microsql.Storage.Page.{Page}
use microsql.Storage.Page.Slots.{slot_view}
use microsql.Storage.Row.{Value, Row, int, float, text, bool, null, serialize_row}
use microsql.Base.Int.{pos, negsuc}
use microsql.Storage.Row.Encoding.{InRangeRow}
use microsql.Executor.Slots.{read_slot_row}
use microsql.Executor.Values.{Double, value_eq}
use microsql.Executor.Session.{Session}
use microsql.Executor.Table.{IsTable, AreSound, table_page}
use microsql.Executor.Insert.Stored.{read_slot_row-serialize_row}

module _ (columns : List ColumnDefinition) where
  -- The bytes are those of a row of the table.
  pub record IsRow (bytes : List ℕ) : Type 0 where
    pub row : Row
    pub range : InRangeRow row
    pub run : serialize_row row columns ≡ ok bytes

  -- Every slot of the pages of data that holds something holds a row.
  abbrev pub AreRows : ℕ → Session → Type 0
  AreRows n s =
      (i : ℕ)
      → 1 ≤ i
      → i < n
      → (j : ℕ) (bytes : List ℕ) → slot_view (table_page s i) j ≡ some bytes
      → IsRow bytes

  -- A slot holds a row whose value in the key column is this one.
  pub record KeyOf (pk : ℕ) (p : Page) (j : ℕ) (value : Value) : Type 0 where
    pub bytes : List ℕ
    pub view : slot_view p j ≡ some bytes
    pub row : Row
    pub read : read_slot_row p j columns ≡ ok row
    pub column : get_elem? row pk ≡ some value

  -- A slot that holds the same row has the same key.
  pub KeyOf-view :
      (pk : ℕ) (p q : Page) (j : ℕ) (value : Value)
      → slot_view q j ≡ slot_view p j
      → ((bytes : List ℕ) → slot_view p j ≡ some bytes → IsRow bytes)
      → KeyOf pk q j value
      → KeyOf pk p j value
  KeyOf-view pk p q j value same rows k =
      let here : slot_view p j ≡ some k.bytes = sym same ∙ k.view in
      let r = rows k.bytes here in
      let in_q = read_slot_row-serialize_row q j k.bytes r.row columns k.view r.range r.run in
      let in_p = read_slot_row-serialize_row p j k.bytes r.row columns here r.range r.run in
      record {
        bytes = k.bytes;
        view = here;
        row = k.row;
        read = in_p ∙ sym in_q ∙ k.read;
        column = k.column;
      }

module _ (d : Double) (columns : List ColumnDefinition) (pk : ℕ) where
  -- The rows of two places of the table have different keys.
  abbrev pub AreApart : Session → ℕ → ℕ → ℕ → ℕ → Type 0
  AreApart s i j i' j' =
      (v v' : Value)
      → KeyOf columns pk (table_page s i) j v
      → KeyOf columns pk (table_page s i') j' v'
      → value_eq d v v' ≡ false

  abbrev pub AreKeys : ℕ → Session → Type 0
  AreKeys n s =
      (i i' : ℕ)
      → 1 ≤ i
      → i < n
      → 1 ≤ i'
      → i' < n
      → (j j' : ℕ) → ¬ ((i ≡ i') × (j ≡ j'))
      → AreApart s i j i' j'

  -- A table of n pages, sound pages of data that hold rows of the table, no two with one key.
  pub record IsStore (n : ℕ) (s : Session) : Type 0 where
    pub table : IsTable n s
    pub sound : AreSound n 1 s
    pub rows : AreRows columns n s
    pub keys : AreKeys n s

-- `==` of two variants does not depend on their order, where that of two doubles does not.
pub value_eq_comm :
    (d : Double)
    → ((a b : ℕ) → d.eq a b ≡ d.eq b a)
    → (v w : Value) → value_eq d v w ≡ false
    → value_eq d w v ≡ false
unfolding value_eq
value_eq_comm d comm (int (pos a)) (int (pos b)) h = ground arith
value_eq_comm d comm (int (pos a)) (int (negsuc b)) h = refl
value_eq_comm d comm (int (negsuc a)) (int (pos b)) h = refl
value_eq_comm d comm (int (negsuc a)) (int (negsuc b)) h = ground arith
value_eq_comm d comm (float a) (float b) h = comm b a ∙ h
value_eq_comm d comm (text a) (text b) h = elim (Bool-cases (text_eq b a)) [
  | inl same ↦
      let again : text_eq a b ≡ true =
        subst (λ b. text_eq a b ≡ true) (sym (text_eq→eq b a same)) (text_eq_refl a) in
      let never = sym again ∙ h in cc
  | inr other ↦ other
]
value_eq_comm d comm (bool true) (bool true) h = h
value_eq_comm d comm (bool true) (bool false) h = h
value_eq_comm d comm (bool false) (bool true) h = h
value_eq_comm d comm (bool false) (bool false) h = h
value_eq_comm d comm null null h = h
value_eq_comm d comm (int _) (float _) h = h
value_eq_comm d comm (int _) (text _) h = h
value_eq_comm d comm (int _) (bool true) h = refl
value_eq_comm d comm (int _) (bool false) h = refl
value_eq_comm d comm (int _) null h = h
value_eq_comm d comm (float _) (int _) h = h
value_eq_comm d comm (float _) (text _) h = h
value_eq_comm d comm (float _) (bool true) h = refl
value_eq_comm d comm (float _) (bool false) h = refl
value_eq_comm d comm (float _) null h = h
value_eq_comm d comm (text _) (int _) h = h
value_eq_comm d comm (text _) (float _) h = h
value_eq_comm d comm (text _) (bool true) h = refl
value_eq_comm d comm (text _) (bool false) h = refl
value_eq_comm d comm (text _) null h = h
value_eq_comm d comm (bool _) (int _) h = refl
value_eq_comm d comm (bool _) (float _) h = refl
value_eq_comm d comm (bool _) (text _) h = refl
value_eq_comm d comm (bool _) null h = refl
value_eq_comm d comm null (int _) h = h
value_eq_comm d comm null (float _) h = h
value_eq_comm d comm null (text _) h = h
value_eq_comm d comm null (bool true) h = refl
value_eq_comm d comm null (bool false) h = refl
