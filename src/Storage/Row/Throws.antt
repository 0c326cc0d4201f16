-- ===== src/Storage/Row/Throws.antt =====
-- When serializeRow of src/storage/row.cpp leaves by an exception of std::get.
use microsql.Base.{
  ℕ, ◌+◌, ◌≤◌, ◌≡◌, refl, sym, inl, inr, true, List, [], ◌∷◌, arith, ltb, ◌==◌, ==_iff, Bool-cases,
  length, set, replicate, bad_variant_access, invalid_argument, out_of_range, undefined,
  out_of_fuel, Outcome, ok, err, fault, ◌>>=◌,
}
use mathlib.Core.Path.{subst}
use microsql.Ast.Statement.{ColumnDefinition, DataType}
use microsql.Storage.Row.{
  Value, Row, Schema, RowError, null, is_null, to_u64, value_size, total_size, fill_value, fill,
  serialize_row, get_int, get_float, get_text, get_bool,
}
use microsql.Storage.Row.Encoding.{StoresRow}
use microsql.Storage.Row.Serialize.{fill_step}
use microsql.Storage.Row.Accepts.{serialize_row-StoresRow}

-- A text in a TEXT column is within the column's length.
abbrev pub TextFits : ColumnDefinition → Value → Type 0
TextFits c (Value.text s) = c.type ≡ DataType.text → length s ≤ to_u64 c.text_length
TextFits c _ = Unit {0}

abbrev pub TextsFit : Schema → Row → Type 0
TextsFit (c ∷ schema) (v ∷ row) = TextFits c v × TextsFit schema row
TextsFit _ _ = Unit {0}

-- A value, or the exception of std::get; no error is returned.
abbrev Gets : {A : Type 0} → Outcome RowError A → Type 0
Gets (ok a) = Unit {0}
Gets (err e) = ⊥
Gets (fault bad_variant_access) = Unit {0}
Gets (fault _) = ⊥

Gets-bind :
    {A B : Type 0} (m : Outcome RowError A) (rest : A → Outcome RowError B)
    → Gets m
    → ((a : A) → Gets (rest a))
    → Gets (m >>= rest)
Gets-bind (ok a) rest h k = k a
Gets-bind (err e) rest h k = absurd h
Gets-bind (fault bad_variant_access) rest h k = tt
Gets-bind (fault invalid_argument) rest h k = absurd h
Gets-bind (fault out_of_range) rest h k = absurd h
Gets-bind (fault undefined) rest h k = absurd h
Gets-bind (fault out_of_fuel) rest h k = absurd h

get_bool-Gets : (v : Value) → Gets (get_bool v)
unfolding get_bool
get_bool-Gets (Value.bool v) = tt
get_bool-Gets _ = tt

get_int-Gets : (v : Value) → Gets (get_int v)
unfolding get_int
get_int-Gets (Value.int v) = tt
get_int-Gets _ = tt

get_float-Gets : (v : Value) → Gets (get_float v)
unfolding get_float
get_float-Gets (Value.float v) = tt
get_float-Gets _ = tt

get_text-Gets : (v : Value) → Gets (get_text v)
unfolding get_text
get_text-Gets (Value.text v) = tt
get_text-Gets _ = tt

value_size-Gets : (c : ColumnDefinition) (v : Value) → TextFits c v → Gets (value_size c v)
unfolding value_size get_text
value_size-Gets c v h = go c.type refl v h
  where
    go : (t : DataType) → c.type ≡ t → (v : Value) → TextFits c v → Gets (value_size c v)
    go DataType.text e (Value.text s) h =
        elim (Bool-cases (ltb (to_u64 c.text_length) (length s))) [
          | inl large ↦ absurd (ground (arith, h e))
          | inr fits ↦ rw (e, fits, value_size) tt
        ]
    go DataType.text e (Value.int n) h = rw (e, value_size) tt
    go DataType.text e (Value.float n) h = rw (e, value_size) tt
    go DataType.text e (Value.bool b) h = rw (e, value_size) tt
    go DataType.text e null h = tt
    go t e v h = elim (Bool-cases (is_null v)) [
      | inl empty ↦ rw (empty, value_size) tt
      | inr there ↦ rw (there, e, value_size) tt
    ]

total_size-Gets :
    (total : ℕ) (row : Row) (schema : Schema)
    → TextsFit schema row
    → Gets (total_size total row schema)
unfolding total_size
total_size-Gets total [] schema h = tt
total_size-Gets total (v ∷ row) [] h = tt
total_size-Gets total (v ∷ row) (c ∷ schema) (h, hs) =
    Gets-bind (value_size c v) _ (value_size-Gets c v h)
      λ size. total_size-Gets (total + 1 + size) row schema hs

fill_value-Gets :
    (buf : List ℕ) (off : ℕ) (c : ColumnDefinition) (v : Value) → Gets (fill_value buf off c v)
unfolding fill_value get_int get_float get_text get_bool
fill_value-Gets buf off c v = go c.type refl
  where
    go : (t : DataType) → c.type ≡ t → Gets (fill_value buf off c v)
    go DataType.boolean e = rw (e, fill_value) (Gets-bind (get_bool v) _ (get_bool-Gets v) λ b. tt)
    go DataType.integer e = rw (e, fill_value) (Gets-bind (get_int v) _ (get_int-Gets v) λ n. tt)
    go DataType.float e = rw (e, fill_value) (Gets-bind (get_float v) _ (get_float-Gets v) λ n. tt)
    go DataType.text e = rw (e, fill_value) (Gets-bind (get_text v) _ (get_text-Gets v) λ s. tt)

fill-Gets :
    (buf : List ℕ) (off : ℕ) (row : Row) (schema : Schema)
    → length row ≡ length schema
    → Gets (fill buf off row schema)
unfolding fill
fill-Gets buf off [] schema e = tt
fill-Gets buf off (v ∷ row) [] e = absurd (omega (arith, e))
fill-Gets buf off (null ∷ row) (c ∷ schema) e =
    fill-Gets (set buf off 1) (off + 1) row schema (omega (arith, e))
fill-Gets buf off (v ∷ row) (c ∷ schema) e =
    subst Gets (sym (fill_step buf off v row c schema refl)) (
      Gets-bind (fill_value (set buf off 0) (off + 1) c v) _
        (fill_value-Gets (set buf off 0) (off + 1) c v)
        λ r. fill-Gets r.0 r.1 row schema (omega (arith, e)))

serialize_row-Gets :
    (row : Row) (schema : Schema)
    → length row ≡ length schema
    → TextsFit schema row
    → Gets (serialize_row row schema)
unfolding serialize_row
serialize_row-Gets row schema e h =
    let same : (length row == length schema) ≡ true = (==_iff _ _).1 e in
    rw same (
      Gets-bind (total_size 0 row schema) _ (total_size-Gets 0 row schema h)
        λ size. fill-Gets (replicate size 0) 0 row schema e)

-- Where a row has the schema's number of values, each text in a TEXT column is within the
-- column's length, and some value is neither NULL nor of its column's type, serializeRow ends
-- with an uncaught std::bad_variant_access, whichever of its two loops meets the value.
pub serialize_row_throws :
    (row : Row) (schema : Schema)
    → length row ≡ length schema
    → TextsFit schema row
    → ¬ StoresRow schema row
    → serialize_row row schema ≡ fault bad_variant_access
serialize_row_throws row schema e h other =
    go (serialize_row row schema) refl (serialize_row-Gets row schema e h)
  where
    go :
        (o : Outcome RowError (List ℕ))
        → serialize_row row schema ≡ o
        → Gets o
        → serialize_row row schema ≡ fault bad_variant_access
    go (ok bytes) run g = absurd (other (serialize_row-StoresRow row schema bytes run))
    go (err x) run g = absurd g
    go (fault bad_variant_access) run g = run
    go (fault _) run g = absurd g
