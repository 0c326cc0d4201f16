-- ===== src/Storage/Row.antt =====
-- src/storage/row.h and src/storage/row.cpp: rows as bytes.
-- `std::get` of the wrong alternative throws, and no caller catches that: a fault. The `default` of
-- the two switches is for a value outside the enumeration, and `DataType` has none.
pub mod Bytes
pub mod Encoding
pub mod Serialize
pub mod Deserialize
pub mod Accepts
pub mod Throws
mod Tests
use microsql.Base.{
  ℕ, zero, suc, ◌+◌, ◌-◌, ◌*◌, ◌/◌, ◌%◌, ◌^◌, ◌≤◌, ◌<◌, ◌≡◌, refl, sym, ap, ◌∙◌, fun_ext, ◌≢◌, ◌↔◌,
  ◌⊎◌, inl, inr, Bool, true, false, not, ◌&&◌, ◌||◌, Option, none, some, List, [], ◌∷◌, ◌++◌, map,
  arith, ltb, leb, ◌==◌, if◌then◌else◌, ltb→lt, lt→ltb, le→ltb, ltb_false→le, leb→le, le→leb,
  ==_iff, ==_refl, Bool-cases, length, get_elem?, get_or, set, take, drop, replicate, length-append,
  length-take, length-replicate, take_all, get_elem?-append_left, Fault, bad_variant_access,
  invalid_argument, out_of_range, undefined, out_of_fuel, Outcome, ok, err, fault, ◌>>=◌,
  bind-eq-ok, Text, codes, text_eq, text_eq_refl, text_eq→eq, to_string,
}
use microsql.Base.Int.{ℤ, pos, negsuc}
use microsql.Base.Memory.{Memory, read_bytes, read16}
use microsql.Ast.Statement.{DataType, ColumnDefinition, column_size}

pub data RowError : Type 0 where
  schema_mismatch data_type_not_supported text_too_long : RowError

-- A `double` is its 64 bits; `null` is SQL's NULL.
pub data Value : Type 0 where
  int : ℤ → Value
  float : ℕ → Value
  text : Text → Value
  bool : Bool → Value
  null : Value

abbrev pub Row : Type 0
Row = List Value

abbrev pub Schema : Type 0
Schema = List ColumnDefinition

-- The n low bytes of a number, least first, and back.
unfoldable pub le_bytes : ℕ → ℕ → List ℕ
le_bytes zero v = []
le_bytes (suc n) v = v % 256 ∷ le_bytes n (v / 256)

unfoldable pub le_value : List ℕ → ℕ
le_value [] = 0
le_value (b ∷ bs) = b + 256 * le_value bs

abbrev pub u64_mod : ℕ
u64_mod = 0x1_0000_0000_0000_0000

-- The object representation of an `int64_t`, and the conversion of an `int` to `size_t`.
unfoldable pub to_u64 : ℤ → ℕ
to_u64 (pos n) = n
to_u64 (negsuc n) = u64_mod - 1 - n

unfoldable pub from_u64 : ℕ → ℤ
from_u64 u = if ltb u 0x8000_0000_0000_0000 then pos u else negsuc (u64_mod - 1 - u)

-- std::get
unfoldable pub get_int : Value → Outcome RowError ℤ
get_int (int v) = ok v
get_int _ = fault bad_variant_access

unfoldable pub get_float : Value → Outcome RowError ℕ
get_float (float v) = ok v
get_float _ = fault bad_variant_access

unfoldable pub get_text : Value → Outcome RowError Text
get_text (text v) = ok v
get_text _ = fault bad_variant_access

unfoldable pub get_bool : Value → Outcome RowError Bool
get_bool (bool v) = ok v
get_bool _ = fault bad_variant_access

abbrev pub is_null : Value → Bool
is_null null = true
is_null _ = false

-- What one column adds to `totalSize` behind its flag byte.
unfoldable pub value_size : ColumnDefinition → Value → Outcome RowError ℕ
unfolding get_text
value_size c v = if is_null v then ok 0 else elim c.type [
  | DataType.text ↦ do
    str ← get_text v
    if ltb (to_u64 c.text_length) (length str) then err text_too_long else ok (2 + length str)
  | _ ↦ ok (column_size c)
]

unfoldable pub total_size : ℕ → Row → Schema → Outcome RowError ℕ
total_size total (v ∷ row) (c ∷ schema) = do
  size ← value_size c v
  total_size (total + 1 + size) row schema
total_size total _ _ = ok total

-- memcpy into a vector; a write outside it is dropped here.
unfoldable pub copy_at : List ℕ → ℕ → List ℕ → List ℕ
copy_at buf off [] = buf
copy_at buf off (b ∷ bs) = copy_at (set buf off b) (off + 1) bs

abbrev pub bool_byte : Bool → ℕ
bool_byte true = 1
bool_byte false = 0

-- One case of the switch: the buffer and the offset behind the value.
unfoldable pub fill_value : List ℕ → ℕ → ColumnDefinition → Value → Outcome RowError (List ℕ × ℕ)
unfolding get_int get_float get_text get_bool
fill_value buf off c value = elim c.type [
  | DataType.boolean ↦ do
    v ← get_bool value
    ok (copy_at buf off (le_bytes (column_size c) (bool_byte v)), off + column_size c)
  | DataType.integer ↦ do
    v ← get_int value
    ok (copy_at buf off (le_bytes (column_size c) (to_u64 v)), off + column_size c)
  | DataType.float ↦ do
    v ← get_float value
    ok (copy_at buf off (le_bytes (column_size c) v), off + column_size c)
  | DataType.text ↦ do
    str ← get_text value
    let len = length str % 0x1_0000
    ok (copy_at (copy_at buf off (le_bytes 2 len)) (off + 2) (take len str), off + 2 + len)
]

unfoldable pub fill : List ℕ → ℕ → Row → Schema → Outcome RowError (List ℕ)
fill buf off (null ∷ row) (c ∷ schema) = fill (set buf off 1) (off + 1) row schema
fill buf off (v ∷ row) (c ∷ schema) = do
  (buf, off) ← fill_value (set buf off 0) (off + 1) c v
  fill buf off row schema
fill buf off _ _ = ok buf

-- serializeRow
unfoldable pub serialize_row : Row → Schema → Outcome RowError (List ℕ)
serialize_row row schema =
    if length row == length schema
    then (do size ← total_size 0 row schema; fill (replicate size 0) 0 row schema)
    else err schema_mismatch

-- A byte that is no `bool` may not be read as one.
unfoldable pub bool_of_byte : ℕ → Outcome RowError Bool
bool_of_byte b = if b == 0 then ok false else if b == 1 then ok true else fault undefined

unfoldable pub read_value : Memory → ℕ → ColumnDefinition → Outcome RowError (Value × ℕ)
unfolding bool_of_byte
read_value m off c = elim c.type [
  | DataType.boolean ↦ do
    val ← bool_of_byte (le_value (read_bytes m off (column_size c)))
    ok (bool val, off + column_size c)
  | DataType.integer ↦
      ok (int (from_u64 (le_value (read_bytes m off (column_size c)))), off + column_size c)
  | DataType.float ↦ ok (float (le_value (read_bytes m off (column_size c))), off + column_size c)
  | DataType.text ↦ let len = read16 m off in ok (text (read_bytes m (off + 2) len), off + 2 + len)
]

-- The loop over the columns, with the offset and the row so far.
unfoldable pub read_columns : Memory → ℕ → Row → Schema → Outcome RowError Row
read_columns m off row [] = ok row
read_columns m off row (c ∷ schema) = elim (m off == 0) [
  | false ↦ read_columns m (off + 1) (row ++ null ∷ []) schema
  | true ↦ do (val, off) ← read_value m (off + 1) c; read_columns m off (row ++ val ∷ []) schema
]

-- deserializeRow
unfoldable pub deserialize_row : Memory → Schema → Outcome RowError Row
deserialize_row m schema = read_columns m 0 [] schema
