-- ===== src/Storage/Row/Deserialize.antt =====
-- deserializeRow reads back what serializeRow writes.
use microsql.Base.{
  ℕ, suc, ◌+◌, ◌<◌, ◌≡◌, refl, sym, ap, ◌∙◌, Bool, true, false, List, [], ◌∷◌, ◌++◌, arith, length,
  length-append, ok, ◌>>=◌,
}
use microsql.Base.Memory.{Memory, read_bytes, read16, Holds, Holds-append, read_bytes-Holds}
use microsql.Ast.Statement.{ColumnDefinition, column_size}
use microsql.Storage.Row.{
  Value, Row, Schema, null, le_bytes, le_value, to_u64, u64_mod, bool_byte, read_value,
  read_columns, deserialize_row, bool_of_byte, serialize_row, is_null,
}
use microsql.Storage.Row.Bytes.{length-le_bytes, le_value-le_bytes, from_u64-to_u64, to_u64-lt}
use microsql.Storage.Row.Encoding.{
  payload, flag, encode_row, Stores, InRange, StoresRow, InRangeRow,
}
use microsql.Storage.Row.Serialize.{serialize_row-encode}
use mathlib.Core.List.{append_assoc, append-nil}

-- Eight bytes of a number come back.
le_value_held :
    (m : Memory) (off v : ℕ)
    → v < u64_mod
    → Holds m off (le_bytes 8 v)
    → le_value (read_bytes m off 8) ≡ v
le_value_held m off v small h =
    ap (λ n. le_value (read_bytes m off n)) (sym (length-le_bytes 8 v))
    ∙ ap le_value (read_bytes-Holds m off (le_bytes 8 v) h)
    ∙ le_value-le_bytes 8 v small

text_held :
    (m : Memory) (off : ℕ) (s : List ℕ)
    → length s < 0x1_0000
    → Holds m off (le_bytes 2 (length s) ++ s)
    → (read16 m off ≡ length s) × (read_bytes m (off + 2) (length s) ≡ s)
unfolding le_bytes read16
text_held m off s short h = (
  omega (arith, h.0, h.1.0),
  read_bytes-Holds m (off + 2) s (rw (let e : off + 2 ≡ off + 1 + 1 = omega arith in e) h.1.1),
)

bool_held :
    (m : Memory) (off : ℕ) (b : Bool)
    → m off ≡ bool_byte b
    → bool_of_byte (le_value (read_bytes m off 1)) ≡ ok b
unfolding le_value read_bytes bool_of_byte
bool_held m off true h = ground arith
bool_held m off false h = ground arith

read_value-payload :
    (m : Memory) (off : ℕ) (c : ColumnDefinition) (v : Value)
    → is_null v ≡ false
    → Stores c v
    → InRange v
    → Holds m off (payload v)
    → read_value m off c ≡ ok (v, off + length (payload v))
unfolding read_value payload column_size
read_value-payload m off c (Value.int v) n s r h = ground (
  arith,
  le_value_held m off (to_u64 v) (to_u64-lt v r) h,
  from_u64-to_u64 v r,
  length-le_bytes 8 (to_u64 v),
)
read_value-payload m off c (Value.float v) n s r h =
    ground (arith, le_value_held m off v r h, length-le_bytes 8 v)
read_value-payload m off c (Value.text s) n st r h = ground (
  arith,
  st.0,
  text_held m off s r h,
  length-le_bytes 2 (length s),
  length-append {0} (le_bytes 2 (length s)) s,
)
read_value-payload m off c (Value.bool b) n s r h = ground (arith, bool_held m off b h.0)
read_value-payload m off c null n s r h = cc

-- The two cases of the loop's test.
read_columns_null :
    (m : Memory) (off : ℕ) (acc : Row) (c : ColumnDefinition) (schema : Schema)
    → m off ≡ 1
    → read_columns m off acc (c ∷ schema) ≡ read_columns m (off + 1) (acc ++ null ∷ []) schema
unfolding read_columns
read_columns_null m off acc c schema h = rw (h, read_columns)

read_columns_value :
    (m : Memory) (off : ℕ) (acc : Row) (c : ColumnDefinition) (schema : Schema)
    → m off ≡ 0
    → read_columns m off acc (c ∷ schema)
      ≡ (read_value m (off + 1) c >>= λ (v, o). read_columns m o (acc ++ v ∷ []) schema)
unfolding read_columns
read_columns_value m off acc c schema h = rw (h, read_columns)

read_columns-cons_value :
    (m : Memory) (off : ℕ) (acc : Row) (c : ColumnDefinition) (schema : Schema) (v : Value)
    → is_null v ≡ false
    → Stores c v
    → InRange v
    → (m off ≡ 0) × Holds m (off + 1) (payload v)
    → read_columns m off acc (c ∷ schema)
      ≡ read_columns m (off + suc (length (payload v))) (acc ++ v ∷ []) schema
read_columns-cons_value m off acc c schema v n s r (zero_flag, h) =
    read_columns_value m off acc c schema zero_flag
    ∙ ap (λ x. x >>= λ (u, o). read_columns m o (acc ++ u ∷ []) schema)
        (read_value-payload m (off + 1) c v n s r h)
    ∙ ap (λ o. read_columns m o (acc ++ v ∷ []) schema)
        (let e : off + 1 + length (payload v) ≡ off + suc (length (payload v)) = omega arith in e)

read_columns-cons :
    (m : Memory) (off : ℕ) (acc : Row) (c : ColumnDefinition) (schema : Schema) (v : Value)
    → Stores c v
    → InRange v
    → Holds m off (flag v ∷ payload v)
    → read_columns m off acc (c ∷ schema)
      ≡ read_columns m (off + suc (length (payload v))) (acc ++ v ∷ []) schema
read_columns-cons m off acc c schema null s r h =
    unfold payload in read_columns_null m off acc c schema h.0
read_columns-cons m off acc c schema v s r h =
    read_columns-cons_value m off acc c schema v refl s r h

read_columns-encode :
    (m : Memory) (off : ℕ) (acc row : Row) (schema : Schema)
    → StoresRow schema row
    → InRangeRow row
    → Holds m off (encode_row row)
    → read_columns m off acc schema ≡ ok (acc ++ row)
unfolding encode_row
read_columns-encode m off acc [] [] s r h = unfold read_columns in ap ok (sym (append-nil acc))
read_columns-encode m off acc [] (c ∷ schema) s r h = absurd s
read_columns-encode m off acc (v ∷ row) [] s r h = absurd s
read_columns-encode m off acc (v ∷ row) (c ∷ schema) s r h =
    let (l, k) = Holds-append m off (flag v ∷ payload v) (encode_row row) h in
    read_columns-cons m off acc c schema v s.0 r.0 l
    ∙ read_columns-encode m (off + length (flag v ∷ payload v)) (acc ++ v ∷ []) row schema s.1 r.1 k
    ∙ ap ok (append_assoc acc (v ∷ []) row)

-- A row that was stored is read back as it was, whatever lies behind it in memory.
pub deserialize_row-serialize_row :
    (m : Memory) (row : Row) (schema : Schema) (bytes : List ℕ)
    → StoresRow schema row
    → InRangeRow row
    → serialize_row row schema ≡ ok bytes
    → Holds m 0 bytes
    → deserialize_row m schema ≡ ok row
unfolding deserialize_row
deserialize_row-serialize_row m row schema bytes s r h held =
    let e : bytes ≡ encode_row row = ground (arith, serialize_row-encode row schema s r) in
    read_columns-encode m 0 [] row schema s r (rw (sym e) held)
