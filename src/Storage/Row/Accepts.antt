-- ===== src/Storage/Row/Accepts.antt =====
-- Which rows serializeRow accepts, and why it refuses the others.
use microsql.Base.{
  ℕ, ◌+◌, ◌≤◌, ◌≡◌, refl, sym, ◌∙◌, ◌≢◌, inl, inr, List, [], ◌∷◌, arith, ◌==◌, ==_iff, Bool-cases,
  length, set, replicate, ok, err, ◌>>=◌, bind-eq-ok, Text,
}
use microsql.Base.Memory.{Memory, Holds}
use microsql.Ast.Statement.{text, ColumnDefinition}
use microsql.Storage.Row.{
  Value, Row, Schema, null, to_u64, value_size, total_size, fill_value, fill, serialize_row,
  schema_mismatch, deserialize_row,
}
use microsql.Storage.Row.Encoding.{Stores, StoresRow, InRangeRow}
use microsql.Storage.Row.Serialize.{fill_step, fill_null}
use microsql.Storage.Row.Deserialize.{deserialize_row-serialize_row}

fill_value-text :
    (buf : List ℕ) (off : ℕ) (c : ColumnDefinition) (s : Text) {r : List ℕ × ℕ}
    → fill_value buf off c (Value.text s) ≡ ok r
    → c.type ≡ text
unfolding fill_value
fill_value-text buf off c s k = ground arith

value_size-text :
    (c : ColumnDefinition) (s : Text) {n : ℕ}
    → c.type ≡ text
    → value_size c (Value.text s) ≡ ok n
    → length s ≤ to_u64 c.text_length
unfolding value_size
value_size-text c s e h = ground arith

value-Stores :
    (buf : List ℕ) (off : ℕ) (c : ColumnDefinition) (v : Value) {n : ℕ} {r : List ℕ × ℕ}
    → value_size c v ≡ ok n
    → fill_value buf off c v ≡ ok r
    → Stores c v
unfolding fill_value
value-Stores buf off c (Value.int v) h k = ground arith
value-Stores buf off c (Value.float v) h k = ground arith
value-Stores buf off c (Value.text s) h k =
    let e = fill_value-text buf off c s k in (e, value_size-text c s e h)
value-Stores buf off c (Value.bool v) h k = ground arith
value-Stores buf off c null h k = tt

pub total_step :
    (total : ℕ) (v : Value) (row : Row) (c : ColumnDefinition) (schema : Schema)
    → total_size total (v ∷ row) (c ∷ schema)
      ≡ (value_size c v >>= λ size. total_size (total + 1 + size) row schema)
unfolding total_size
total_step total v row c schema = refl

-- What the two loops accept together.
loops-StoresRow :
    (total : ℕ) (buf : List ℕ) (off : ℕ) (row : Row) (schema : Schema) {n : ℕ} {bytes : List ℕ}
    → length row ≡ length schema
    → total_size total row schema ≡ ok n
    → fill buf off row schema ≡ ok bytes
    → StoresRow schema row
loops-StoresRow total buf off [] [] e h k = tt
loops-StoresRow total buf off [] (c ∷ schema) e h k = absurd (omega (arith, e))
loops-StoresRow total buf off (v ∷ row) [] e h k = absurd (omega (arith, e))
loops-StoresRow total buf off (null ∷ row) (c ∷ schema) e h k =
    let (size, _, h') =
      bind-eq-ok (value_size c null) _ (sym (total_step total _ row c schema) ∙ h) in
    (
      tt,
      loops-StoresRow (total + 1 + size) (set buf off 1) (off + 1) row schema (omega (arith, e)) h'
          (sym (fill_null buf off row c schema) ∙ k),
    )
loops-StoresRow total buf off (v ∷ row) (c ∷ schema) e h k =
    let (size, hs, h') =
      bind-eq-ok (value_size c v) _ (sym (total_step total _ row c schema) ∙ h) in
    let ((b, o), ks, k') =
      bind-eq-ok (fill_value (set buf off 0) (off + 1) c v) _
        (sym (fill_step buf off v row c schema refl) ∙ k) in
    (
      value-Stores (set buf off 0) (off + 1) c v hs ks,
      loops-StoresRow (total + 1 + size) b o row schema (omega (arith, e)) h' k',
    )

serialize_row_parts :
    (row : Row) (schema : Schema) {bytes : List ℕ}
    → serialize_row row schema ≡ ok bytes
    → (length row ≡ length schema)
      × ((total_size 0 row schema >>= λ size. fill (replicate size 0) 0 row schema) ≡ ok bytes)
unfolding serialize_row
serialize_row_parts row schema h = elim (Bool-cases (length row == length schema)) [
  | inl same ↦ ((==_iff _ _).0 same, ground arith)
  | inr other ↦ absurd (ground arith)
]

-- A row that serializeRow takes has the schema's number of columns, each value null or of the
-- column's type, and each text within its column's length.
pub serialize_row-StoresRow :
    (row : Row) (schema : Schema) (bytes : List ℕ)
    → serialize_row row schema ≡ ok bytes
    → StoresRow schema row
serialize_row-StoresRow row schema bytes h =
    let (e, k) = serialize_row_parts row schema h in
    let (size, hs, hf) =
      bind-eq-ok (total_size 0 row schema) (λ size. fill (replicate size 0) 0 row schema) k in
    loops-StoresRow 0 (replicate size 0) 0 row schema e hs hf

-- A row that serializeRow takes, with its values in their machine ranges, is what deserializeRow
-- reads back from memory that holds the bytes, whatever lies behind them.
pub row_round_trip :
    (m : Memory) (row : Row) (schema : Schema) (bytes : List ℕ)
    → InRangeRow row
    → serialize_row row schema ≡ ok bytes
    → Holds m 0 bytes
    → deserialize_row m schema ≡ ok row
row_round_trip m row schema bytes r h held =
    deserialize_row-serialize_row m row schema bytes (serialize_row-StoresRow row schema bytes h) r
      h held

-- A wrong number of values and a text above its column's length are refused.
pub serialize_row_mismatch :
    (row : Row) (schema : Schema)
    → length row ≢ length schema
    → serialize_row row schema ≡ err schema_mismatch
unfolding serialize_row
serialize_row_mismatch row schema h = ground arith
