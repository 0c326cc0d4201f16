-- ===== src/Storage/Row/Tests.antt =====
-- Runs of the row format, and its theorems at concrete rows.
use microsql.Base.{
  ℕ, ◌≡◌, refl, true, false, List, [], ◌∷◌, arith, get_or, bad_variant_access, ok, err, fault,
  codes,
}
use microsql.Base.Int.{pos, negsuc}
use microsql.Base.Memory.{Memory, Holds}
use microsql.Ast.Statement.{DataType, integer, float, text, boolean, ColumnDefinition, column_size}
use microsql.Storage.Row.{
  Value, Row, Schema, null, serialize_row, deserialize_row, total_size, value_size, fill,
  fill_value, copy_at, le_bytes, to_u64, schema_mismatch,
}
use microsql.Storage.Row.Encoding.{encode_row, StoresRow, InRangeRow}
use microsql.Storage.Row.Serialize.{serialize_row-encode}
use microsql.Storage.Row.Accepts.{serialize_row-StoresRow, row_round_trip, serialize_row_mismatch}
use microsql.Storage.Row.Throws.{serialize_row_throws}

abbrev column : DataType → ℕ → ColumnDefinition
column t n = record {
  name = codes "c";
  type = t;
  text_length = pos n;
  not_null = false;
  primary_key = false;
}

abbrev schema : Schema
schema =
    column integer 0 ∷ column text 5 ∷ column boolean 0 ∷ column float 0 ∷ column integer 0 ∷ []

abbrev row : Row
row =
    Value.int (negsuc 1)
    ∷ Value.text (codes "bob")
    ∷ Value.bool true
    ∷ Value.float 0x3ff0_0000_0000_0000
    ∷ null
    ∷ []

abbrev bytes : List ℕ
bytes =
    0 ∷ 254 ∷ 255 ∷ 255 ∷ 255 ∷ 255 ∷ 255 ∷ 255 ∷ 255 ∷ 0 ∷ 3 ∷ 0 ∷ 98 ∷ 111 ∷ 98 ∷ 0 ∷ 1 ∷ 0 ∷ 0
    ∷ 0 ∷ 0 ∷ 0 ∷ 0 ∷ 0 ∷ 240 ∷ 63 ∷ 1 ∷ []

-- The bytes, with other data behind them.
abbrev memory : Memory
memory a = get_or bytes a 77

row-StoresRow : StoresRow schema row
unfolding to_u64
row-StoresRow = (refl, ((refl, omega arith), (refl, (refl, (tt, tt)))))

row-InRange : InRangeRow row
row-InRange = (refl, (omega arith, (tt, (omega arith, (tt, tt)))))

serialize_run : serialize_row row schema ≡ ok bytes
unfolding serialize_row total_size value_size fill fill_value copy_at le_bytes to_u64 column_size
serialize_run = refl

serialize_row-encode_example : serialize_row row schema ≡ ok (encode_row row)
serialize_row-encode_example = serialize_row-encode row schema row-StoresRow row-InRange

serialize_row-StoresRow_example : StoresRow schema row
serialize_row-StoresRow_example = serialize_row-StoresRow row schema bytes serialize_run

memory-Holds : Holds memory 0 bytes
memory-Holds = omega arith

row_round_trip_example : deserialize_row memory schema ≡ ok row
row_round_trip_example =
    row_round_trip memory row schema bytes row-InRange serialize_run memory-Holds

serialize_row_mismatch_example : serialize_row (null ∷ []) schema ≡ err schema_mismatch
serialize_row_mismatch_example = serialize_row_mismatch (null ∷ []) schema (omega arith)

-- A text, and a number where a Boolean is due.
serialize_row_throws_example :
    serialize_row
      (Value.text (codes "ab") ∷ Value.int (pos 1) ∷ [])
      (column text 5 ∷ column boolean 0 ∷ [])
    ≡ fault bad_variant_access
unfolding to_u64
serialize_row_throws_example =
    serialize_row_throws (Value.text (codes "ab") ∷ Value.int (pos 1) ∷ [])
      (column text 5 ∷ column boolean 0 ∷ []) refl ((λ e. omega arith), (tt, tt))
      (λ stores. let e = stores.1.0 in cc)
