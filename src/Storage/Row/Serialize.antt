-- ===== src/Storage/Row/Serialize.antt =====
-- serializeRow writes the format of `Encoding`, and accepts no other rows.
use microsql.Base.{
  ℕ, suc, ◌+◌, ◌%◌, ◌<◌, ◌≡◌, refl, sym, ap, ◌∙◌, Bool, true, false, List, [], ◌∷◌, ◌++◌, arith,
  ==_refl, length, set, length-append, length-replicate, take_all, Outcome, ok, ◌>>=◌,
}
use microsql.Ast.Statement.{ColumnDefinition, column_size}
use microsql.Storage.Row.{
  Value, Row, Schema, null, RowError, le_bytes, to_u64, copy_at, bool_byte, value_size, total_size,
  fill_value, fill, serialize_row, get_text, is_null,
}
use microsql.Storage.Row.Bytes.{
  length-le_bytes, copy_at-append, zeros, zeros-add, flag_written, length-snoc,
}
use mathlib.Core.Path.{◌≡⟨◌⟩◌, ◌∎, ap₂}
use mathlib.Core.List.{append_assoc}
use microsql.Storage.Row.Encoding.{
  payload, flag, encode_row, Stores, InRange, StoresRow, InRangeRow,
}

length-StoresRow : (row : Row) (schema : Schema) → StoresRow schema row → length row ≡ length schema
length-StoresRow [] [] h = refl
length-StoresRow [] (c ∷ schema) h = absurd h
length-StoresRow (v ∷ row) [] h = absurd h
length-StoresRow (v ∷ row) (c ∷ schema) h = ap suc (length-StoresRow row schema h.1)

value_size-payload :
    (c : ColumnDefinition) (v : Value) → Stores c v → value_size c v ≡ ok (length (payload v))
unfolding value_size payload column_size get_text le_bytes
value_size-payload c (Value.int v) h = ground arith
value_size-payload c (Value.float v) h = ground arith
value_size-payload c (Value.text s) h = ground (arith, h.0, h.1)
value_size-payload c (Value.bool b) h = ground arith
value_size-payload c null h = refl

total_size-encode :
    (total : ℕ) (row : Row) (schema : Schema)
    → StoresRow schema row
    → total_size total row schema ≡ ok (total + length (encode_row row))
unfolding total_size encode_row
total_size-encode total [] [] h = ap ok (omega arith)
total_size-encode total [] (c ∷ schema) h = absurd h
total_size-encode total (v ∷ row) [] h = absurd h
total_size-encode total (v ∷ row) (c ∷ schema) h = rw (value_size-payload c v h.0) (
    total_size-encode (total + 1 + length (payload v)) row schema h.1
    ∙ ap ok (omega (arith, length-append {0} (payload v) (encode_row row))))

fill_text :
    (front old rest s : List ℕ)
    → length s < 0x1_0000
    → length old ≡ length (payload (Value.text s))
    → copy_at
        (copy_at (front ++ (old ++ rest)) (length front) (le_bytes 2 (length s)))
        (length front + 2)
        s
      ≡ front ++ (payload (Value.text s) ++ rest)
unfolding payload le_bytes
fill_text front (x ∷ y ∷ old) rest s h e =
    let head = le_bytes 2 (length s) in
    ap (λ b. copy_at b (length front + 2) s)
      (copy_at-append front (x ∷ y ∷ []) head (old ++ rest) refl)
    ∙ ap (λ b. copy_at b (length front + 2) s) (sym (append_assoc front head (old ++ rest)))
    ∙ ap (λ n. copy_at ((front ++ head) ++ (old ++ rest)) n s) (sym (length-append front head))
    ∙ copy_at-append (front ++ head) old s rest (omega arith)
    ∙ append_assoc front head (s ++ rest)
fill_text front (x ∷ []) rest s h e = absurd (omega arith)
fill_text front [] rest s h e = absurd (omega arith)

le_bytes-bool : (b : Bool) → le_bytes 1 (bool_byte b) ≡ bool_byte b ∷ []
unfolding le_bytes
le_bytes-bool true = refl
le_bytes-bool false = refl

length-payload_text : (s : List ℕ) → length (payload (Value.text s)) ≡ 2 + length s
unfolding payload le_bytes
length-payload_text s = omega arith

fill_value-payload :
    (front old rest : List ℕ) (c : ColumnDefinition) (v : Value)
    → is_null v ≡ false
    → Stores c v
    → InRange v
    → length old ≡ length (payload v)
    → fill_value (front ++ (old ++ rest)) (length front) c v
      ≡ ok (front ++ (payload v ++ rest), length front + length (payload v))
unfolding payload fill_value column_size
fill_value-payload front old rest c (Value.int v) n h r e =
    ground
      (arith, copy_at-append front old (le_bytes 8 (to_u64 v)) rest e, length-le_bytes 8 (to_u64 v))
fill_value-payload front old rest c (Value.float v) n h r e =
    ground (arith, copy_at-append front old (le_bytes 8 v) rest e, length-le_bytes 8 v)
fill_value-payload front old rest c (Value.text s) n h r e =
    let short : length s % 0x1_0000 ≡ length s = omega (arith, r) in
    ground (arith, h.0, short, fill_text front old rest s r e, take_all s, length-payload_text s)
fill_value-payload front old rest c (Value.bool b) n h r e = ground (
  arith,
  le_bytes-bool b,
  copy_at-append front old (le_bytes 1 (bool_byte b)) rest
      (e ∙ sym (length-le_bytes 1 (bool_byte b))),
)
fill_value-payload front old rest c null n h r e = cc

pub fill_step :
    (buf : List ℕ) (off : ℕ) (v : Value) (row : Row) (c : ColumnDefinition) (schema : Schema)
    → is_null v ≡ false
    → fill buf off (v ∷ row) (c ∷ schema)
      ≡ (fill_value (set buf off 0) (off + 1) c v >>= λ (b, o). fill b o row schema)
unfolding fill
fill_step buf off null row c schema n = cc
fill_step buf off _ row c schema n = refl

pub fill_null :
    (buf : List ℕ) (off : ℕ) (row : Row) (c : ColumnDefinition) (schema : Schema)
    → fill buf off (null ∷ row) (c ∷ schema) ≡ fill (set buf off 1) (off + 1) row schema
unfolding fill
fill_null buf off row c schema = refl

flag-not_null : (v : Value) → is_null v ≡ false → flag v ≡ 0
flag-not_null null n = cc
flag-not_null _ n = refl

-- `fill` of the rest of a row, from a buffer of zeros behind what is written.
abbrev FillsRest : Row → Schema → Type 0
FillsRest row schema =
    (front : List ℕ)
    → fill (front ++ zeros (length (encode_row row))) (length front) row schema
      ≡ ok (front ++ encode_row row)

fill-cons_null :
    (row : Row) (c : ColumnDefinition) (schema : Schema)
    → FillsRest row schema
    → FillsRest (null ∷ row) (c ∷ schema)
unfolding encode_row payload
fill-cons_null row c schema ih front =
    fill (front ++ 0 ∷ zeros (length (encode_row row))) (length front) (null ∷ row) (c ∷ schema)
    ≡⟨ fill_null _ _ row c schema ⟩
      fill (set (front ++ 0 ∷ zeros (length (encode_row row))) (length front) 1) (length front + 1)
        row schema
    ≡⟨ ap₂ (λ b o. fill b o row schema) (flag_written front _ 1) (length-snoc front 1) ⟩
      fill ((front ++ 1 ∷ []) ++ zeros (length (encode_row row))) (length (front ++ 1 ∷ [])) row
        schema
    ≡⟨ ih (front ++ 1 ∷ []) ⟩ ok ((front ++ 1 ∷ []) ++ encode_row row)
    ≡⟨ ap ok (append_assoc front (1 ∷ []) (encode_row row)) ⟩ ok (front ++ 1 ∷ encode_row row) ∎

fill-cons_value :
    (v : Value) (row : Row) (c : ColumnDefinition) (schema : Schema)
    → is_null v ≡ false
    → Stores c v
    → InRange v
    → FillsRest row schema
    → FillsRest (v ∷ row) (c ∷ schema)
unfolding encode_row
fill-cons_value v row c schema n h r ih front =
    let enc : List ℕ = encode_row row in
    let p : List ℕ = payload v in
    let front' : List ℕ = front ++ 0 ∷ [] in
    let rest : List ℕ × ℕ → Outcome RowError (List ℕ) = λ (b, o). fill b o row schema in
    fill (front ++ 0 ∷ zeros (length (p ++ enc))) (length front) (v ∷ row) (c ∷ schema)
    ≡⟨ fill_step _ _ v row c schema n ⟩
      (fill_value (set (front ++ 0 ∷ zeros (length (p ++ enc))) (length front) 0) (length front + 1)
          c v
        >>= rest)
    ≡⟨ ap₂ (λ b o. fill_value b o c v >>= rest) (flag_written front _ 0) (length-snoc front 0) ⟩
      (fill_value (front' ++ zeros (length (p ++ enc))) (length front') c v >>= rest)
    ≡⟨ ap (λ z. fill_value (front' ++ z) (length front') c v >>= rest)
        (ap zeros (length-append p enc) ∙ zeros-add (length p) (length enc)) ⟩
      (fill_value (front' ++ (zeros (length p) ++ zeros (length enc))) (length front') c v >>= rest)
    ≡⟨ ap (λ x. x >>= rest)
        (fill_value-payload front' (zeros (length p)) (zeros (length enc)) c v n h r
          (length-replicate (length p) 0)) ⟩
      fill (front' ++ (p ++ zeros (length enc))) (length front' + length p) row schema
    ≡⟨ ap₂ (λ b o. fill b o row schema) (sym (append_assoc front' p (zeros (length enc))))
        (sym (length-append front' p)) ⟩
      fill ((front' ++ p) ++ zeros (length enc)) (length (front' ++ p)) row schema
    ≡⟨ ih (front' ++ p) ⟩ ok ((front' ++ p) ++ enc)
    ≡⟨ ap ok (append_assoc front' p enc ∙ append_assoc front (0 ∷ []) (p ++ enc)) ⟩
      ok (front ++ 0 ∷ (p ++ enc))
    ≡⟨ ap (λ b. ok (front ++ b ∷ (p ++ enc))) (sym (flag-not_null v n)) ⟩
      ok (front ++ flag v ∷ (p ++ enc)) ∎

fill-encode :
    (row : Row) (schema : Schema) → StoresRow schema row → InRangeRow row → FillsRest row schema
fill-encode [] [] h r front = unfold fill encode_row in refl
fill-encode [] (c ∷ schema) h r front = absurd h
fill-encode (v ∷ row) [] h r front = absurd h
fill-encode (null ∷ row) (c ∷ schema) h r front =
    fill-cons_null row c schema (fill-encode row schema h.1 r.1) front
fill-encode (v ∷ row) (c ∷ schema) h r front =
    fill-cons_value v row c schema refl h.0 r.0 (fill-encode row schema h.1 r.1) front

-- For a row with the schema's number of columns, types and text lengths and with values in range,
-- the two loops of serializeRow give the concatenation of the encodings of its values.
pub serialize_row-encode :
    (row : Row) (schema : Schema)
    → StoresRow schema row
    → InRangeRow row
    → serialize_row row schema ≡ ok (encode_row row)
unfolding serialize_row
serialize_row-encode row schema h r =
    rw (length-StoresRow row schema h, ==_refl (length schema), total_size-encode 0 row schema h)
      (ap (λ n. fill (zeros n) 0 row schema)
          (let e : 0 + length (encode_row row) ≡ length (encode_row row) = omega arith in e)
        ∙ fill-encode row schema h r [])
