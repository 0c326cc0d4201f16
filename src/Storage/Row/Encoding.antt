-- ===== src/Storage/Row/Encoding.antt =====
-- The byte format of a row, written down on its own: a flag byte for each column and, where it is
-- not NULL, the value. `serializeRow` produces it.
use microsql.Base.{ℕ, ◌≤◌, ◌<◌, ◌≡◌, true, List, [], ◌∷◌, ◌++◌, length}
use microsql.Base.Int.{fits_int64}
use microsql.Ast.Statement.{integer, float, text, boolean, ColumnDefinition}
use microsql.Storage.Row.{Value, Row, Schema, null, le_bytes, to_u64, u64_mod, bool_byte}

unfoldable pub payload : Value → List ℕ
payload (Value.int v) = le_bytes 8 (to_u64 v)
payload (Value.float v) = le_bytes 8 v
payload (Value.text s) = le_bytes 2 (length s) ++ s
payload (Value.bool b) = bool_byte b ∷ []
payload null = []

abbrev pub flag : Value → ℕ
flag null = 1
flag _ = 0

unfoldable pub encode_row : Row → List ℕ
encode_row [] = []
encode_row (v ∷ row) = (flag v ∷ payload v) ++ encode_row row

-- The value may stand in the column.
abbrev pub Stores : ColumnDefinition → Value → Type 0
Stores c (Value.int v) = c.type ≡ integer
Stores c (Value.float v) = c.type ≡ float
Stores c (Value.text s) = (c.type ≡ text) × (length s ≤ to_u64 c.text_length)
Stores c (Value.bool b) = c.type ≡ boolean
Stores c null = Unit {0}

-- The value is one that its C++ type can hold, and a text has a length of 16 bits.
abbrev pub InRange : Value → Type 0
InRange (Value.int v) = fits_int64 v ≡ true
InRange (Value.float v) = v < u64_mod
InRange (Value.text s) = length s < 0x1_0000
InRange (Value.bool b) = Unit {0}
InRange null = Unit {0}

abbrev pub StoresRow : Schema → Row → Type 0
StoresRow [] [] = Unit {0}
StoresRow [] (v ∷ row) = ⊥
StoresRow (c ∷ schema) [] = ⊥
StoresRow (c ∷ schema) (v ∷ row) = Stores c v × StoresRow schema row

abbrev pub InRangeRow : Row → Type 0
InRangeRow [] = Unit {0}
InRangeRow (v ∷ row) = InRange v × InRangeRow row
