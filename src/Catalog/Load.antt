-- ===== src/Catalog/Load.antt =====
-- split and Catalog::load of src/catalog/catalog.cpp. catalog.txt is read line by line, outside and
-- inside a table's block; the tables read before an error stay in the catalog.
pub mod Columns
pub mod Fields
pub mod Words
pub mod RoundTrip
use microsql.Base.{
  ℕ, zero, suc, ◌+◌, ◌-◌, ◌*◌, ◌/◌, ◌%◌, ◌^◌, ◌≤◌, ◌<◌, ◌≡◌, refl, sym, ap, ◌∙◌, fun_ext, ◌≢◌, ◌↔◌,
  ◌⊎◌, inl, inr, Bool, true, false, not, ◌&&◌, ◌||◌, Option, none, some, List, [], ◌∷◌, ◌++◌, map,
  arith, ltb, leb, ◌==◌, if◌then◌else◌, ltb→lt, lt→ltb, le→ltb, ltb_false→le, leb_false→lt, leb→le,
  le→leb, ==_iff, ==_refl, Bool-cases, Option-cases, length, get_elem?, get_or, set, take, drop,
  replicate, length-append, length-take, length-replicate, take_all, get_elem?-append_left, Fault,
  bad_variant_access, invalid_argument, out_of_range, undefined, out_of_fuel, Outcome, ok, err,
  fault, ◌>>=◌, bind-eq-ok, Text, codes, text_eq, text_eq_refl, text_eq→eq, to_string,
}
use microsql.Base.Int.{ℤ}
use microsql.Base.Number.{is_space, stoi}
use microsql.Ast.Statement.{DataType, ColumnDefinition}
use microsql.Storage.TableFile.{Disk}
use microsql.Catalog.{
  CatalogError, TableSchema, Tables, file_not_open, unvalid_table_line_format,
  unvalid_column_line_format,
}

-- The word in hand, where it has a letter, before the words behind it.
abbrev pub word_then : Text → List Text → List Text
word_then [] words = words
word_then (c ∷ cs) words = (c ∷ cs) ∷ words

-- `ss >> word` until it fails; `word` is the one being read.
unfoldable pub split_from : Text → Text → List Text
split_from word [] = word_then word []
split_from word (c ∷ cs) = elim (is_space c) [
  | true ↦ word_then word (split_from [] cs)
  | false ↦ split_from (word ++ c ∷ []) cs
]

unfoldable pub split : Text → List Text
unfolding split_from
split s = split_from [] s

-- What std::getline gives until it fails: a line ends at a newline or at the end of the text.
unfoldable pub lines_from : Text → Text → List Text
lines_from line [] = word_then line []
lines_from line (c ∷ cs) = elim (c == 10) [
  | true ↦ line ∷ lines_from [] cs
  | false ↦ lines_from (line ++ c ∷ []) cs
]

unfoldable pub starts_with : Text → Text → Bool
starts_with s [] = true
starts_with [] (c ∷ prefix) = false
starts_with (d ∷ s) (c ∷ prefix) = d == c && starts_with s prefix

-- No branch of the code sets the type of a column whose type has another name.
unfoldable pub data_type_of : Text → Option DataType
data_type_of name =
    if text_eq name (codes "INTEGER")
    then some DataType.integer
    else if text_eq name (codes "FLOAT")
    then some DataType.float
    else if text_eq name (codes "TEXT")
    then some DataType.text
    else if text_eq name (codes "BOOLEAN")
    then some DataType.boolean
    else none

abbrev pub Loaded : Type 0 → Type 0
Loaded A = Outcome CatalogError A

-- std::stoi throws, and nothing catches it.
abbrev pub length_of : Outcome (Unit {0}) ℤ → Loaded ℤ
length_of (ok n) = ok n
length_of (err e) = fault undefined
length_of (fault u) = fault u

abbrev pub typed : Option DataType → Loaded DataType
typed none = fault undefined
typed (some t) = ok t

-- A COLUMN line's words.
unfoldable pub load_column : List Text → Loaded ColumnDefinition
unfolding data_type_of
load_column (_ ∷ name ∷ type ∷ text_length ∷ not_null ∷ primary_key ∷ []) = do
  n ← length_of (stoi text_length)
  t ← typed (data_type_of type)
  ok (record {
    name = name;
    type = t;
    text_length = n;
    not_null = text_eq not_null (codes "true");
    primary_key = text_eq primary_key (codes "true");
  })
load_column _ = err unvalid_column_line_format

abbrev pub with_file : TableSchema → List Text → TableSchema
with_file schema (_ ∷ path ∷ []) = record schema { file_path = path }
with_file schema _ = schema

-- A line of a table's block that is not its END.
unfoldable pub load_table_line : TableSchema → Text → Loaded TableSchema
unfolding starts_with load_column split
load_table_line schema line =
    if starts_with line (codes "COLUMN")
    then (do
      column ← load_column (split line)
      ok (record schema { columns = schema.columns ++ column ∷ [] }))
    else if starts_with line (codes "FILE")
    then ok (with_file schema (split line))
    else ok schema

-- A TABLE line's words: the schema that the block fills.
unfoldable pub load_table : List Text → Loaded TableSchema
load_table (_ ∷ name ∷ []) = ok (record { table_name = name; columns = []; file_path = [] })
load_table _ = err unvalid_table_line_format

-- The two loops: `none` outside of a table's block, the schema so far inside of one.
unfoldable pub load_lines : Tables → Option TableSchema → List Text → Tables × Loaded (Unit {0})
unfolding starts_with load_table load_table_line split
load_lines tables none [] = (tables, ok tt)
load_lines tables (some schema) [] = (tables ++ schema ∷ [], ok tt)
load_lines tables none (line ∷ lines) = elim (starts_with line (codes "TABLE")) [
  | false ↦ load_lines tables none lines
  | true ↦ elim (load_table (split line)) [
    | ok schema ↦ load_lines tables (some schema) lines
    | err e ↦ (tables, err e)
    | fault u ↦ (tables, fault u)
  ]
]
load_lines tables (some schema) (line ∷ lines) = elim (text_eq line (codes "END")) [
  | true ↦ load_lines (tables ++ schema ∷ []) none lines
  | false ↦ elim (load_table_line schema line) [
    | ok schema' ↦ load_lines tables (some schema') lines
    | err e ↦ (tables, err e)
    | fault u ↦ (tables, fault u)
  ]
]

abbrev pub load_file : Tables → Option Text → Tables × Loaded (Unit {0})
load_file tables none = (tables, err file_not_open)
load_file tables (some text) = load_lines tables none (lines_from [] text)

unfoldable pub load : Tables → Disk → Tables × Loaded (Unit {0})
unfolding load_lines lines_from
load tables disk = load_file tables disk.catalog
