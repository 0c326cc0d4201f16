-- ===== src/Catalog.antt =====
-- src/catalog: the schemas of the tables, and the file that keeps them.
pub mod Load
pub mod Tables
pub mod Tests
use microsql.Base.{
  ℕ, zero, suc, ◌+◌, ◌-◌, ◌*◌, ◌/◌, ◌%◌, ◌^◌, ◌≤◌, ◌<◌, ◌≡◌, refl, sym, ap, ◌∙◌, fun_ext, ◌≢◌, ◌↔◌,
  ◌⊎◌, inl, inr, Bool, true, false, not, ◌&&◌, ◌||◌, Option, none, some, List, [], ◌∷◌, ◌++◌, map,
  arith, ltb, leb, ◌==◌, if◌then◌else◌, ltb→lt, lt→ltb, le→ltb, ltb_false→le, leb→le, le→leb,
  ==_iff, ==_refl, Bool-cases, length, get_elem?, get_or, set, take, drop, replicate, length-append,
  length-take, length-replicate, take_all, get_elem?-append_left, Fault, bad_variant_access,
  invalid_argument, out_of_range, undefined, out_of_fuel, Outcome, ok, err, fault, ◌>>=◌,
  bind-eq-ok, Text, codes, text_eq, text_eq_refl, text_eq→eq, to_string,
}
use microsql.Base.Int.{ℤ, pos, negsuc}
use microsql.Ast.Statement.{DataType, ColumnDefinition, column_size}
use microsql.Storage.TableFile.{Disk, remove}

pub data CatalogError : Type 0 where
  file_not_open unvalid_table_line_format unvalid_column_line_format : CatalogError
  duplicate_table table_not_found : CatalogError

pub record TableSchema : Type 0 where
  pub table_name : Text
  pub columns : List ColumnDefinition
  pub file_path : Text

unfoldable pub row_size : List ColumnDefinition → ℕ
row_size [] = 0
row_size (c ∷ columns) = column_size c + row_size columns

-- columnOffset: the loop over the columns before `index`, in 16 bits.
unfoldable pub column_offset : ℕ → List ColumnDefinition → ℕ → ℕ
column_offset offset [] i = offset
column_offset offset (c ∷ columns) zero = offset
column_offset offset (c ∷ columns) (suc i) =
    column_offset ((offset + column_size c) % 0x1_0000) columns i

-- `none` is -1.
unfoldable pub column_index : List ColumnDefinition → Text → Option ℕ
column_index [] name = none
column_index (c ∷ columns) name =
    if text_eq c.name name
    then some 0
    else elim (column_index columns name) [ none ↦ none | some i ↦ some (suc i) ]

unfoldable pub column_names : List ColumnDefinition → List Text
column_names columns = map (λ c. c.name) columns

abbrev pub Tables : Type 0
Tables = List TableSchema

unfoldable pub find_table : Tables → Text → Option TableSchema
find_table [] name = none
find_table (t ∷ tables) name = if text_eq t.table_name name then some t else find_table tables name

unfoldable pub add_table : Tables → TableSchema → Tables × Outcome CatalogError (Unit {0})
unfolding find_table
add_table tables schema = elim (find_table tables schema.table_name) [
  | some t ↦ (tables, err duplicate_table)
  | none ↦ (tables ++ schema ∷ [], ok tt)
]

-- `tables.erase(it)` of the first table with the name.
unfoldable pub erase_table : Tables → Text → Tables
erase_table [] name = []
erase_table (t ∷ tables) name =
    if text_eq t.table_name name then tables else t ∷ erase_table tables name

-- dropTable also removes the table's file.
unfoldable pub drop_table : Tables → Text → Disk → (Tables × Disk) × Outcome CatalogError (Unit {0})
unfolding find_table erase_table remove
drop_table tables name disk = elim (find_table tables name) [
  | none ↦ ((tables, disk), err table_not_found)
  | some t ↦
      ((erase_table tables name, record disk { files = remove t.file_path disk.files }), ok tt)
]

unfoldable pub data_type_name : DataType → Text
data_type_name DataType.integer = codes "INTEGER"
data_type_name DataType.float = codes "FLOAT"
data_type_name DataType.text = codes "TEXT"
data_type_name DataType.boolean = codes "BOOLEAN"

abbrev pub int_text : ℤ → Text
int_text (pos n) = to_string n
int_text (negsuc n) = b'-' ∷ to_string (suc n)

abbrev pub bool_text : Bool → Text
bool_text true = codes "true"
bool_text false = codes "false"

abbrev pub newline : Text
newline = 10 ∷ []

unfoldable pub column_line : ColumnDefinition → Text
unfolding data_type_name
column_line c =
    codes "COLUMN "
    ++ (c.name
        ++ (codes " "
            ++ (data_type_name c.type
                ++ (codes " "
                    ++ (int_text c.text_length
                        ++ (codes " "
                            ++ (bool_text c.not_null
                                ++ (codes " " ++ (bool_text c.primary_key ++ newline)))))))))

unfoldable pub column_lines : List ColumnDefinition → Text
unfolding column_line
column_lines [] = []
column_lines (c ∷ columns) = column_line c ++ column_lines columns

unfoldable pub catalog_text : Tables → Text
unfolding column_lines
catalog_text [] = []
catalog_text (t ∷ tables) =
    (codes "TABLE " ++ (t.table_name ++ newline))
    ++ (column_lines t.columns
        ++ ((codes "FILE " ++ (t.file_path ++ newline))
            ++ ((codes "END" ++ newline) ++ catalog_text tables)))

-- save: what catalog.txt holds is replaced, if the device takes writes.
unfoldable pub save : Tables → Disk → Disk
unfolding catalog_text
save tables disk =
    if disk.writable then record disk { catalog = some (catalog_text tables) } else disk
