-- ===== src/Catalog/Tests.antt =====
-- The theorems on the catalog at two tables.
use microsql.Base.{◌≡◌, refl, ◌⊎◌, true, false, none, some, [], ◌∷◌, ok, err, Text, codes, text_eq}
use microsql.Storage.TableFile.{Disk, empty_file, lookup}
use microsql.Base.{◌++◌}
use microsql.Catalog.{
  unvalid_table_line_format, TableSchema, Tables, duplicate_table, find_table, add_table,
  drop_table,
}
use microsql.Base.{arith}
use microsql.Base.Int.{pos}
use microsql.Ast.Statement.{DataType}
use microsql.Catalog.{save}
use microsql.Catalog.Load.{load, load_lines, lines_from, starts_with, load_table, split, split_from}
use microsql.Catalog.Load.Fields.{IsInt, no_space-IsWord}
use microsql.Catalog.Load.RoundTrip.{AreColumns, AreSchemas, load-save}
use microsql.Catalog.Tables.{IsUnique, find_table-add_table, find_table-drop_table}

abbrev users : TableSchema
users = record { table_name = codes "users"; columns = []; file_path = codes "users.ms" }

abbrev orders : TableSchema
orders = record { table_name = codes "orders"; columns = []; file_path = codes "orders.ms" }

abbrev tables : Tables
tables = users ∷ orders ∷ []

abbrev disk : Disk
disk = record { files = (codes "users.ms", empty_file) ∷ []; catalog = none; writable = true }

tables-IsUnique : IsUnique tables
unfolding IsUnique find_table
tables-IsUnique = (refl, (refl, tt))

find_users : find_table tables (codes "users") ≡ some users
unfolding find_table
find_users = refl

find_table-add_table_example :
    ((t : TableSchema) × (find_table tables (codes "users") ≡ some t)
      × (add_table tables users ≡ (tables, err duplicate_table)))
    ⊎ ((tables' : Tables) × (add_table tables users ≡ (tables', ok tt))
        × (find_table tables (codes "users") ≡ none)
        × (find_table tables' (codes "users") ≡ some users)
        × ((name : Text)
            → text_eq (codes "users") name ≡ false
            → find_table tables' name ≡ find_table tables name))
find_table-add_table_example = find_table-add_table tables users

find_table-drop_table_example :
    (tables' : Tables) × (disk' : Disk) × (drop_table tables (codes "users") disk
      ≡ ((tables', disk'), ok tt))
    × (find_table tables' (codes "users") ≡ none)
    × (lookup (codes "users.ms") disk'.files ≡ none)
    × (disk'.catalog ≡ none)
    × ((other : Text)
        → text_eq (codes "users") other ≡ false
        → find_table tables' other ≡ find_table tables other)
find_table-drop_table_example =
    find_table-drop_table tables (codes "users") disk users tables-IsUnique find_users

-- CREATE TABLE people (id INTEGER PRIMARY KEY, name TEXT(20) NOT NULL)
abbrev people : TableSchema
people = record {
  table_name = codes "people";
  columns =
      record {
        name = codes "id";
        type = DataType.integer;
        text_length = pos 0;
        not_null = false;
        primary_key = true;
      }
      ∷ record {
        name = codes "name";
        type = DataType.text;
        text_length = pos 20;
        not_null = true;
        primary_key = false;
      }
      ∷ [];
  file_path = codes "people.ms";
}

people-AreSchemas : AreSchemas (people ∷ [])
unfolding AreSchemas AreColumns IsInt
people-AreSchemas = (
  record {
    table_name = no_space-IsWord refl;
    file_path = no_space-IsWord refl;
    columns = (
      record { name = no_space-IsWord refl; text_length = omega arith },
      (record { name = no_space-IsWord refl; text_length = omega arith }, tt),
    );
  },
  tt,
)

load-save_example : load [] (save (people ∷ []) disk) ≡ (people ∷ [], ok tt)
load-save_example = load-save [] (people ∷ []) disk refl people-AreSchemas

-- The tables before a line that does not fit stay.
load_stops :
    load_lines [] none
      (lines_from [] (codes "TABLE users" ++ 10 ∷ (codes "END" ++ 10 ∷ codes "TABLE a b")))
    ≡ (
      record { table_name = codes "users"; columns = []; file_path = [] } ∷ [],
      err unvalid_table_line_format,
    )
unfolding load_lines lines_from starts_with load_table split split_from
load_stops = refl
