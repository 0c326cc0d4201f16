-- ===== src/Catalog/Load/RoundTrip.antt =====
-- Catalog::load after Catalog::save, in src/catalog/catalog.cpp.
use microsql.Base.{
  ◌≡◌, refl, sym, ap, ◌∙◌, true, false, none, some, List, [], ◌∷◌, ◌++◌, ok, Text, codes, text_eq,
}
use mathlib.Core.List.{append_assoc, append-nil}
use microsql.Ast.Statement.{ColumnDefinition}
use microsql.Storage.TableFile.{Disk}
use microsql.Catalog.{TableSchema, Tables, newline, column_line, column_lines, catalog_text, save}
use microsql.Catalog.Load.{
  split, lines_from, starts_with, load_table_line, load_table, load_lines, load, with_file,
}
use microsql.Catalog.Load.Words.{IsWord, split-word, lines-line}
use microsql.Catalog.Load.Fields.{no_space-IsWord}
use microsql.Catalog.Load.Columns.{
  IsColumn, before_newline, column_text, word-NoNewline, word-NoNewline_space, split_word,
  load_table_line-column, column_line-lines,
}

unfoldable pub AreColumns : List ColumnDefinition → Type 0
AreColumns [] = Unit {0}
AreColumns (c ∷ columns) = IsColumn c × AreColumns columns

pub record IsSchema (t : TableSchema) : Type 0 where
  pub table_name : IsWord t.table_name
  pub file_path : IsWord t.file_path
  pub columns : AreColumns t.columns

unfoldable pub AreSchemas : Tables → Type 0
AreSchemas [] = Unit {0}
AreSchemas (t ∷ tables) = IsSchema t × AreSchemas tables

abbrev with_columns : TableSchema → List ColumnDefinition → TableSchema
with_columns schema columns = record schema { columns = schema.columns ++ columns }

-- A line of a block that is not its END.
load_lines-line :
    (tables : Tables) (schema schema' : TableSchema) (line : Text) (lines : List Text)
    → text_eq line (codes "END") ≡ false
    → load_table_line schema line ≡ ok schema'
    → load_lines tables (some schema) (line ∷ lines) ≡ load_lines tables (some schema') lines
unfolding load_lines
load_lines-line tables schema schema' line lines h e = rw (h, e, load_lines)

load_lines-column :
    (tables : Tables) (schema : TableSchema) (c : ColumnDefinition) (lines : List Text)
    → IsColumn c
    → load_lines tables (some schema) (column_text c ∷ lines)
      ≡ load_lines tables (some (with_columns schema (c ∷ []))) lines
load_lines-column tables schema c lines h =
    load_lines-line tables schema _ (column_text c) lines refl (load_table_line-column schema c h)

-- The COLUMN lines of a table.
load_lines-columns :
    (tables : Tables) (schema : TableSchema) (columns : List ColumnDefinition) (rest : Text)
    → AreColumns columns
    → load_lines tables (some schema) (lines_from [] (column_lines columns ++ rest))
      ≡ load_lines tables (some (with_columns schema columns)) (lines_from [] rest)
unfolding AreColumns column_lines
load_lines-columns tables schema [] rest h =
    ap (λ cs. load_lines tables (some (record schema { columns = cs })) (lines_from [] rest))
      (sym (append-nil schema.columns))
load_lines-columns tables schema (c ∷ columns) rest (h, hs) =
    ap (λ t. load_lines tables (some schema) (lines_from [] t))
      (append_assoc (column_line c) (column_lines columns) rest)
    ∙ ap (load_lines tables (some schema)) (column_line-lines c (column_lines columns ++ rest) h)
    ∙ load_lines-column tables schema c _ h
    ∙ load_lines-columns tables (with_columns schema (c ∷ [])) columns rest hs
    ∙ ap (λ cs. load_lines tables (some (record schema { columns = cs })) (lines_from [] rest))
        (append_assoc schema.columns (c ∷ []) columns)

-- A line of two words.
pair-lines :
    (key u rest : Text)
    → IsWord key
    → IsWord u
    → lines_from [] ((key ++ 32 ∷ (u ++ newline)) ++ rest) ≡ (key ++ 32 ∷ u) ∷ lines_from [] rest
pair-lines key u rest k w =
    ap (λ t. lines_from [] (t ++ rest)) (before_newline key (32 ∷ u) refl)
    ∙ ap (lines_from []) (append_assoc (key ++ 32 ∷ u) newline rest)
    ∙ lines-line (key ++ 32 ∷ u) rest (word-NoNewline_space key u k (word-NoNewline u w))

split-pair : (key u : Text) → IsWord key → IsWord u → split (key ++ 32 ∷ u) ≡ key ∷ u ∷ []
split-pair key u k w = split_word key u k (split-word u w)

load_lines-table :
    (tables : Tables) (name : Text) (lines : List Text)
    → IsWord name
    → load_lines tables none ((codes "TABLE" ++ 32 ∷ name) ∷ lines)
      ≡ load_lines tables (some (record { table_name = name; columns = []; file_path = [] })) lines
unfolding load_lines load_table starts_with
load_lines-table tables name lines w =
    let words : load_table (split (codes "TABLE" ++ 32 ∷ name))
        ≡ ok (record { table_name = name; columns = []; file_path = [] }) =
      ap load_table (split-pair (codes "TABLE") name (no_space-IsWord refl) w) in
    rw (words, load_lines)

load_table_line-file :
    (schema : TableSchema) (path : Text)
    → IsWord path
    → load_table_line schema (codes "FILE" ++ 32 ∷ path) ≡ ok (record schema { file_path = path })
unfolding load_table_line starts_with
load_table_line-file schema path w =
    ap (λ r. ok (with_file schema r)) (split-pair (codes "FILE") path (no_space-IsWord refl) w)

load_lines-file :
    (tables : Tables) (schema : TableSchema) (path : Text) (lines : List Text)
    → IsWord path
    → load_lines tables (some schema) ((codes "FILE" ++ 32 ∷ path) ∷ lines)
      ≡ load_lines tables (some (record schema { file_path = path })) lines
load_lines-file tables schema path lines w =
    load_lines-line tables schema _ (codes "FILE" ++ 32 ∷ path) lines refl
      (load_table_line-file schema path w)

end-lines :
    (rest : Text)
    → lines_from [] ((codes "END" ++ newline) ++ rest) ≡ codes "END" ∷ lines_from [] rest
unfolding lines_from
end-lines rest = refl

load_lines-end :
    (tables : Tables) (schema : TableSchema) (lines : List Text)
    → load_lines tables (some schema) (codes "END" ∷ lines)
      ≡ load_lines (tables ++ schema ∷ []) none lines
unfolding load_lines
load_lines-end tables schema lines = refl

load_lines-schema :
    (tables : Tables) (t : TableSchema) (ts : Tables)
    → IsSchema t
    → load_lines tables none (lines_from [] (catalog_text (t ∷ ts)))
      ≡ load_lines (tables ++ t ∷ []) none (lines_from [] (catalog_text ts))
unfolding catalog_text
load_lines-schema tables t ts h =
    let after_file = (codes "END" ++ newline) ++ catalog_text ts in
    let after_columns = (codes "FILE " ++ (t.file_path ++ newline)) ++ after_file in
    let opened : TableSchema = record { table_name = t.table_name; columns = []; file_path = [] } in
    ap (load_lines tables none) (
      pair-lines (codes "TABLE") t.table_name (column_lines t.columns ++ after_columns)
        (no_space-IsWord refl) h.table_name)
    ∙ load_lines-table tables t.table_name _ h.table_name
    ∙ load_lines-columns tables opened t.columns after_columns h.columns
    ∙ ap (load_lines tables (some (with_columns opened t.columns)))
        (pair-lines (codes "FILE") t.file_path after_file (no_space-IsWord refl) h.file_path)
    ∙ load_lines-file tables (with_columns opened t.columns) t.file_path _ h.file_path
    ∙ ap (load_lines tables (some t)) (end-lines (catalog_text ts))
    ∙ load_lines-end tables t _

pub load_lines-catalog_text :
    (tables ts : Tables)
    → AreSchemas ts
    → load_lines tables none (lines_from [] (catalog_text ts)) ≡ (tables ++ ts, ok tt)
unfolding catalog_text load_lines lines_from AreSchemas
load_lines-catalog_text tables [] h = ap (λ ts. (ts, ok tt)) (sym (append-nil tables))
load_lines-catalog_text tables (t ∷ ts) (h, hs) =
    load_lines-schema tables t ts h
    ∙ load_lines-catalog_text (tables ++ t ∷ []) ts hs
    ∙ ap (λ r. (r, ok tt)) (append_assoc tables (t ∷ []) ts)

-- On a device that takes writes, where every table and file name and every column name is a
-- non-empty text without white space and every text length is in the range of int, load after
-- save puts the saved tables behind those in memory, in their order, and succeeds.
pub load-save :
    (before tables : Tables) (disk : Disk)
    → disk.writable ≡ true
    → AreSchemas tables
    → load before (save tables disk) ≡ (before ++ tables, ok tt)
unfolding load save
load-save before tables disk w h = rw w (load_lines-catalog_text before tables h)
