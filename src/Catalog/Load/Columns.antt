-- ===== src/Catalog/Load/Columns.antt =====
-- A COLUMN line of catalog.txt, written by Catalog::save and read by Catalog::load, in
-- src/catalog/catalog.cpp.
use microsql.Base.{◌≡◌, refl, sym, ap, ◌∙◌, List, [], ◌∷◌, ◌++◌, arith, ok, Text, codes}
use mathlib.Core.List.{append_assoc}
use microsql.Ast.Statement.{ColumnDefinition}
use microsql.Catalog.{TableSchema, data_type_name, int_text, bool_text, newline, column_line}
use microsql.Catalog.Load.{split, lines_from, starts_with, load_column, load_table_line}
use microsql.Catalog.Load.Words.{
  NoNewline, IsWord, NoNewline-append, NoSpace-NoNewline, split-space, split-word, lines-line,
}
use microsql.Catalog.Load.Fields.{
  IsInt, no_space-IsWord, int_text-IsWord, stoi-int_text, data_type_name-IsWord, bool_text-IsWord,
  data_type_of-name, bool_text-true,
}

-- A column that the file can hold: its name is a word, and its length is an `int`.
pub record IsColumn (c : ColumnDefinition) : Type 0 where
  pub name : IsWord c.name
  pub text_length : IsInt c.text_length

-- The text before a newline, grown by one text at its front.
pub before_newline : (a s : Text) {r : Text} → r ≡ s ++ newline → a ++ r ≡ (a ++ s) ++ newline
before_newline a s e = ap (λ t. a ++ t) e ∙ sym (append_assoc a s newline)

-- A COLUMN line without its newline.
abbrev pub column_text : ColumnDefinition → Text
column_text c =
    codes "COLUMN "
    ++ (c.name
        ++ 32
          ∷ (data_type_name c.type
              ++ 32
                ∷ (int_text c.text_length
                    ++ 32 ∷ (bool_text c.not_null ++ 32 ∷ bool_text c.primary_key))))

column_line-text : (c : ColumnDefinition) → column_line c ≡ column_text c ++ newline
unfolding column_line
column_line-text c = before_newline (codes "COLUMN ") _ (
    before_newline c.name _ (
      ap (λ t. 32 ∷ t)
        (before_newline (data_type_name c.type) _ (
          ap (λ t. 32 ∷ t)
            (before_newline (int_text c.text_length) _
              (ap (λ t. 32 ∷ t) (before_newline (bool_text c.not_null) _ refl)))))))

pub word-NoNewline : (u : Text) → IsWord u → NoNewline u
word-NoNewline u w = NoSpace-NoNewline u w.plain

-- A word, a space and what follows on the line.
pub word-NoNewline_space : (u v : Text) → IsWord u → NoNewline v → NoNewline (u ++ 32 ∷ v)
unfolding NoNewline
word-NoNewline_space u v w h = NoNewline-append u (32 ∷ v) (word-NoNewline u w) (omega arith, h)

abbrev column_word : Text
column_word = codes "COLUMN"

column_text-NoNewline : (c : ColumnDefinition) → IsColumn c → NoNewline (column_text c)
column_text-NoNewline c h = word-NoNewline_space column_word _ (no_space-IsWord refl) (
    word-NoNewline_space c.name _ h.name (
      word-NoNewline_space (data_type_name c.type) _ (data_type_name-IsWord c.type) (
        word-NoNewline_space (int_text c.text_length) _ (int_text-IsWord c.text_length) (
          word-NoNewline_space (bool_text c.not_null) _ (bool_text-IsWord c.not_null)
            (word-NoNewline (bool_text c.primary_key) (bool_text-IsWord c.primary_key))))))

pub split_word :
    (u rest : Text) {words : List Text}
    → IsWord u
    → split rest ≡ words
    → split (u ++ 32 ∷ rest) ≡ u ∷ words
split_word u rest w e = split-space u rest w ∙ ap (λ r. u ∷ r) e

split-column_text :
    (c : ColumnDefinition)
    → IsColumn c
    → split (column_text c)
      ≡ column_word
        ∷ c.name
        ∷ data_type_name c.type
        ∷ int_text c.text_length
        ∷ bool_text c.not_null
        ∷ bool_text c.primary_key
        ∷ []
split-column_text c h = split_word column_word _ (no_space-IsWord refl) (
    split_word c.name _ h.name (
      split_word (data_type_name c.type) _ (data_type_name-IsWord c.type) (
        split_word (int_text c.text_length) _ (int_text-IsWord c.text_length) (
          split_word (bool_text c.not_null) _ (bool_text-IsWord c.not_null)
            (split-word (bool_text c.primary_key) (bool_text-IsWord c.primary_key))))))

load_column-words :
    (c : ColumnDefinition)
    → IsColumn c
    → load_column (
        column_word
        ∷ c.name
        ∷ data_type_name c.type
        ∷ int_text c.text_length
        ∷ bool_text c.not_null
        ∷ bool_text c.primary_key
        ∷ [])
      ≡ ok c
unfolding load_column
load_column-words c h = rw (
  stoi-int_text c.text_length h.text_length,
  data_type_of-name c.type,
  bool_text-true c.not_null,
  bool_text-true c.primary_key,
)

pub load_table_line-column :
    (schema : TableSchema) (c : ColumnDefinition)
    → IsColumn c
    → load_table_line schema (column_text c)
      ≡ ok (record schema { columns = schema.columns ++ c ∷ [] })
unfolding load_table_line starts_with
load_table_line-column schema c h = rw (split-column_text c h, load_column-words c h)

pub column_line-lines :
    (c : ColumnDefinition) (rest : Text)
    → IsColumn c
    → lines_from [] (column_line c ++ rest) ≡ column_text c ∷ lines_from [] rest
column_line-lines c rest h =
    ap (λ t. lines_from [] (t ++ rest)) (column_line-text c)
    ∙ ap (lines_from []) (append_assoc (column_text c) newline rest)
    ∙ lines-line (column_text c) rest (column_text-NoNewline c h)
