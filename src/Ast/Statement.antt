-- ===== src/Ast/Statement.antt =====
-- src/ast/statement.h.
-- An `int` that indexes the expressions is an `Option ℕ`, in which `none` is -1.
use microsql.Base.{ℕ, ◌-◌, ◌%◌, Bool, Option, List, Text}
use microsql.Base.Int.{ℤ, pos, negsuc}

pub data StatementKind : Type 0 where
  select insert update delete create_table drop_table create_index begin commit rollback :
      StatementKind

pub data DataType : Type 0 where
  integer float text boolean : DataType

pub record ColumnDefinition : Type 0 where
  pub name : Text
  pub type : DataType
  pub text_length : ℤ
  pub not_null : Bool
  pub primary_key : Bool

-- static_cast<uint16_t> of an `int`.
abbrev pub to_u16 : ℤ → ℕ
to_u16 (pos n) = n % 0x1_0000
to_u16 (negsuc n) = 0xffff - n % 0x1_0000

-- ColumnDefinition::size
unfoldable pub column_size : ColumnDefinition → ℕ
column_size c = elim c.type [ boolean ↦ 1 | integer ↦ 8 | float ↦ 8 | text ↦ to_u16 c.text_length ]

pub record Statement : Type 0 where
  pub kind : StatementKind
  pub table_name : Text
  pub select_columns : List ℕ
  pub where_index : Option ℕ
  pub insert_column_names : List Text
  pub insert_values : List (Option ℕ)
  pub assignments : List (Text × ℕ)
  pub column_definitions : List ColumnDefinition
  pub index_column_name : Text
