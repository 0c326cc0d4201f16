-- ===== src/Executor/Insert/Tests.antt =====
-- INSERT of a row into a table without a page of data.
use microsql.Base.{ℕ, ◌*◌, ◌≡◌, refl, true, false, none, some, List, [], ◌∷◌, arith, ok, codes}
use microsql.Base.Int.{pos}
use microsql.Ast.Statement.{Statement, StatementKind, ColumnDefinition, integer, column_size}
use microsql.Ast.Expression.{Expression, literal_int}
use microsql.Parser.Tables.{blank_statement}
use microsql.Storage.Page.{page_size}
use microsql.Storage.Row
use microsql.Storage.Row.{Row, int, serialize_row}
use microsql.Storage.Row.Encoding.{InRangeRow}
use microsql.Storage.TableFile.{contents, lookup}
use microsql.Executor.Whole.{whole}
use microsql.Executor.Rows.{row_from_insert_values, row_from_values, insert_value}
use microsql.Executor.Eval.{eval_expr, expression_at}
use microsql.Executor.Slots.{primary_key_index}
use microsql.Executor.Session.{Session}
use microsql.Executor.Insert.{check_count, check_primary_key, insert_body}
use microsql.Executor.Table.{IsTable}
use microsql.Executor.Insert.Stored.{RowStored}
use microsql.Executor.Insert.Body.{insert_body-RowStored}

abbrev columns : List ColumnDefinition
columns =
    record {
      name = codes "id";
      type = integer;
      text_length = pos 0;
      not_null = false;
      primary_key = false;
    }
    ∷ []

-- INSERT INTO t VALUES (5)
abbrev statement : Statement
statement = record blank_statement { kind = StatementKind.insert; insert_values = some 0 ∷ [] }

abbrev expressions : List Expression
expressions = literal_int (pos 5) ∷ []

abbrev row : Row
row = int (pos 5) ∷ []

abbrev bytes : List ℕ
bytes = 0 ∷ 5 ∷ 0 ∷ 0 ∷ 0 ∷ 0 ∷ 0 ∷ 0 ∷ 0 ∷ []

abbrev table : Session
table = record {
  file = record { file_path = codes "t.ms"; is_open = true; failed = false };
  disk = record {
    files = (codes "t.ms", record { bytes = λ a. 0; size = page_size }) ∷ [];
    catalog = none;
    writable = true;
  };
}

table_size : (contents table.file table.disk).size ≡ 1 * page_size
unfolding contents lookup
table_size = refl

table-IsTable : IsTable 1 table
table-IsTable = record {
  usable = record { opened = refl; sound = refl; device = refl };
  size = table_size;
  bound = omega arith;
}

made : row_from_insert_values whole 1 expressions statement columns ≡ ok row
unfolding row_from_insert_values eval_expr expression_at row_from_values insert_value
made = refl

counted : check_count statement row columns ≡ ok tt
unfolding check_count
counted = refl

free : check_primary_key whole row columns table ≡ (table, ok tt)
unfolding check_primary_key primary_key_index
free = refl

serialized : serialize_row row columns ≡ ok bytes
unfolding serialize_row Row.total_size Row.value_size Row.fill Row.fill_value Row.copy_at
    Row.le_bytes column_size Row.to_u64
serialized = refl

row-InRangeRow : InRangeRow row
unfolding InRangeRow
row-InRangeRow = (refl, tt)

insert_body-RowStored_example :
    (s' : Session) × (insert_body whole expressions statement columns table ≡ (s', ok tt))
    × RowStored row columns bytes 1 table s'
insert_body-RowStored_example =
    insert_body-RowStored whole expressions statement columns row bytes 1 table made counted free
      serialized row-InRangeRow (omega arith) (omega arith) table-IsTable
      (λ j h k. absurd (omega arith)) (omega arith) (omega arith)
