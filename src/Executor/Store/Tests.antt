-- ===== src/Executor/Store/Tests.antt =====
-- INSERT and DELETE on a table with a primary key.
use microsql.Base.{
  ℕ, ◌*◌, ◌≡◌, refl, sym, ap, inl, inr, Bool, true, false, not, none, some, List, [], ◌∷◌, ◌++◌,
  arith, filter, ok, codes,
}
use microsql.Base.Int.{pos, eq_ℤ}
use microsql.Storage.Row.{null}
use microsql.Storage.Row.Encoding.{StoresRow}
use microsql.Storage.Row.Accepts.{serialize_row-StoresRow}
use microsql.Ast.Expression.{BinaryOperator, column_ref, binary}
use microsql.Executor.Values.{value_eq}
use microsql.Executor.Eval.{eval_where, column_value, index_of, compare_where}
use microsql.Ast.Statement.{Statement, StatementKind, ColumnDefinition, integer, column_size}
use microsql.Ast.Expression.{Expression, literal_int}
use microsql.Parser.Tables.{blank_statement}
use microsql.Storage.Page.{page_size}
use microsql.Storage.Row
use microsql.Storage.Row.{Row, int, serialize_row}
use microsql.Storage.Row.Encoding.{InRangeRow}
use microsql.Storage.TableFile.{contents, lookup, num_pages, insert, put_page, allocate_page}
use microsql.Executor.Whole.{whole}
use microsql.Executor.Rows.{row_from_insert_values, row_from_values, insert_value}
use microsql.Executor.Eval.{eval_expr, expression_at}
use microsql.Executor.Slots.{primary_key_index}
use microsql.Executor.Session
use microsql.Executor.Session.{Session, get_num_pages}
use microsql.Executor.Insert.{insert_bytes, insert_into_pages, insert_row_into_page}
use mathlib.Core.Path.{subst}
use microsql.Catalog.{column_names}
use microsql.Base.Memory.{read16, write16, memcpy, read_bytes}
use microsql.Storage.Row.{deserialize_row, read_columns, read_value, le_value, from_u64}
use microsql.Storage.Page.{
  num_slots, init, insert_row, delete_row, free_ptr, free_space, place, slot_deleted, read_row,
}
use microsql.Executor.Slots.{delete_slots, delete_slot, read_slot_row, selects}
use microsql.Storage.TableFile
use microsql.Executor.Scan.{primary_key_exists, key_in_pages}
use microsql.Executor.Insert.{check_count, check_primary_key, insert_body}
use microsql.Executor.Change.{delete_pages, delete_body}
use microsql.Executor.Insert.Stored.{RowStored}
use microsql.Executor.Store.{IsStore}
use microsql.Executor.Scan.{result_columns, select_body}
use microsql.Executor.Store.Rows.{table_rows}
use microsql.Executor.Store.Select.{Means, select_body-table_rows}
use microsql.Executor.Store.Statements.{select_body-insert_body, select_body-delete_body_rows}
use microsql.Executor.Store.Insert.{insert_body-IsStore}
use microsql.Executor.Store.Delete.{delete_body-IsStore}

abbrev columns : List ColumnDefinition
columns =
    record {
      name = codes "id";
      type = integer;
      text_length = pos 0;
      not_null = false;
      primary_key = true;
    }
    ∷ []

-- INSERT INTO t VALUES (5)
abbrev statement : Statement
statement = record blank_statement { kind = StatementKind.insert; insert_values = some 0 ∷ [] }

abbrev expressions : List Expression
expressions = literal_int (pos 5) ∷ []

abbrev row : Row
row = int (pos 5) ∷ []

abbrev bytes : List ℕ
bytes = 0 ∷ 5 ∷ 0 ∷ 0 ∷ 0 ∷ 0 ∷ 0 ∷ 0 ∷ 0 ∷ []

-- A table without a page of data.
abbrev table : Session
table = record {
  file = record { file_path = codes "t.ms"; is_open = true; failed = false };
  disk = record {
    files = (codes "t.ms", record { bytes = λ a. 0; size = page_size }) ∷ [];
    catalog = none;
    writable = true;
  };
}

table_size : (contents table.file table.disk).size ≡ 1 * page_size
unfolding contents lookup
table_size = refl

table-IsStore : IsStore whole columns 0 1 table
table-IsStore = record {
  table = record {
    usable = record { opened = refl; sound = refl; device = refl };
    size = table_size;
    bound = omega arith;
  };
  sound = λ j h k. absurd (omega arith);
  rows = λ i low h. absurd (omega arith);
  keys = λ i i' low h. absurd (omega arith);
}

key_index : primary_key_index columns ≡ some 0
unfolding primary_key_index
key_index = refl

made : row_from_insert_values whole 1 expressions statement columns ≡ ok row
unfolding row_from_insert_values eval_expr expression_at row_from_values insert_value
made = refl

counted : check_count statement row columns ≡ ok tt
unfolding check_count
counted = refl

free : check_primary_key whole row columns table ≡ (table, ok tt)
unfolding check_primary_key primary_key_index primary_key_exists key_in_pages get_num_pages
    num_pages contents lookup
free = refl

serialized : serialize_row row columns ≡ ok bytes
unfolding serialize_row Row.total_size Row.value_size Row.fill Row.fill_value Row.copy_at
    Row.le_bytes column_size Row.to_u64
serialized = refl

row-InRangeRow : InRangeRow row
unfolding InRangeRow
row-InRangeRow = (refl, tt)

equal_comm : (a b : ℕ) → whole.eq a b ≡ whole.eq b a
equal_comm a b = ground arith

insert_body-IsStore_example :
    (s' : Session) × (insert_body whole expressions statement columns table ≡ (s', ok tt))
    × (stored : RowStored row columns bytes 1 table s') × IsStore whole columns 0 stored.pages s'
insert_body-IsStore_example =
    insert_body-IsStore whole expressions statement columns row bytes 0 1 table equal_comm key_index
      made counted free serialized row-InRangeRow (omega arith) (omega arith) table-IsStore
      (omega arith) (omega arith)

-- The table with the row.
abbrev one_row : Session
one_row = (insert_body whole expressions statement columns table).0

one_row-IsStore : IsStore whole columns 0 2 one_row
one_row-IsStore =
    let (s', run, stored, store) =
      insert_body-IsStore whole expressions statement columns row bytes 0 1 table equal_comm
        key_index made counted free serialized row-InRangeRow (omega arith) (omega arith)
        table-IsStore (omega arith) (omega arith) in
    let two : stored.pages ≡ 2 = elim stored.place [
      | inl (same, _) ↦ absurd (omega (arith, stored.added.data_page, stored.added.inside, same))
      | inr (more, _, _, _) ↦ more
    ] in
    subst (λ s. IsStore whole columns 0 2 s) (sym (ap (λ r. r.0) run))
      (subst (λ n. IsStore whole columns 0 n s') two store)

-- DELETE FROM t WHERE id = 5
abbrev delete_five : Statement
delete_five = record blank_statement { kind = StatementKind.delete; where_index = some 2 }

abbrev condition : List Expression
condition = column_ref (codes "id") [] ∷ literal_int (pos 5) ∷ binary BinaryOperator.equal 0 1 ∷ []

abbrev no_row : Session
no_row = (delete_body whole condition delete_five columns one_row).0

delete_run : delete_body whole condition delete_five columns one_row ≡ (no_row, ok 1)
unfolding insert_body check_count check_primary_key primary_key_index primary_key_exists
    key_in_pages insert_bytes insert_into_pages insert_row_into_page allocate_page
    row_from_insert_values eval_expr expression_at row_from_values insert_value serialize_row
    Row.total_size Row.value_size Row.fill Row.fill_value Row.copy_at Row.le_bytes Row.to_u64
    delete_body delete_pages get_num_pages Session.read_page Session.write_page num_pages
    TableFile.read_page TableFile.write_page put_page contents lookup insert column_names
    delete_slots delete_slot num_slots insert_row delete_row init free_ptr free_space place
    slot_deleted read_row read16 write16 memcpy read_bytes read_slot_row selects deserialize_row
    read_columns read_value le_value from_u64 column_size eval_where column_value index_of
    compare_where value_eq
delete_run = refl

delete_body-IsStore_example : IsStore whole columns 0 2 no_row
delete_body-IsStore_example =
    delete_body-IsStore whole condition delete_five columns 2 0 1 one_row no_row one_row-IsStore
      (omega arith) delete_run

-- SELECT * FROM t
abbrev select_all : Statement
select_all = blank_statement

all_names : result_columns [] [] columns ≡ ok (column_names columns)
unfolding result_columns
all_names = refl

abbrev every : Row → Bool
every _ = true

every-Means : Means whole [] none columns (column_names columns) every
unfolding selects
every-Means _ r = refl

select_body-table_rows_example :
    select_body whole [] select_all columns one_row
    ≡ (one_row, ok (column_names columns, filter every (table_rows columns one_row 1 1)))
select_body-table_rows_example =
    select_body-table_rows whole [] select_all columns (column_names columns) every 0 2 one_row
      one_row-IsStore (omega arith) all_names every-Means

select_body-insert_body_example :
    (s' : Session) × (xs : List Row) × (ys : List Row) × (insert_body whole expressions statement
        columns table
      ≡ (s', ok tt))
    × (select_body whole [] select_all columns table
        ≡ (table, ok (column_names columns, filter every (xs ++ ys))))
    × (select_body whole [] select_all columns s'
        ≡ (s', ok (column_names columns, filter every (xs ++ row ∷ ys))))
select_body-insert_body_example =
    select_body-insert_body whole expressions [] statement select_all columns row bytes
      (column_names columns) every 0 1 table equal_comm key_index made counted free serialized
      row-InRangeRow (omega arith) (omega arith) all_names every-Means table-IsStore (omega arith)
      (omega arith)

abbrev is_five : Row → Bool
is_five (int n ∷ _) = eq_ℤ n (pos 5)
is_five _ = false

is_five-selects :
    (r : Row)
    → StoresRow columns r
    → selects whole condition (some 2) r (column_names columns) ≡ ok (is_five r)
unfolding selects eval_where expression_at eval_expr column_value index_of compare_where value_eq
    column_names
is_five-selects [] h = absurd h
is_five-selects (int n ∷ []) h = refl
is_five-selects (null ∷ []) h = refl
is_five-selects (Row.float n ∷ []) h = let e = h.0 in cc
is_five-selects (Row.text s ∷ []) h = let e = h.0.0 in cc
is_five-selects (Row.bool b ∷ []) h = let e = h.0 in cc
is_five-selects (v ∷ w ∷ _) h = absurd h.1

is_five-Means : Means whole condition (some 2) columns (column_names columns) is_five
is_five-Means held r = is_five-selects r.row (serialize_row-StoresRow r.row columns held r.run)

select_body-delete_body_rows_example :
    (select_body whole [] select_all columns one_row
      ≡ (one_row, ok (column_names columns, filter every (table_rows columns one_row 1 1))))
    × (select_body whole [] select_all columns no_row ≡ (
      no_row,
      ok (
        column_names columns,
        filter every (filter (λ r. not (is_five r)) (table_rows columns one_row 1 1)),
      ),
    ))
select_body-delete_body_rows_example =
    select_body-delete_body_rows whole condition [] delete_five select_all columns
      (column_names columns) every is_five 0 2 1 one_row no_row one_row-IsStore (omega arith)
      is_five-Means all_names every-Means delete_run
