-- ===== src/Executor/Delete/Tests.antt =====
-- A page with two rows, of which DELETE takes one.
use microsql.Base.{
  ℕ, ◌*◌, ◌≤◌, ◌≡◌, refl, sym, ◌∙◌, true, false, none, some, List, [], ◌∷◌, arith, ok, Text, codes,
}
use microsql.Base.Int.{pos}
use microsql.Ast.Statement.{ColumnDefinition, integer, column_size}
use microsql.Ast.Expression.{BinaryOperator, Expression, literal_int, column_ref, binary}
use microsql.Base.Memory.{read16, write16, memcpy, read_bytes}
use microsql.Storage.Row.{deserialize_row, read_columns, read_value, le_value, from_u64}
use microsql.Storage.Page.{
  Page, num_slots, init, insert_row, delete_row, free_ptr, free_space, place, slot_deleted,
  read_row,
}
use microsql.Storage.Page.Slots.{IsValid}
use microsql.Storage.Page.Init.{init-IsValid}
use microsql.Storage.Page.Insert.{insert_row-IsValid}
use microsql.Executor.Whole.{whole}
use microsql.Executor.Values.{value_eq}
use microsql.Executor.Eval.{
  eval_where, expression_at, eval_expr, column_value, index_of, compare_where,
}
use microsql.Executor.Slots.{delete_slots, delete_slot, read_slot_row, selects}
use microsql.Storage.Row.{int}
use microsql.Executor.Slots.{select_slot, select_slots}
use microsql.Executor.Table.{IsTable, table_page, put, put-IsTable, table_page-put}
use microsql.Executor.Select.Table.{TableRows, select_body-TableRows}
use microsql.Executor.Table.{AreSound}
use microsql.Executor.Delete.Table.{TableAfter, delete_body-TableAfter}
use microsql.Ast.Statement.{Statement}
use microsql.Parser.Tables.{blank_statement}
use microsql.Executor.Session
use microsql.Executor.Session.{Session, get_num_pages}
use microsql.Executor.Scan.{result_columns, select_pages, select_body}
use microsql.Executor.Change.{delete_pages, delete_body}
use microsql.Storage.Page.{page_size}
use microsql.Storage.Page.Insert.{insert_row_outside}
use microsql.Storage.Page.Init.{init_outside}
use microsql.Storage.TableFile
use microsql.Storage.TableFile.{contents, lookup, insert, num_pages, put_page, empty_file}
use microsql.Catalog.{column_names}
use mathlib.Core.Path.{subst}

abbrev columns : List ColumnDefinition
columns =
    record {
      name = codes "id";
      type = integer;
      text_length = pos 0;
      not_null = false;
      primary_key = false;
    }
    ∷ []

abbrev names : List Text
names = codes "id" ∷ []

-- id = 5
abbrev condition : List Expression
condition = column_ref (codes "id") [] ∷ literal_int (pos 5) ∷ binary BinaryOperator.equal 0 1 ∷ []

abbrev fresh : Page
fresh = init (record { bytes = λ a. 0; page_id = 1 }) 1

-- One row holds NULL, the other 5.
abbrev one_row : Page
one_row = (insert_row fresh (1 ∷ []) 1).0

abbrev page : Page
page = (insert_row one_row (0 ∷ 5 ∷ 0 ∷ 0 ∷ 0 ∷ 0 ∷ 0 ∷ 0 ∷ 0 ∷ []) 9).0

page-IsValid : IsValid page
page-IsValid =
    insert_row-IsValid one_row (0 ∷ 5 ∷ 0 ∷ 0 ∷ 0 ∷ 0 ∷ 0 ∷ 0 ∷ 0 ∷ []) 9 (
      insert_row-IsValid fresh (1 ∷ []) 1 (init-IsValid (record { bytes = λ a. 0; page_id = 1 }) 1))

abbrev after : Page
after = (delete_row page 1).0

delete_run :
    delete_slots whole condition (some 2) columns names (num_slots page) 0 (page, 0) ≡ ok (after, 1)
unfolding delete_slots delete_slot num_slots insert_row delete_row init free_ptr free_space place
    slot_deleted read_row read16 write16 memcpy read_bytes read_slot_row selects deserialize_row
    read_columns read_value le_value from_u64 column_size eval_where expression_at eval_expr
    column_value index_of compare_where value_eq
delete_run = refl

select_run :
    select_slots whole condition (some 2) columns names page (num_slots page) 0 []
    ≡ ok ((int (pos 5) ∷ []) ∷ [])
unfolding select_slots select_slot num_slots insert_row delete_row init free_ptr free_space place
    slot_deleted read_row read16 write16 memcpy read_bytes read_slot_row selects deserialize_row
    read_columns read_value le_value from_u64 column_size eval_where expression_at eval_expr
    column_value index_of compare_where value_eq
select_run = refl

-- A table whose only page of data is this page.
abbrev blank_table : Session
blank_table = record {
  file = record { file_path = codes "t.ms"; is_open = true; failed = false };
  disk = record {
    files = (codes "t.ms", record { bytes = λ a. 0; size = 2 * page_size }) ∷ [];
    catalog = none;
    writable = true;
  };
}

abbrev table : Session
table = put page blank_table

blank_size : (contents blank_table.file blank_table.disk).size ≡ 2 * page_size
unfolding contents lookup
blank_size = refl

page_number : page.page_id ≡ 1
unfolding insert_row init free_space free_ptr read16 write16 num_slots
page_number = refl

table-IsTable : IsTable 2 table
table-IsTable =
    put-IsTable 2 blank_table page
      (record {
        usable = record { opened = refl; sound = refl; device = refl };
        size = blank_size;
        bound = omega arith;
      })
      (omega (arith, page_number))

first_room : free_space fresh ≡ 4080
unfolding free_space init free_ptr num_slots read16 write16
first_room = refl

second_room : free_space one_row ≡ 4075
unfolding free_space init free_ptr num_slots read16 write16 insert_row place memcpy
second_room = refl

page_outside : (a : ℕ) → page_size ≤ a → page.bytes a ≡ 0
page_outside a h =
    let zeros : Page = record { bytes = λ a. 0; page_id = 1 } in
    let sound = init-IsValid zeros 1 in
    let (_, first) =
      insert_row_outside fresh (1 ∷ []) 1 sound (omega arith, omega (arith, first_room)) in
    let (_, second) =
      insert_row_outside one_row (0 ∷ 5 ∷ 0 ∷ 0 ∷ 0 ∷ 0 ∷ 0 ∷ 0 ∷ 0 ∷ []) 9
        (insert_row-IsValid fresh (1 ∷ []) 1 sound) (omega arith, omega (arith, second_room)) in
    second a h ∙ first a h ∙ init_outside zeros 1 a h

table-AreSound : AreSound 2 1 table
table-AreSound j h k =
    let only : 1 ≡ j = omega arith in
    let here : table_page table 1 ≡ page =
      subst (λ i. table_page table i ≡ page) page_number
        (table_page-put blank_table page page_outside) in
    subst (λ j. IsValid (table_page table j)) only (subst IsValid (sym here) page-IsValid)

-- WHERE id = 5
abbrev statement : Statement
statement = record blank_statement { where_index = some 2 }

abbrev table_after : Session
table_after = (delete_body whole condition statement columns table).0

delete_body_run : delete_body whole condition statement columns table ≡ (table_after, ok 1)
unfolding delete_body delete_pages get_num_pages Session.read_page Session.write_page num_pages
    TableFile.read_page TableFile.write_page put_page contents lookup insert column_names
    delete_slots delete_slot num_slots insert_row delete_row init free_ptr free_space place
    slot_deleted read_row read16 write16 memcpy read_bytes read_slot_row selects deserialize_row
    read_columns read_value le_value from_u64 column_size eval_where expression_at eval_expr
    column_value index_of compare_where value_eq
delete_body_run = refl

delete_body-TableAfter_example : TableAfter whole condition statement columns 2 1 table table_after
delete_body-TableAfter_example =
    delete_body-TableAfter whole condition statement columns 2 1 table table_after table-IsTable
      table-AreSound (omega arith) delete_body_run

select_body_run :
    select_body whole condition statement columns table
    ≡ (table, ok (names, (int (pos 5) ∷ []) ∷ []))
unfolding select_body select_pages result_columns get_num_pages Session.read_page num_pages
    TableFile.read_page contents lookup insert column_names select_slots select_slot num_slots
    insert_row init free_ptr free_space place slot_deleted read_row read16 write16 memcpy read_bytes
    read_slot_row selects deserialize_row read_columns read_value le_value from_u64 column_size
    eval_where expression_at eval_expr column_value index_of compare_where value_eq
select_body_run = refl

select_body-TableRows_example :
    (table ≡ table)
    × (result_columns condition [] columns ≡ ok names)
    × TableRows whole condition (some 2) columns names table 1 1 ((int (pos 5) ∷ []) ∷ [])
select_body-TableRows_example =
    select_body-TableRows whole condition statement columns 2 table table names
      ((int (pos 5) ∷ []) ∷ []) table-IsTable (omega arith) select_body_run
