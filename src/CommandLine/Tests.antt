-- ===== src/CommandLine/Tests.antt =====
-- The theorems on the command line at a table with one row, and at short inputs.
use microsql.Base.{
  ◌-◌, ◌*◌, ◌≡◌, refl, true, false, none, some, List, [], ◌∷◌, ◌++◌, arith, ltb, if◌then◌else◌,
  length, undefined, out_of_fuel, ok, fault, Text, codes,
}
use microsql.Base.Int.{pos}
use microsql.Base.Memory.{read16, write16, memcpy, read_bytes}
use microsql.Ast.Statement.{Statement, ColumnDefinition, DataType}
use microsql.Ast.Expression.{Expression, column_ref}
use microsql.Parser.Tables.{blank_statement}
use microsql.Storage.Page.{
  page_size, Page, num_slots, init, insert_row, free_ptr, free_space, place, slot_deleted, read_row,
}
use microsql.Storage.Row
use microsql.Storage.Row.{Row, int, null, deserialize_row, read_columns, read_value}
use microsql.Storage.TableFile
use microsql.Storage.TableFile.{Disk, contents, lookup, num_pages}
use microsql.Catalog.{catalog_text}
use microsql.Catalog.Load.RoundTrip.{AreSchemas}
use microsql.Executor.Session
use microsql.Executor.Session.{Session, get_num_pages}
use microsql.Executor.Scan.{select_body, select_pages, result_columns, selected_names}
use microsql.Executor.Slots.{select_slots, select_slot, read_slot_row, selects}
use microsql.Executor.Statements.{Context, Reply, selected}
use microsql.Executor.Saved.Table.{IsSaved, IsSavedContext}
use microsql.Executor.Whole.{whole}
use microsql.CommandLine.Output.{Format, print_result}
use microsql.CommandLine.Overrun.{print_result-select_body}
use microsql.CommandLine.Loop.{Libraries, find_char, query_of, command_loop, main}
use microsql.CommandLine.Lines.{AreFree}
use microsql.CommandLine.Comment.{command_loop-comment}
use microsql.CommandLine.Restart.{main-restart}

abbrev format : Format
format = record { double_text = λ x. codes "0"; display_width = λ t. length t }

abbrev two_columns : Reply
two_columns = record {
  success = true;
  message = codes "2 rows";
  columns = codes "id" ∷ codes "name" ∷ [];
  rows = (int (pos 1) ∷ Row.text (codes "Ada") ∷ []) ∷ (int (pos 100) ∷ null ∷ []) ∷ [];
}

-- A table of two columns whose only row holds NULL twice.
abbrev column : Text → ColumnDefinition
column name = record {
  name = name;
  type = DataType.integer;
  text_length = pos 0;
  not_null = false;
  primary_key = false;
}

abbrev columns : List ColumnDefinition
columns = column (codes "id") ∷ column (codes "age") ∷ []

abbrev page : Page
page = (insert_row (init (record { bytes = λ a. 0; page_id = 1 }) 1) (1 ∷ 1 ∷ []) 2).0

abbrev disk : Disk
disk = record {
  files =
      (
        codes "t.ms",
        record {
          bytes = λ a. if ltb a page_size then 0 else page.bytes (a - page_size);
          size = 2 * page_size;
        },
      )
      ∷ [];
  catalog = none;
  writable = true;
}

abbrev session : Session
session = record {
  file = record { file_path = codes "t.ms"; is_open = true; failed = false };
  disk = disk;
}

-- SELECT id FROM t;
abbrev select_id : Statement
select_id = record blank_statement { select_columns = 0 ∷ [] }

abbrev expressions : List Expression
expressions = column_ref (codes "id") [] ∷ []

select_run :
    (select_body whole expressions select_id columns session).1
    ≡ ok (codes "id" ∷ [], (null ∷ null ∷ []) ∷ [])
unfolding select_body select_pages result_columns selected_names get_num_pages Session.read_page
    num_pages TableFile.read_page contents lookup select_slots select_slot read_slot_row selects
    num_slots insert_row init free_ptr free_space place slot_deleted read_row read16 write16 memcpy
    read_bytes deserialize_row read_columns
select_run = refl

print_result-select_body_example :
    print_result format (selected (codes "id" ∷ [], (null ∷ null ∷ []) ∷ [])) ≡ fault undefined
print_result-select_body_example =
    print_result-select_body format whole expressions select_id columns session (codes "id" ∷ [])
      (null ∷ null ∷ []) [] select_run (omega arith) (omega arith)

abbrev libraries : Libraries
libraries = record {
  is_float = λ t. false;
  stof = λ t. none;
  arithmetic = whole;
  format = format;
  uninitialised = pos 0;
}

abbrev context : Context
context = record { tables = []; open_files = []; disk = disk }

abbrev first_line : List Text
first_line = codes "SELECT *" ∷ []

-- A semicolon inside a text ends the query as well.
query_of_text : query_of (codes "SELECT ';' FROM t;") ≡ some (codes "SELECT ';")
unfolding query_of find_char
query_of_text = refl

abbrev comment_line : List Text
comment_line = codes "--x" ∷ []

comment_line-AreFree : AreFree b';' comment_line
unfolding AreFree find_char
comment_line-AreFree = (refl, tt)

comment_found : find_char b';' (codes "x DROP TABLE t;") ≡ some 14
unfolding find_char
comment_found = refl

no_newline : find_char 10 (codes "x DROP TABLE t;") ≡ none
unfolding find_char
no_newline = refl

command_loop-comment_example :
    (command_loop libraries
      (comment_line ++ codes "DROP TABLE t;" ∷ codes "exit;" ∷ [])
      []
      context).outcome
    ≡ fault out_of_fuel
command_loop-comment_example =
    command_loop-comment (codes "x DROP TABLE t;") 14 libraries comment_line (codes "DROP TABLE t;")
      (codes "exit;" ∷ []) context comment_line-AreFree refl no_newline comment_found

disk-IsSaved : IsSaved [] disk
unfolding catalog_text
disk-IsSaved = record { text = refl; device = refl }

no_schemas : AreSchemas []
unfolding AreSchemas
no_schemas = tt

main-restart_example :
    IsSavedContext (main libraries (codes "exit;" ∷ []) disk).context
    × (AreSchemas (main libraries (codes "exit;" ∷ []) disk).context.tables
        → main libraries [] (main libraries (codes "exit;" ∷ []) disk).context.disk
          ≡ command_loop libraries [] [] (record {
            tables = (main libraries (codes "exit;" ∷ []) disk).context.tables;
            open_files = [];
            disk = (main libraries (codes "exit;" ∷ []) disk).context.disk;
          }))
main-restart_example =
    main-restart libraries (codes "exit;" ∷ []) [] [] disk disk-IsSaved no_schemas
