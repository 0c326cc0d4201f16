-- ===== src/Lib.antt =====
-- microsql: a small relational database that keeps each table in a file of pages. A statement's
-- text becomes tokens (src/lexer), a statement with a flat list of expressions (src/parser, src/ast),
-- and a run against the catalog of tables (src/catalog) and the pages of a table file (src/storage),
-- which the executor (src/executor) drives.
--
-- Which file models which part:
-- - Storage.Page: the slotted page of src/storage/page.h and src/storage/page.cpp: init, freeSpace,
--   insertRow, readRow, deleteRow and updateRow, as functions from a page to a page and a result.
--   Page.Slots has the soundness of a page and what a slot holds; Insert, Update, Delete, Read and
--   Init have the theorems of the operations, and Place, Rewrite, Move and Shrink the steps of them.
-- - Storage.Row: serializeRow and deserializeRow of src/storage/row.cpp, with the encoding of a
--   value in Row.Encoding. Row.Accepts and Row.Throws have the theorems on what it takes and how it
--   fails.
-- - Storage.TableFile: the stream operations of src/storage/page.cpp over a disk that maps names to
--   bytes; TableFile.Pages has the theorems on reads after writes.
-- - Catalog: src/catalog/catalog.cpp and src/catalog/tableschema.cpp, with Catalog::load and split
--   in Catalog.Load. Catalog.Tables has the theorems on addTable, findTable and dropTable, and
--   Load.RoundTrip the one on load after save.
-- - Ast: src/ast/statement.h and src/ast/expression.h; Ast.Ordered has the order of the expressions.
-- - Lexer: tokenize of src/lexer/lexer.cpp (Lexer.Scan), the classes of words of
--   src/lexer/token.cpp (Lexer.Words) and the tokens of src/lexer/token.h. Lexer.Ends and Total have
--   the theorems on the end of the run, Lexer.Comments the one on comments, and Parser.Start joins the
--   lexer to the parser.
-- - Parser: the Parser object of src/parser/parser.cpp as passing of its state (Parser.State), the
--   expression grammar (Parser.Expressions), SELECT, INSERT, UPDATE and DELETE (Parser.Statements),
--   CREATE, DROP and parse (Parser.Tables). Parser.Later, Grammar and Ordered have the
--   theorems on expressions, and Parser.Keeps and Pool those on statements.
-- - Executor: evalExpr, evalWhere and the rows of INSERT and UPDATE of
--   src/executor/executor_helpers.cpp (Executor.Values, Eval, Rows), and the statements of
--   src/executor/executor.cpp: what they do with one page (Slots), with a table file (Session, Scan,
--   Insert, Change) and with the execution context (Statements). Executor.Table has a table file as
--   its pages; Executor.Select, Delete, Insert.Table, Key, Unique and Create have the theorems on
--   SELECT, DELETE, INSERT, the primary key and CREATE TABLE, Executor.Store has the well-formed
--   table that INSERT and DELETE keep and the list of its rows, Executor.Saved and Names have the
--   theorems on what a statement leaves of the catalog, and Executor.Parsed joins the parser and the
--   evaluators.
-- - CommandLine: src/main.cpp. Output has formatValue and printResult, as the text that is printed,
--   and Loop the loop of main over the lines of the terminal; Widths, Printable, Aligned and Overrun
--   have the theorems on printing, Lines and Comment those on lines, and Restart, with Executor.Saved
--   below it, the one on the tables from one run of the program to the next.
-- - Base: what all share: numbers, lists, memory, 64-bit integers, and results that are a value, an
--   error, or a fault. A fault is an exception that nobody catches, undefined behaviour, or a run
--   that did not end within its fuel.
--
-- Names are those of the code in other spelling: `insert_row` is insertRow. A `uint16_t` is a natural
-- number with its wrap-around written out. An `int` that may be -1 is an option, in which `none`
-- is -1. A loop over slots or pages counts the rounds that are left. The loops and the nesting of the
-- lexer and the parser take fuel, and so do the evaluators; what is enough is said in a theorem where
-- one is proved. Bytes are in the order of a little-endian machine.
--
-- Parameters stand for what the program gets from outside: the arithmetic and the order of `double`
-- (Executor.Values.Double), std::stof (`stof`), std::from_chars into a `float` (`is_float`), and the
-- value of an `int` that is never written (`uninitialised`); for printing, the text of a `double` and
-- the width that std::format gives a text (CommandLine.Output.Format).
--
-- Not modelled: messages on stderr, and memory that is never freed. A device either takes writes or
-- refuses them all, and a file that is there can be opened on both. std::filesystem::remove does not
-- fail. The saved catalog stands apart from the table files, so a table whose path is catalog.txt does
-- not meet it. The count of the rows of a reply has no bound, where the code has an `int`. What is printed before a fault is kept,
-- and the lines of the terminal are given at the start.
pub mod Ast
pub mod Base
pub mod Catalog
pub mod CommandLine
pub mod Executor
pub mod Lexer
pub mod Parser
pub mod Storage
