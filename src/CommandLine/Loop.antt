-- ===== src/CommandLine/Loop.antt =====
-- main of src/main.cpp: the lines of the terminal, cut into queries, and what is done with each.
use microsql.Base.{
  ℕ, suc, ◌+◌, Bool, true, false, Option, none, some, List, [], ◌∷◌, ◌++◌, ◌==◌, if◌then◌else◌,
  take, Fault, Outcome, ok, err, fault, Text, codes, text_eq,
}
use microsql.Base.Int.{ℤ}
use microsql.Lexer.Token.{Token}
use microsql.Lexer.Scan.{tokenize}
use microsql.Parser.State.{ParseResult, Run, done, crash}
use microsql.Parser.Tables.{parse}
use microsql.Storage.TableFile.{Disk}
use microsql.Catalog.{Tables, newline}
use microsql.Catalog.Load.{Loaded, load}
use microsql.Executor.Values.{Double}
use microsql.Executor.Statements.{Context, Reply, execute}
use microsql.CommandLine.Output.{Format, Printed, print_result}

-- What the program takes from the libraries: whether std::stod takes a text, what std::stof gives,
-- the arithmetic of `double` and its text; and the value of an `int` that nobody has set.
pub record Libraries : Type 0 where
  pub is_float : Text → Bool
  pub stof : Text → Option ℕ
  pub arithmetic : Double
  pub format : Format
  pub uninitialised : ℤ

-- buffer.find(c)
unfoldable pub find_char : ℕ → Text → Option ℕ
find_char c [] = none
find_char c (d ∷ t) =
    if d == c then some 0 else elim (find_char c t) [ none ↦ none | some i ↦ some (suc i) ]

-- `buffer += line`, with a space before it where the buffer holds an earlier line.
abbrev pub add_line : Text → Text → Text
add_line [] line = line
add_line (c ∷ buffer) line = (c ∷ buffer) ++ 32 ∷ line

abbrev pub prompt : Text → Text
prompt [] = codes ">>> "
prompt (c ∷ buffer) = codes "... "

-- The query that a buffer holds: its text up to the first semicolon.
unfoldable pub query_of : Text → Option Text
unfolding find_char
query_of buffer = elim (find_char b';' buffer) [
  | none ↦ none
  | some semi ↦ some (take (semi + 1) buffer)
]

module _ (l : Libraries) where
  abbrev pub after_execute : Context × Outcome Fault Reply → Context × Printed Text
  after_execute (ctx, ok reply) = (ctx, print_result l.format reply)
  after_execute (ctx, err u) = (ctx, fault u)
  after_execute (ctx, fault u) = (ctx, fault u)

  -- A parse error is printed and nothing is executed.
  abbrev pub unless_error : Text → Context → Context × Printed Text → Context × Printed Text
  unless_error [] ctx run = run
  unless_error (c ∷ error) ctx run = (ctx, ok (codes "Parse error: " ++ ((c ∷ error) ++ newline)))

  unfoldable pub run_parsed : ParseResult → Context → Context × Printed Text
  unfolding execute print_result
  run_parsed parsed ctx =
      unless_error parsed.error ctx
        (after_execute (execute l.arithmetic parsed.expressions parsed.statement ctx))

  abbrev pub after_parse : Run (Unit {0}) → Context → Context × Printed Text
  after_parse (done _ p) ctx = run_parsed p.result ctx
  after_parse (crash u) ctx = (ctx, fault u)

  abbrev pub after_tokenize : Outcome (Unit {0}) (List Token) → Context → Context × Printed Text
  after_tokenize (ok tokens) ctx = after_parse (parse l.stof l.uninitialised tokens) ctx
  after_tokenize (err e) ctx = (ctx, err e)
  after_tokenize (fault u) ctx = (ctx, fault u)

  unfoldable pub run_query : Text → Context → Context × Printed Text
  unfolding tokenize parse run_parsed
  run_query query ctx = after_tokenize (tokenize l.is_float query) ctx

  -- The state of the program where the loop ends, what it has printed, and how it ends.
  pub record Ended : Type 0 where
    pub context : Context
    pub output : Text
    pub outcome : Printed (Unit {0})

  abbrev pub printing : Text → Ended → Ended
  printing t e = record e { output = t ++ e.output }

  abbrev pub after_query : Context × Printed Text → (Context → Ended) → Ended
  after_query (ctx, ok t) rest = printing t (rest ctx)
  after_query (ctx, err e) rest = record { context = ctx; output = []; outcome = err e }
  after_query (ctx, fault u) rest = record { context = ctx; output = []; outcome = fault u }

  -- The loop over the lines, with the buffer; it ends with the input or at `exit;`.
  unfoldable pub command_loop : List Text → Text → Context → Ended
  unfolding query_of run_query
  command_loop [] buffer ctx = record { context = ctx; output = prompt buffer; outcome = ok tt }
  command_loop (line ∷ lines) buffer ctx =
      printing (prompt buffer) (elim (query_of (add_line buffer line)) [
        | none ↦ command_loop lines (add_line buffer line) ctx
        | some query ↦ elim (text_eq query (codes "exit;")) [
          | true ↦ record { context = ctx; output = []; outcome = ok tt }
          | false ↦ after_query (run_query query ctx) (command_loop lines [])
        ]
      ])

  -- A catalog that is not there or does not load leaves the tables read so far.
  abbrev pub main_from : Tables × Loaded (Unit {0}) → List Text → Disk → Ended
  main_from (tables, fault u) lines disk = record {
    context = record { tables = tables; open_files = []; disk = disk };
    output = [];
    outcome = fault u;
  }
  main_from (tables, _) lines disk =
      command_loop lines [] (record { tables = tables; open_files = []; disk = disk })

  unfoldable pub main : List Text → Disk → Ended
  unfolding load command_loop
  main lines disk = main_from (load [] disk) lines disk
