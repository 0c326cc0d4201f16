-- ===== src/CommandLine/Restart.antt =====
-- The tables from one run of main in src/main.cpp to the next, by way of the saved catalog.
use microsql.Base.{
  ◌≡◌, refl, sym, ap, ◌∙◌, inl, inr, Option, none, some, List, [], ◌∷◌, Bool-cases, Option-cases,
  Fault, Outcome, ok, err, fault, Text, codes, text_eq,
}
use mathlib.Core.Path.{subst}
use microsql.Lexer.Token.{Token}
use microsql.Lexer.Scan.{tokenize}
use microsql.Parser.State.{ParseResult, Run, done, crash}
use microsql.Parser.Tables.{parse}
use microsql.Storage.TableFile.{Disk}
use microsql.Catalog.{Tables, catalog_text}
use microsql.Catalog.Load.{load_file, load, load_lines, lines_from}
use microsql.Catalog.Load.RoundTrip.{AreSchemas, load_lines-catalog_text}
use microsql.Executor.Statements.{Context, Reply, execute}
use microsql.Executor.Saved.Statements.{execute-IsSaved}
use microsql.Executor.Saved.Table.{stored_text, stored, IsSaved, IsSavedContext}
use microsql.CommandLine.Output.{Printed}
use microsql.CommandLine.Loop.{
  Libraries, Ended, add_line, query_of, unless_error, run_parsed, after_execute, after_parse,
  after_tokenize, run_query, after_query, command_loop, main_from, main,
}

abbrev started : Tables → Disk → Context
started tables disk = record { tables = tables; open_files = []; disk = disk }

catalog_text_empty : (tables : Tables) → [] ≡ catalog_text tables → tables ≡ []
unfolding catalog_text
catalog_text_empty [] h = refl
catalog_text_empty (t ∷ tables) h = cc

module _ (l : Libraries) where
  after_execute-IsSaved :
      (r : Context × Outcome Fault Reply)
      → IsSavedContext r.0
      → IsSavedContext (after_execute l r).0
  after_execute-IsSaved (ctx, ok reply) h = h
  after_execute-IsSaved (ctx, err u) h = h
  after_execute-IsSaved (ctx, fault u) h = h

  unless_error-IsSaved :
      (error : Text) (ctx : Context) (run : Context × Printed Text)
      → IsSavedContext ctx
      → IsSavedContext run.0
      → IsSavedContext (unless_error l error ctx run).0
  unless_error-IsSaved [] ctx run h k = k
  unless_error-IsSaved (c ∷ error) ctx run h k = h

  run_parsed-IsSaved :
      (parsed : ParseResult) (ctx : Context)
      → IsSavedContext ctx
      → IsSavedContext (run_parsed l parsed ctx).0
  unfolding run_parsed
  run_parsed-IsSaved parsed ctx h =
      let run = execute l.arithmetic parsed.expressions parsed.statement ctx in
      unless_error-IsSaved parsed.error ctx (after_execute l run) h (
        after_execute-IsSaved run
          (execute-IsSaved l.arithmetic parsed.expressions parsed.statement ctx h))

  after_parse-IsSaved :
      (r : Run (Unit {0})) (ctx : Context)
      → IsSavedContext ctx
      → IsSavedContext (after_parse l r ctx).0
  after_parse-IsSaved (done u p) ctx h = run_parsed-IsSaved p.result ctx h
  after_parse-IsSaved (crash u) ctx h = h

  after_tokenize-IsSaved :
      (r : Outcome (Unit {0}) (List Token)) (ctx : Context)
      → IsSavedContext ctx
      → IsSavedContext (after_tokenize l r ctx).0
  after_tokenize-IsSaved (ok tokens) ctx h =
      after_parse-IsSaved (parse l.stof l.uninitialised tokens) ctx h
  after_tokenize-IsSaved (err e) ctx h = h
  after_tokenize-IsSaved (fault u) ctx h = h

  run_query-IsSaved :
      (query : Text) (ctx : Context) → IsSavedContext ctx → IsSavedContext (run_query l query ctx).0
  unfolding run_query
  run_query-IsSaved query ctx h = after_tokenize-IsSaved (tokenize l.is_float query) ctx h

  after_query-IsSaved :
      (r : Context × Printed Text) (rest : Context → Ended l)
      → IsSavedContext r.0
      → ((ctx : Context) → IsSavedContext ctx → IsSavedContext (rest ctx).context)
      → IsSavedContext (after_query l r rest).context
  after_query-IsSaved (ctx, ok t) rest h k = k ctx h
  after_query-IsSaved (ctx, err e) rest h k = h
  after_query-IsSaved (ctx, fault u) rest h k = h

  command_loop-IsSaved :
      (lines : List Text) (buffer : Text) (ctx : Context)
      → IsSavedContext ctx
      → IsSavedContext (command_loop l lines buffer ctx).context
  unfolding command_loop
  command_loop-IsSaved [] buffer ctx h = h
  command_loop-IsSaved (line ∷ lines) buffer ctx h =
      elim (Option-cases (query_of (add_line buffer line))) [
        | inl more ↦
            rw (more, command_loop) (command_loop-IsSaved lines (add_line buffer line) ctx h)
        | inr (query, found) ↦ elim (Bool-cases (text_eq query (codes "exit;"))) [
          | inl leave ↦ rw (found, leave, command_loop) h
          | inr stay ↦
              rw (found, stay, command_loop)
                (after_query-IsSaved (run_query l query ctx) (command_loop l lines [])
                  (run_query-IsSaved query ctx h)
                  (λ ctx' h'. command_loop-IsSaved lines [] ctx' h'))
        ]
      ]

  -- A run of main on a disk with a saved catalog starts with its tables.
  main-stored :
      (lines : List Text) (tables : Tables) (disk : Disk)
      → stored disk ≡ catalog_text tables
      → AreSchemas tables
      → main l lines disk ≡ command_loop l lines [] (started tables disk)
  unfolding main load
  main-stored lines tables disk h words = by_file disk.catalog h
    where
      by_file :
          (c : Option Text)
          → stored_text c ≡ catalog_text tables
          → main_from l (load_file [] c) lines disk ≡ command_loop l lines [] (started tables disk)
      by_file none e =
          ap (λ t. command_loop l lines [] (started t disk)) (sym (catalog_text_empty tables e))
      by_file (some text) e =
          ap (λ t. main_from l (load_lines [] none (lines_from [] t)) lines disk) e
          ∙ ap (λ r. main_from l r lines disk) (load_lines-catalog_text [] tables words)

  -- Where main starts on a device that takes writes, with a saved catalog (none counts as an
  -- empty one) that is the text of tables whose names and paths are words and whose text lengths
  -- are in the range of int, then however its run over any lines ends, the saved catalog is the
  -- text of the tables in memory, and if those again have such names, paths and lengths, a next
  -- run of main on that disk goes on with them.
  pub main-restart :
      (lines lines' : List Text) (tables : Tables) (disk : Disk)
      → IsSaved tables disk
      → AreSchemas tables
      → IsSavedContext (main l lines disk).context
        × (AreSchemas (main l lines disk).context.tables
            → main l lines' (main l lines disk).context.disk
              ≡ command_loop l lines' []
                  (started (main l lines disk).context.tables (main l lines disk).context.disk))
  main-restart lines lines' tables disk h words =
      let e = main l lines disk in
      let saved : IsSavedContext e.context =
        subst (λ e. IsSavedContext e.context) (sym (main-stored lines tables disk h.text words))
          (command_loop-IsSaved lines [] (started tables disk) h) in
      (saved, λ words'. main-stored lines' e.context.tables e.context.disk saved.text words')
