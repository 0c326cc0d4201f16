-- ===== src/Executor/Saved/Table.antt =====
-- The saved catalog under resolveTable of src/executor/executor.cpp and the work on a table behind it.
use microsql.Base.{
  ◌≡◌, refl, sym, ap, ◌∙◌, Bool, true, false, Option, none, some, List, [], if◌then◌else◌, ok, err,
  fault, Text,
}
use mathlib.Core.Path.{subst}
use microsql.Ast.Statement.{ColumnDefinition}
use microsql.Storage.TableFile.{Disk, TableFile, FileResult, open_file, closed_file, lookup}
use microsql.Catalog.{TableSchema, Tables, find_table, save, catalog_text}
use microsql.Executor.Session.{Io}
use microsql.Executor.Statements.{
  with_table, keep_open, find_open, find_schema, Context, Step, resolve_table, on_table,
}
use microsql.Executor.Saved.{SameCatalog, SameCatalog-refl, SameCatalog-trans, KeepsCatalog}

-- What is in catalog.txt; a missing file counts as an empty one.
abbrev pub stored_text : Option Text → Text
stored_text none = []
stored_text (some text) = text

abbrev pub stored : Disk → Text
stored disk = stored_text disk.catalog

-- The saved catalog is the text of the tables in memory, on a device that takes writes.
pub record IsSaved (tables : Tables) (disk : Disk) : Type 0 where
  pub text : stored disk ≡ catalog_text tables
  pub device : disk.writable ≡ true

abbrev pub IsSavedContext : Context → Type 0
IsSavedContext ctx = IsSaved ctx.tables ctx.disk

pub IsSaved-SameCatalog :
    (tables : Tables) (disk disk' : Disk)
    → SameCatalog disk disk'
    → IsSaved tables disk
    → IsSaved tables disk'
IsSaved-SameCatalog tables disk disk' same h = record {
  text = ap stored_text same.catalog ∙ h.text;
  device = same.writable ∙ h.device;
}

pub save-IsSaved :
    (tables : Tables) (disk : Disk) → disk.writable ≡ true → IsSaved tables (save tables disk)
unfolding save
save-IsSaved tables disk w = go disk.writable w
  where
    go :
        (b : Bool)
        → b ≡ true
        → IsSaved tables (if b then record disk { catalog = some (catalog_text tables) } else disk)
    go true e = record { text = refl; device = w }
    go false e = record { text = absurd (cc); device = w }

-- A context that differs from one before only in the open files and the disk.
pub record Follows (ctx ctx' : Context) : Type 0 where
  pub tables : ctx'.tables ≡ ctx.tables
  pub disk : SameCatalog ctx.disk ctx'.disk

pub Follows-IsSaved :
    (ctx ctx' : Context) → Follows ctx ctx' → IsSavedContext ctx → IsSavedContext ctx'
Follows-IsSaved ctx ctx' f h =
    subst (λ t. IsSaved t ctx'.disk) (sym f.tables)
      (IsSaved-SameCatalog ctx.tables ctx.disk ctx'.disk f.disk h)

pub Follows-refl : (ctx : Context) → Follows ctx ctx
Follows-refl ctx = record { tables = refl; disk = SameCatalog-refl ctx.disk }

keep_open-Follows :
    (name : Text) (schema : TableSchema) (ctx : Context) (r : FileResult (Unit {0}))
    → Follows ctx (keep_open name schema ctx r).0
keep_open-Follows name schema ctx ((file, disk), ok u) = record {
  tables = refl;
  disk = SameCatalog-refl ctx.disk;
}
keep_open-Follows name schema ctx ((file, disk), err e) = Follows-refl ctx
keep_open-Follows name schema ctx ((file, disk), fault u) = Follows-refl ctx

find_open-Follows :
    (name : Text) (schema : TableSchema) (ctx : Context) (file : Option TableFile)
    → Follows ctx (find_open name schema ctx file).0
find_open-Follows name schema ctx (some file) = Follows-refl ctx
find_open-Follows name schema ctx none =
    keep_open-Follows name schema ctx (open_file (closed_file []) schema.file_path ctx.disk)

find_schema-Follows :
    (name : Text) (ctx : Context) (schema : Option TableSchema)
    → Follows ctx (find_schema name ctx schema).0
find_schema-Follows name ctx none = Follows-refl ctx
find_schema-Follows name ctx (some schema) =
    find_open-Follows name schema ctx (lookup name ctx.open_files)

module _ {A : Type 0} (name : Text) (body : List ColumnDefinition → Io A)
    (keeps : (columns : List ColumnDefinition) → KeepsCatalog (body columns)) where
  with_table-Follows :
      (ctx : Context) (r : Step (TableSchema × TableFile))
      → Follows ctx r.0
      → Follows ctx (with_table name body r).0
  with_table-Follows ctx (ctx', err e) f = f
  with_table-Follows ctx (ctx', fault u) f = f
  with_table-Follows ctx (ctx', ok (schema, file)) f = record {
    tables = f.tables;
    disk =
        SameCatalog-trans f.disk (keeps schema.columns (record { file = file; disk = ctx'.disk }));
  }

  pub on_table-Follows : (ctx : Context) → Follows ctx (on_table name body ctx).0
  unfolding on_table resolve_table
  on_table-Follows ctx =
      with_table-Follows ctx _ (find_schema-Follows name ctx (find_table ctx.tables name))
