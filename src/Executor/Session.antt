-- ===== src/Executor/Session.antt =====
-- What the statements of src/executor/executor.cpp share: an open table file and the disk, the
-- helpers over them, and the reading of rows.
use microsql.Base.{ℕ, ◌%◌, ok, err, fault}
use microsql.Storage.Page.{Page}
use microsql.Storage.TableFile
use microsql.Storage.TableFile.{Disk, TableFile, FileResult, TableFileError}
use microsql.Executor.Slots.{internal}
use microsql.Executor.Error.{Exec}

-- The table file that a statement works on. What is written before an error stays written.
pub record Session : Type 0 where
  pub file : TableFile
  pub disk : Disk

abbrev pub Io : Type 0 → Type 0
Io A = Session → Session × Exec A

abbrev pub pure : {A : Type 0} → A → Io A
pure a s = (s, ok a)

abbrev pub lift : {A : Type 0} → Exec A → Io A
lift m s = (s, m)

module _ {A B : Type 0} where
  abbrev pub continue : Exec A → (A → Io B) → Io B
  continue (ok a) k s = k a s
  continue (err e) k s = (s, err e)
  continue (fault u) k s = (s, fault u)

  infixl 5 ◌>>=◌
  abbrev pub ◌>>=◌ : Io A → (A → Io B) → Io B
  ◌>>=◌ m k s = let (s', r) = m s in continue r k s'

-- An operation of TableFile.
abbrev pub on_file : {A : Type 0} → (TableFile → Disk → FileResult A) → Io A
on_file f s = let ((t, disk), r) = f s.file s.disk in (record { file = t; disk = disk }, internal r)

unfoldable pub get_num_pages : Io ℕ
get_num_pages = on_file TableFile.num_pages

unfoldable pub read_page : ℕ → Io Page
read_page i = on_file (λ t disk. TableFile.read_page t disk (i % 0x1_0000_0000))

unfoldable pub write_page : Page → Io (Unit {0})
write_page page = on_file (λ t disk. TableFile.write_page t disk page)
