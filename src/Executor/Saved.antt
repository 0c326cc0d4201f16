-- ===== src/Executor/Saved.antt =====
-- The saved catalog under the bodies of the statements in src/executor/executor.cpp: work on a table
-- file leaves it, and leaves the device as it is.
pub mod Bodies
pub mod Changes
pub mod Table
pub mod Statements
use microsql.Base.{
  ℕ, zero, suc, ◌+◌, ◌-◌, ◌*◌, ◌/◌, ◌%◌, ◌^◌, ◌≤◌, ◌<◌, ◌≡◌, refl, sym, ap, ◌∙◌, fun_ext, ◌≢◌, ◌↔◌,
  ◌⊎◌, inl, inr, Bool, true, false, not, ◌&&◌, ◌||◌, Option, none, some, List, [], ◌∷◌, ◌++◌, map,
  arith, ltb, leb, ◌==◌, if◌then◌else◌, ltb→lt, lt→ltb, le→ltb, ltb_false→le, leb_false→lt, leb→le,
  le→leb, ==_iff, ==_refl, Bool-cases, Option-cases, length, get_elem?, get_or, set, take, drop,
  replicate, length-append, length-take, length-replicate, take_all, get_elem?-append_left, Fault,
  bad_variant_access, invalid_argument, out_of_range, undefined, out_of_fuel, Outcome, ok, err,
  fault, OnOk, OnOk-bind, Text, codes, text_eq, text_eq_refl, text_eq→eq, to_string,
}
use microsql.Base.Memory.{Memory}
use microsql.Storage.Page.{Page, page_size, init}
use microsql.Storage.TableFile
use microsql.Storage.TableFile.{
  Disk, TableFile, FileResult, create, open_file, put_page, append_page, allocate_page, num_pages,
  contents, FileData, lookup, failed_to_open_file,
}
use microsql.Executor.Error.{Exec}
use microsql.Executor.Slots.{internal}
use microsql.Executor.Session.{
  Session, Io, pure, lift, continue, ◌>>=◌, on_file, get_num_pages, read_page, write_page,
}

pub record SameCatalog (disk disk' : Disk) : Type 0 where
  pub catalog : disk'.catalog ≡ disk.catalog
  pub writable : disk'.writable ≡ disk.writable

pub SameCatalog-refl : (disk : Disk) → SameCatalog disk disk
SameCatalog-refl disk = record { catalog = refl; writable = refl }

pub SameCatalog-trans : {a b c : Disk} → SameCatalog a b → SameCatalog b c → SameCatalog a c
SameCatalog-trans h k = record {
  catalog = k.catalog ∙ h.catalog;
  writable = k.writable ∙ h.writable;
}

-- An operation of TableFile.
abbrev pub KeepsDisk : {A : Type 0} → Disk → FileResult A → Type 0
KeepsDisk disk r = SameCatalog disk r.0.1

KeepsDisk-if :
    {A : Type 0} {disk : Disk} (b : Bool) (x y : FileResult A)
    → KeepsDisk disk x
    → KeepsDisk disk y
    → KeepsDisk disk (if b then x else y)
KeepsDisk-if true x y h k = h
KeepsDisk-if false x y h k = k

pub create-KeepsDisk : (t : TableFile) (disk : Disk) → KeepsDisk disk (create t disk)
unfolding create
create-KeepsDisk t disk =
    KeepsDisk-if disk.writable _ _ (record { catalog = refl; writable = refl })
      (SameCatalog-refl disk)

pub open_file-KeepsDisk :
    (t : TableFile) (path : Text) (disk : Disk) → KeepsDisk disk (open_file t path disk)
unfolding open_file
open_file-KeepsDisk t path disk =
    KeepsDisk-if t.is_open _ _ (SameCatalog-refl disk) (go (lookup path disk.files))
  where
    go :
        (f : Option FileData)
        → KeepsDisk disk (elim f [
          | none ↦ ((record t { file_path = path; failed = true }, disk), err failed_to_open_file)
          | some f ↦ ((record t { file_path = path; is_open = true; failed = false }, disk), ok tt)
        ])
    go none = SameCatalog-refl disk
    go (some f) = SameCatalog-refl disk

put_page-KeepsDisk :
    (t : TableFile) (disk : Disk) (start : ℕ) (m : Memory)
    → KeepsDisk disk (put_page t disk start m)
unfolding put_page
put_page-KeepsDisk t disk start m =
    KeepsDisk-if disk.writable _ _ (record { catalog = refl; writable = refl })
      (SameCatalog-refl disk)

read_page-KeepsDisk :
    (t : TableFile) (disk : Disk) (i : ℕ) → KeepsDisk disk (TableFile.read_page t disk i)
unfolding TableFile.read_page
read_page-KeepsDisk t disk i = KeepsDisk-if (not t.is_open) _ _ (SameCatalog-refl disk) (
    KeepsDisk-if t.failed _ _ (SameCatalog-refl disk) (
      KeepsDisk-if (ltb (contents t disk).size (i * page_size + page_size)) _ _
        (SameCatalog-refl disk) (SameCatalog-refl disk)))

write_page-KeepsDisk :
    (t : TableFile) (disk : Disk) (page : Page) → KeepsDisk disk (TableFile.write_page t disk page)
unfolding TableFile.write_page
write_page-KeepsDisk t disk page = KeepsDisk-if (not t.is_open) _ _ (SameCatalog-refl disk) (
    KeepsDisk-if t.failed _ _ (SameCatalog-refl disk)
      (put_page-KeepsDisk t disk (page.page_id * page_size) page.bytes))

num_pages-KeepsDisk : (t : TableFile) (disk : Disk) → KeepsDisk disk (num_pages t disk)
unfolding num_pages
num_pages-KeepsDisk t disk =
    KeepsDisk-if (not t.is_open) _ _ (SameCatalog-refl disk) (SameCatalog-refl disk)

append_page-KeepsDisk :
    (disk : Disk) (r : FileResult ℕ) → KeepsDisk disk r → KeepsDisk disk (append_page r)
unfolding append_page
append_page-KeepsDisk disk ((t, disk'), fault u) h = h
append_page-KeepsDisk disk ((t, disk'), err e) h = h
append_page-KeepsDisk disk ((t, disk'), ok n) h = SameCatalog-trans h (
    put_page-KeepsDisk t disk' (contents t disk').size
      (init (record { bytes = λ a. 0; page_id = 0 }) (n % 0x1_0000_0000)).bytes)

pub allocate_page-KeepsDisk : (t : TableFile) (disk : Disk) → KeepsDisk disk (allocate_page t disk)
unfolding allocate_page
allocate_page-KeepsDisk t disk =
    append_page-KeepsDisk disk (num_pages t disk) (num_pages-KeepsDisk t disk)

-- A function of the executor over a table file.
abbrev pub KeepsCatalog : {A : Type 0} → Io A → Type 0
KeepsCatalog m = (s : Session) → SameCatalog s.disk (m s).0.disk

module _ {A B : Type 0} where
  continue-SameCatalog :
      (disk : Disk) (r : Exec A) (k : A → Io B) (s : Session)
      → SameCatalog disk s.disk
      → ((a : A) → KeepsCatalog (k a))
      → SameCatalog disk (continue r k s).0.disk
  continue-SameCatalog disk (ok a) k s h g = SameCatalog-trans h (g a s)
  continue-SameCatalog disk (err e) k s h g = h
  continue-SameCatalog disk (fault u) k s h g = h

  pub KeepsCatalog-bind :
      (m : Io A) (k : A → Io B)
      → KeepsCatalog m
      → ((a : A) → KeepsCatalog (k a))
      → KeepsCatalog (m >>= k)
  KeepsCatalog-bind m k h g s = continue-SameCatalog s.disk (m s).1 k (m s).0 (h s) g

module _ {A : Type 0} where
  pub KeepsCatalog-pure : (a : A) → KeepsCatalog (pure a)
  KeepsCatalog-pure a s = SameCatalog-refl s.disk

  pub KeepsCatalog-lift : (m : Exec A) → KeepsCatalog (lift m)
  KeepsCatalog-lift m s = SameCatalog-refl s.disk

  pub KeepsCatalog-if :
      (b : Bool) (m k : Io A) → KeepsCatalog m → KeepsCatalog k → KeepsCatalog (if b then m else k)
  KeepsCatalog-if true m k h g = h
  KeepsCatalog-if false m k h g = g

pub get_num_pages-KeepsCatalog : KeepsCatalog get_num_pages
unfolding get_num_pages
get_num_pages-KeepsCatalog s = num_pages-KeepsDisk s.file s.disk

pub read_page-KeepsCatalog : (i : ℕ) → KeepsCatalog (read_page i)
unfolding read_page
read_page-KeepsCatalog i s = read_page-KeepsDisk s.file s.disk (i % 0x1_0000_0000)

pub write_page-KeepsCatalog : (page : Page) → KeepsCatalog (write_page page)
unfolding write_page
write_page-KeepsCatalog page s = write_page-KeepsDisk s.file s.disk page

pub new_page-KeepsCatalog : KeepsCatalog (on_file allocate_page)
new_page-KeepsCatalog s = allocate_page-KeepsDisk s.file s.disk
