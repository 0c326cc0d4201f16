-- ===== src/Storage/TableFile.antt =====
-- TableFile of src/storage/page.h and src/storage/page.cpp, over a disk of named files.
-- The disk is the operating system's: a file is its bytes and its size, and `writable` says whether
-- the device takes writes. Of the stream the model keeps whether it is open and its fail bit: a read
-- past the end sets that bit, a seek leaves it, and only `clear` takes it away.
pub mod Map
pub mod Pages
pub mod Tests
use microsql.Base.{
  ℕ, zero, suc, ◌+◌, ◌-◌, ◌*◌, ◌/◌, ◌%◌, ◌^◌, ◌≤◌, ◌<◌, ◌≡◌, refl, sym, ap, ◌∙◌, fun_ext, ◌≢◌, ◌↔◌,
  ◌⊎◌, inl, inr, Bool, true, false, not, ◌&&◌, ◌||◌, Option, none, some, List, [], ◌∷◌, ◌++◌, map,
  arith, ltb, leb, ◌==◌, if◌then◌else◌, ltb→lt, lt→ltb, le→ltb, ltb_false→le, leb→le, le→leb,
  ==_iff, ==_refl, Bool-cases, length, get_elem?, get_or, set, take, drop, replicate, length-append,
  length-take, length-replicate, take_all, get_elem?-append_left, Fault, bad_variant_access,
  invalid_argument, out_of_range, undefined, out_of_fuel, Outcome, ok, err, fault, ◌>>=◌,
  bind-eq-ok, Text, codes, text_eq, text_eq_refl, text_eq→eq, to_string,
}
use microsql.Base.Memory.{Memory}
use microsql.Storage.Page.{Page, page_size, init}

pub data TableFileError : Type 0 where
  file_not_open failed_to_open_file failed_to_seek_page failed_to_read_page : TableFileError
  failed_to_write_page failed_to_get_file_size failed_to_create_file : TableFileError

pub record FileData : Type 0 where
  pub bytes : Memory
  pub size : ℕ

pub record Disk : Type 0 where
  pub files : List (Text × FileData)
  pub catalog : Option Text
  pub writable : Bool

module _ {A : Type 0} where
  unfoldable pub lookup : Text → List (Text × A) → Option A
  lookup k [] = none
  lookup k ((j, v) ∷ m) = if text_eq j k then some v else lookup k m

  unfoldable pub insert : Text → A → List (Text × A) → List (Text × A)
  insert k v [] = (k, v) ∷ []
  insert k v ((j, w) ∷ m) = if text_eq j k then (j, v) ∷ m else (j, w) ∷ insert k v m

  unfoldable pub remove : Text → List (Text × A) → List (Text × A)
  remove k [] = []
  remove k ((j, w) ∷ m) = let rest = remove k m in if text_eq j k then rest else (j, w) ∷ rest

abbrev pub empty_file : FileData
empty_file = record { bytes = λ a. 0; size = 0 }

pub record TableFile : Type 0 where
  pub file_path : Text
  pub is_open : Bool
  pub failed : Bool

-- A stream that is not open, as `new TableFile{}` has it.
abbrev pub closed_file : Text → TableFile
closed_file path = record { file_path = path; is_open = false; failed = false }

-- The stream and the disk after an operation, and its result.
abbrev pub FileResult : Type 0 → Type 0
FileResult A = (TableFile × Disk) × Outcome TableFileError A

-- create: `std::ofstream` makes the file, or empties one that is there.
unfoldable pub create : TableFile → Disk → FileResult (Unit {0})
unfolding insert
create t disk =
    if disk.writable
    then ((t, record disk { files = insert t.file_path empty_file disk.files }), ok tt)
    else ((t, disk), err failed_to_create_file)

-- A stream that is open already cannot be opened; opening one clears its earlier failure.
unfoldable pub open_file : TableFile → Text → Disk → FileResult (Unit {0})
unfolding lookup
open_file t path disk =
    if t.is_open
    then ((record t { file_path = path; failed = true }, disk), err failed_to_open_file)
    else elim (lookup path disk.files) [
      | none ↦ ((record t { file_path = path; failed = true }, disk), err failed_to_open_file)
      | some f ↦ ((record t { file_path = path; is_open = true; failed = false }, disk), ok tt)
    ]

unfoldable pub close : TableFile → TableFile
close t = if t.is_open then record t { is_open = false } else t

-- The file behind an open stream.
unfoldable pub contents : TableFile → Disk → FileData
unfolding lookup
contents t disk = elim (lookup t.file_path disk.files) [ none ↦ empty_file | some f ↦ f ]

-- The bytes of a page, read into zeroed memory.
abbrev pub page_bytes : FileData → ℕ → Memory
page_bytes f start a = if ltb a page_size then f.bytes (start + a) else 0

unfoldable pub read_page : TableFile → Disk → ℕ → FileResult Page
unfolding contents
read_page t disk page_id =
    let start = page_id * page_size in
    let f = contents t disk in
    if not t.is_open
    then ((t, disk), err file_not_open)
    else if t.failed
    then ((t, disk), err failed_to_seek_page)
    else if ltb f.size (start + page_size)
    then ((record t { failed = true }, disk), err failed_to_read_page)
    else ((t, disk), ok (record { bytes = page_bytes f start; page_id = page_id }))

-- A page's bytes over the file from `start` on.
abbrev pub overwrite : FileData → ℕ → Memory → FileData
overwrite f start m = record {
  bytes = λ a. if leb start a && ltb a (start + page_size) then m (a - start) else f.bytes a;
  size = if ltb f.size (start + page_size) then start + page_size else f.size;
}

-- The write and the flush behind it.
unfoldable pub put_page : TableFile → Disk → ℕ → Memory → FileResult (Unit {0})
unfolding contents insert
put_page t disk start m =
    if disk.writable
    then (
      (
        t,
        record disk { files = insert t.file_path (overwrite (contents t disk) start m) disk.files },
      ),
      ok tt,
    )
    else ((record t { failed = true }, disk), err failed_to_write_page)

unfoldable pub write_page : TableFile → Disk → Page → FileResult (Unit {0})
unfolding put_page
write_page t disk page =
    if not t.is_open
    then ((t, disk), err file_not_open)
    else if t.failed
    then ((t, disk), err failed_to_seek_page)
    else put_page t disk (page.page_id * page_size) page.bytes

unfoldable pub num_pages : TableFile → Disk → FileResult ℕ
unfolding contents
num_pages t disk = if not t.is_open then ((t, disk), err file_not_open) else (
  (record t { failed = false }, disk),
  ok (((contents t disk).size + page_size - 1) / page_size),
)

-- The new page goes behind the last byte of the file.
unfoldable pub append_page : FileResult ℕ → FileResult ℕ
unfolding put_page contents init
append_page ((t, disk), fault u) = ((t, disk), fault u)
append_page ((t, disk), err e) = ((t, disk), err e)
append_page ((t, disk), ok n) =
    let id = n % 0x1_0000_0000 in
    let page = init (record { bytes = λ a. 0; page_id = 0 }) id in
    let (after, written) = put_page t disk (contents t disk).size page.bytes in
    (after, (written >>= λ _. ok id))

unfoldable pub allocate_page : TableFile → Disk → FileResult ℕ
unfolding num_pages append_page
allocate_page t disk = append_page (num_pages t disk)
