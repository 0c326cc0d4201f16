-- ===== src/Storage/TableFile/Pages.antt =====
-- readPage, writePage and allocatePage of src/storage/page.cpp together: a page written is the page
-- read, and the pages beside it stay.
use microsql.Base.{
  ℕ, suc, ◌+◌, ◌-◌, ◌*◌, ◌/◌, ◌%◌, ◌≤◌, ◌<◌, ◌≡◌, sym, ap, ◌∙◌, fun_ext, ◌≢◌, true, false, not,
  arith, ltb, if◌then◌else◌, le→ltb, ok, err, ◌>>=◌,
}
use microsql.Base.Memory.{Memory}
use microsql.Storage.Page.{Page, page_size, init}
use microsql.Storage.TableFile.{
  Disk, TableFile, FileData, FileResult, insert, contents, page_bytes, overwrite, read_page,
  write_page, put_page, num_pages, append_page, allocate_page, file_not_open,
}
use microsql.Storage.TableFile.Map.{lookup-insert}

-- A stream that the next operation can use, on a device that takes writes.
pub record IsUsable (t : TableFile) (disk : Disk) : Type 0 where
  pub opened : t.is_open ≡ true
  pub sound : t.failed ≡ false
  pub device : disk.writable ≡ true

-- The disk after a write of `m` at `start`.
abbrev pub written : TableFile → Disk → ℕ → Memory → Disk
written t disk start m = record disk {
  files = insert t.file_path (overwrite (contents t disk) start m) disk.files;
}

pub contents-written :
    (t : TableFile) (disk : Disk) (start : ℕ) (m : Memory)
    → contents t (written t disk start m) ≡ overwrite (contents t disk) start m
unfolding contents
contents-written t disk start m =
    rw (lookup-insert t.file_path (overwrite (contents t disk) start m) disk.files, contents)

pub write_page-written :
    (t : TableFile) (disk : Disk) (page : Page)
    → IsUsable t disk
    → write_page t disk page ≡ ((t, written t disk (page.page_id * page_size) page.bytes), ok tt)
unfolding write_page put_page
write_page-written t disk page u = rw (u.opened, u.sound, u.device)

-- What a read of a page inside the file gives.
abbrev pub page_in : TableFile → Disk → ℕ → Page
page_in t disk i = record { bytes = page_bytes (contents t disk) (i * page_size); page_id = i }

pub read_page-page_in :
    (t : TableFile) (disk : Disk) (i : ℕ)
    → IsUsable t disk
    → i * page_size + page_size ≤ (contents t disk).size
    → read_page t disk i ≡ ((t, disk), ok (page_in t disk i))
unfolding read_page
read_page-page_in t disk i u h =
    rw (u.opened, u.sound, le→ltb (contents t disk).size (i * page_size + page_size) h)

pub overwrite-inside :
    (f : FileData) (start : ℕ) (m : Memory) (a : ℕ)
    → page_bytes (overwrite f start m) start a ≡ (if ltb a page_size then m a else 0)
overwrite-inside f start m a = ground arith

pub overwrite-outside :
    (f : FileData) (i j : ℕ) (m : Memory) (a : ℕ)
    → i ≢ j
    → page_bytes (overwrite f (i * page_size) m) (j * page_size) a ≡ page_bytes f (j * page_size) a
overwrite-outside f i j m a h = ground arith

pub size-overwrite :
    (f : FileData) (start : ℕ) (m : Memory)
    → (start + page_size ≤ (overwrite f start m).size) × (f.size ≤ (overwrite f start m).size)
size-overwrite f start m = (ground arith, ground arith)

abbrev pub page_with : ℕ → Memory → Page
page_with i m = record { bytes = m; page_id = i }

-- A page beside the one that is written.
read_page-beside :
    (t : TableFile) (disk : Disk) (i j : ℕ) (m : Memory)
    → IsUsable t disk
    → i ≢ j
    → j * page_size + page_size ≤ (contents t disk).size
    → (read_page t (written t disk (i * page_size) m) j).1 ≡ (read_page t disk j).1
read_page-beside t disk i j m u other inside =
    let disk' = written t disk (i * page_size) m in
    let u' : IsUsable t disk' = record { opened = u.opened; sound = u.sound; device = u.device } in
    let c = contents-written t disk (i * page_size) m in
    let (reaches, keeps) = size-overwrite (contents t disk) (i * page_size) m in
    let grown = ap (λ g. g.size) (sym c) in
    ap (λ r. r.1) (read_page-page_in t disk' j u' (omega (arith, grown, keeps)))
    ∙ ap (λ b. ok (page_with j b))
        (ap (λ g. page_bytes g (j * page_size)) c
          ∙ fun_ext (λ a. overwrite-outside (contents t disk) i j m a other))
    ∙ ap (λ r. r.1) (sym (read_page-page_in t disk j u inside))

-- On an open stream that has not failed and a device that takes writes, writePage succeeds,
-- readPage of the page's id then gives its 4096 bytes and its id, and every other page inside the
-- file reads as before.
pub read_page-write_page :
    (t : TableFile) (disk : Disk) (page : Page)
    → IsUsable t disk
    → (disk' : Disk) × (write_page t disk page ≡ ((t, disk'), ok tt))
      × (read_page t disk' page.page_id ≡ (
        (t, disk'),
        ok (record {
          bytes = λ a. if ltb a page_size then page.bytes a else 0;
          page_id = page.page_id;
        }),
      ))
      × ((j : ℕ)
          → page.page_id ≢ j
          → j * page_size + page_size ≤ (contents t disk).size
          → (read_page t disk' j).1 ≡ (read_page t disk j).1)
read_page-write_page t disk page u =
    let start = page.page_id * page_size in
    let disk' = written t disk start page.bytes in
    let u' : IsUsable t disk' = record { opened = u.opened; sound = u.sound; device = u.device } in
    let c = contents-written t disk start page.bytes in
    let f = contents t disk in
    let (reaches, keeps) = size-overwrite f start page.bytes in
    let grown : (overwrite f start page.bytes).size ≡ (contents t disk').size =
      ap (λ g. g.size) (sym c) in
    (
      disk',
      write_page-written t disk page u,
      read_page-page_in t disk' page.page_id u' (omega (arith, grown, reaches))
          ∙ ap (λ m. ((t, disk'), ok (page_with page.page_id m)))
              (ap (λ g. page_bytes g start) c ∙ fun_ext (overwrite-inside f start page.bytes)),
      λ j other inside. read_page-beside t disk page.page_id j page.bytes u other inside,
    )

pub num_pages-size :
    (t : TableFile) (disk : Disk) (n : ℕ)
    → IsUsable t disk
    → (contents t disk).size ≡ n * page_size
    → num_pages t disk ≡ ((t, disk), ok n)
unfolding num_pages
num_pages-size t disk n u h =
    let e : ((contents t disk).size + page_size - 1) / page_size ≡ n = omega arith in
    ap
      (λ b. if not b then ((t, disk), err file_not_open) else (
        (record t { failed = false }, disk),
        ok (((contents t disk).size + page_size - 1) / page_size),
      ))
      u.opened
    ∙ ap (λ k. ((record t { failed = false }, disk), ok k)) e
    ∙ ap (λ b. ((record t { failed = b }, disk), ok n)) (sym u.sound)

put_page-written :
    (t : TableFile) (disk : Disk) (start : ℕ) (m : Memory)
    → IsUsable t disk
    → put_page t disk start m ≡ ((t, written t disk start m), ok tt)
unfolding put_page
put_page-written t disk start m u = rw u.device

abbrev pub blank_page : ℕ → Page
blank_page n = init (record { bytes = λ a. 0; page_id = 0 }) n

abbrev numbered : FileResult (Unit {0}) → ℕ → FileResult ℕ
numbered (after, r) i = (after, (r >>= λ _. ok i))

pub allocate_page-written :
    (t : TableFile) (disk : Disk) (n : ℕ)
    → IsUsable t disk
    → (contents t disk).size ≡ n * page_size
    → n < 0x1_0000_0000
    → allocate_page t disk ≡ ((t, written t disk (n * page_size) (blank_page n).bytes), ok n)
unfolding allocate_page append_page
allocate_page-written t disk n u h bound =
    let small : n % 0x1_0000_0000 ≡ n = omega arith in
    let end = (contents t disk).size in
    ap append_page (num_pages-size t disk n u h)
    ∙ ap (λ i. numbered (put_page t disk end (blank_page i).bytes) i) small
    ∙ ap (λ a. numbered (put_page t disk a (blank_page n).bytes) n) h
    ∙ ap (λ r. numbered r n) (put_page-written t disk (n * page_size) (blank_page n).bytes u)

-- On an open stream that has not failed, a device that takes writes and a file of n whole pages
-- with n below 2^32, allocatePage returns n and leaves the stream usable, numPages then gives n +
-- 1, page n reads as a page freshly initialised with id n, and the pages below it read as before.
pub allocate_page-read_page :
    (t : TableFile) (disk : Disk) (n : ℕ)
    → IsUsable t disk
    → (contents t disk).size ≡ n * page_size
    → n < 0x1_0000_0000
    → (disk' : Disk) × (allocate_page t disk ≡ ((t, disk'), ok n))
      × IsUsable t disk'
      × (num_pages t disk' ≡ ((t, disk'), ok (suc n)))
      × (read_page t disk' n ≡ (
        (t, disk'),
        ok (page_with n (λ a. if ltb a page_size then (blank_page n).bytes a else 0)),
      ))
      × ((j : ℕ) → j < n → (read_page t disk' j).1 ≡ (read_page t disk j).1)
allocate_page-read_page t disk n u h bound =
    let m = (blank_page n).bytes in
    let start = n * page_size in
    let disk' = written t disk start m in
    let u' : IsUsable t disk' = record { opened = u.opened; sound = u.sound; device = u.device } in
    let c = contents-written t disk start m in
    let f = contents t disk in
    let (reaches, keeps) = size-overwrite f start m in
    let grown : (overwrite f start m).size ≡ (contents t disk').size = ap (λ g. g.size) (sym c) in
    let whole : (overwrite f start m).size ≡ suc n * page_size = ground arith in
    (
      disk',
      allocate_page-written t disk n u h bound,
      u',
      num_pages-size t disk' (suc n) u' (omega (arith, grown, whole)),
      read_page-page_in t disk' n u' (omega (arith, grown, whole))
          ∙ ap (λ b. ((t, disk'), ok (page_with n b)))
              (ap (λ g. page_bytes g start) c ∙ fun_ext (overwrite-inside f start m)),
      λ j low. read_page-beside t disk n j m u (omega arith) (omega (arith, h)),
    )
