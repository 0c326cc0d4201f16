-- ===== src/Storage/TableFile/Tests.antt =====
-- The theorems on table files at a disk with one file.
use microsql.Base.{
  ℕ, ◌+◌, ◌*◌, ◌%◌, ◌≤◌, ◌<◌, ◌≡◌, refl, ◌≢◌, true, false, none, [], ◌∷◌, arith, ltb, if◌then◌else◌,
  ok, codes,
}
use microsql.Storage.Page.{Page, page_size}
use microsql.Storage.TableFile.{
  Disk, TableFile, FileData, contents, read_page, write_page, num_pages, allocate_page, lookup,
}
use microsql.Storage.TableFile.Pages.{
  IsUsable, page_with, blank_page, read_page-write_page, allocate_page-read_page,
}

abbrev two_pages : FileData
two_pages = record { bytes = λ a. a % 256; size = 2 * page_size }

abbrev disk : Disk
disk = record { files = (codes "t.ms", two_pages) ∷ []; catalog = none; writable = true }

abbrev file : TableFile
file = record { file_path = codes "t.ms"; is_open = true; failed = false }

abbrev page : Page
page = record { bytes = λ a. 7; page_id = 1 }

file-IsUsable : IsUsable file disk
file-IsUsable = record { opened = refl; sound = refl; device = refl }

read_page-write_page_example :
    (disk' : Disk) × (write_page file disk page ≡ ((file, disk'), ok tt))
    × (read_page file disk' 1 ≡ (
      (file, disk'),
      ok (record { bytes = λ a. if ltb a page_size then 7 else 0; page_id = 1 }),
    ))
    × ((j : ℕ)
        → 1 ≢ j
        → j * page_size + page_size ≤ (contents file disk).size
        → (read_page file disk' j).1 ≡ (read_page file disk j).1)
read_page-write_page_example = read_page-write_page file disk page file-IsUsable

disk_size : (contents file disk).size ≡ 2 * page_size
unfolding contents lookup
disk_size = refl

allocate_page-read_page_example :
    (disk' : Disk) × (allocate_page file disk ≡ ((file, disk'), ok 2))
    × IsUsable file disk'
    × (num_pages file disk' ≡ ((file, disk'), ok 3))
    × (read_page file disk' 2 ≡ (
      (file, disk'),
      ok (page_with 2 (λ a. if ltb a page_size then (blank_page 2).bytes a else 0)),
    ))
    × ((j : ℕ) → j < 2 → (read_page file disk' j).1 ≡ (read_page file disk j).1)
allocate_page-read_page_example =
    allocate_page-read_page file disk 2 file-IsUsable disk_size (omega arith)
