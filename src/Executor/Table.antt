-- ===== src/Executor/Table.antt =====
-- A table file as its pages, under the reading and writing of src/executor/executor.cpp.
use microsql.Base.{
  ℕ, suc, ◌*◌, ◌%◌, ◌≤◌, ◌<◌, ◌≡◌, sym, ap, ◌∙◌, fun_ext, ◌≢◌, inl, inr, arith, ltb, if◌then◌else◌,
  Bool-cases, ok,
}
use microsql.Storage.Page.{Page, page_size}
use microsql.Storage.Page.Slots.{IsValid}
use microsql.Storage.TableFile
use microsql.Storage.TableFile.{TableFile, FileResult, contents}
use microsql.Storage.TableFile.Pages.{IsUsable, page_in, read_page-page_in, num_pages-size}
use microsql.Executor.Error.{Exec}
use microsql.Executor.Slots.{internal}
use microsql.Executor.Session.{Session, get_num_pages, read_page}
use microsql.Executor.Session.{write_page}
use microsql.Storage.TableFile.{overwrite, page_bytes}
use microsql.Storage.TableFile.Pages.{
  page_with, written, write_page-written, contents-written, overwrite-inside, overwrite-outside,
}

-- The table's file is open and whole pages long.
pub record IsTable (n : ℕ) (s : Session) : Type 0 where
  pub usable : IsUsable s.file s.disk
  pub size : (contents s.file s.disk).size ≡ n * page_size
  pub bound : n < 0x1_0000_0000

abbrev pub table_page : Session → ℕ → Page
table_page s i = page_in s.file s.disk i

-- Every page of the table from `i` on is sound.
abbrev pub AreSound : ℕ → ℕ → Session → Type 0
AreSound n i s = (j : ℕ) → i ≤ j → j < n → IsValid (table_page s j)

abbrev pub from_file : {A : Type 0} → FileResult A → Session × Exec A
from_file ((t, disk), r) = (record { file = t; disk = disk }, internal r)

pub read_page-table_page :
    (n : ℕ) (s : Session) (i : ℕ) → IsTable n s → i < n → read_page i s ≡ (s, ok (table_page s i))
unfolding read_page
read_page-table_page n s i t h =
    let small : i % 0x1_0000_0000 ≡ i = omega (arith, t.bound) in
    ap (λ k. from_file (TableFile.read_page s.file s.disk k)) small
    ∙ ap from_file (read_page-page_in s.file s.disk i t.usable (omega (arith, t.size)))

pub get_num_pages-table : (n : ℕ) (s : Session) → IsTable n s → get_num_pages s ≡ (s, ok n)
unfolding get_num_pages
get_num_pages-table n s t = ap from_file (num_pages-size s.file s.disk n t.usable t.size)

-- The table after a page was written.
abbrev pub put : Page → Session → Session
put q s = record s { disk = written s.file s.disk (q.page_id * page_size) q.bytes }

pub write_page-put :
    (n : ℕ) (s : Session) (q : Page) → IsTable n s → write_page q s ≡ (put q s, ok tt)
unfolding write_page
write_page-put n s q t = ap from_file (write_page-written s.file s.disk q t.usable)

put_size :
    (n : ℕ) (s : Session) (q : Page)
    → IsTable n s
    → q.page_id < n
    → (overwrite (contents s.file s.disk) (q.page_id * page_size) q.bytes).size ≡ n * page_size
put_size n s q t h = ground (arith, t.size)

pub put-IsTable :
    (n : ℕ) (s : Session) (q : Page) → IsTable n s → q.page_id < n → IsTable n (put q s)
put-IsTable n s q t h = record {
  usable = record { opened = t.usable.opened; sound = t.usable.sound; device = t.usable.device };
  size =
      ap (λ f. f.size) (contents-written s.file s.disk (q.page_id * page_size) q.bytes)
      ∙ put_size n s q t h;
  bound = t.bound;
}

-- A page that is written right behind the table.
pub put_new-IsTable :
    (n : ℕ) (s : Session) (q : Page)
    → IsTable n s
    → q.page_id ≡ n
    → suc n < 0x1_0000_0000
    → IsTable (suc n) (put q s)
put_new-IsTable n s q t id small =
    let grown : (overwrite (contents s.file s.disk) (q.page_id * page_size) q.bytes).size
        ≡ suc n * page_size =
      ground (arith, t.size, id) in
    record {
      usable = record {
        opened = t.usable.opened;
        sound = t.usable.sound;
        device = t.usable.device;
      };
      size =
          ap (λ f. f.size) (contents-written s.file s.disk (q.page_id * page_size) q.bytes) ∙ grown;
      bound = small;
    }

inside_page :
    (q : Page) (a : ℕ)
    → ((b : ℕ) → page_size ≤ b → q.bytes b ≡ 0)
    → (if ltb a page_size then q.bytes a else 0) ≡ q.bytes a
inside_page q a h = elim (Bool-cases (ltb a page_size)) [
  | inl e ↦ rw e
  | inr e ↦ rw e (sym (h a (ground arith)))
]

-- A page that is written is there, if there is nothing behind its 4096 bytes.
pub table_page-put :
    (s : Session) (q : Page)
    → ((a : ℕ) → page_size ≤ a → q.bytes a ≡ 0)
    → table_page (put q s) q.page_id ≡ q
table_page-put s q h =
    let start = q.page_id * page_size in
    ap (λ f. page_with q.page_id (page_bytes f start))
      (contents-written s.file s.disk start q.bytes)
    ∙ ap (page_with q.page_id)
        (fun_ext λ a. overwrite-inside (contents s.file s.disk) start q.bytes a ∙ inside_page q a h)

pub table_page-put_other :
    (s : Session) (q : Page) (j : ℕ) → q.page_id ≢ j → table_page (put q s) j ≡ table_page s j
table_page-put_other s q j h =
    ap (λ f. page_with j (page_bytes f (j * page_size)))
      (contents-written s.file s.disk (q.page_id * page_size) q.bytes)
    ∙ ap (page_with j)
        (fun_ext λ a. overwrite-outside (contents s.file s.disk) q.page_id j q.bytes a h)

-- There is nothing behind the bytes of a page of the table.
pub table_page-outside : (s : Session) (j a : ℕ) → page_size ≤ a → (table_page s j).bytes a ≡ 0
table_page-outside s j a h = ground arith
