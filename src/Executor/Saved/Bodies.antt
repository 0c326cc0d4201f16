-- ===== src/Executor/Saved/Bodies.antt =====
-- The saved catalog under execSelect and execInsert of src/executor/executor.cpp.
use microsql.Base.{
  ℕ, zero, suc, ◌+◌, ◌-◌, ◌%◌, inl, inr, true, false, Option, none, some, List, [], leb, ◌==◌,
  if◌then◌else◌, Option-cases, length, get_elem?, err, Text,
}
use microsql.Ast.Statement.{Statement, ColumnDefinition}
use microsql.Ast.Expression.{Expression}
use microsql.Storage.Page.{Page, insert_row, free_space, slot_entry_size}
use microsql.Storage.Row.{Value, Row}
use microsql.Storage.TableFile.{allocate_page}
use microsql.Executor.Error.{Exec, primary_key_violation}
use microsql.Executor.Values.{Double}
use microsql.Executor.Eval.{or_undefined}
use microsql.Executor.Slots.{primary_key_index}
use microsql.Executor.Session.{Io, pure, lift, ◌>>=◌, on_file, get_num_pages, read_page, write_page}
use microsql.Executor.Scan.{
  result_columns, select_pages, select_body, key_page, key_in_pages, primary_key_exists,
}
use microsql.Executor.Insert.{
  insert_row_into_page, insert_into_pages, insert_bytes, check_count, check_primary_key,
  insert_body,
}
use microsql.Executor.Saved.{
  KeepsCatalog, KeepsCatalog-bind, KeepsCatalog-pure, KeepsCatalog-lift, KeepsCatalog-if,
  get_num_pages-KeepsCatalog, read_page-KeepsCatalog, write_page-KeepsCatalog,
  new_page-KeepsCatalog,
}

-- What runs behind a result that is at hand, and behind a page that is read.
pub after_lift :
    {A B : Type 0} (m : Exec A) (k : A → Io B)
    → ((a : A) → KeepsCatalog (k a))
    → KeepsCatalog (λ s. (lift m >>= k) s)
after_lift m k h = KeepsCatalog-bind (lift m) k (KeepsCatalog-lift m) h

pub after_read :
    {B : Type 0} (i : ℕ) (k : Page → Io B)
    → ((page : Page) → KeepsCatalog (k page))
    → KeepsCatalog (λ s. (read_page i >>= k) s)
after_read i k h = KeepsCatalog-bind (read_page i) k (read_page-KeepsCatalog i) h

pub after_pages :
    {B : Type 0} (k : ℕ → Io B)
    → ((n : ℕ) → KeepsCatalog (k n))
    → KeepsCatalog (λ s. (get_num_pages >>= k) s)
after_pages k h = KeepsCatalog-bind get_num_pages k get_num_pages-KeepsCatalog h

pub after_write :
    {B : Type 0} (page : Page) (k : Unit {0} → Io B)
    → KeepsCatalog (k tt)
    → KeepsCatalog (λ s. (write_page page >>= k) s)
after_write page k h = KeepsCatalog-bind (write_page page) k (write_page-KeepsCatalog page) (λ u. h)

module _ (d : Double) (expressions : List Expression) (where_index : Option ℕ)
    (columns : List ColumnDefinition) (names : List Text) where
  select_pages-KeepsCatalog :
      (left i : ℕ) (rows : List Row)
      → KeepsCatalog (select_pages d expressions where_index columns names left i rows)
  unfolding select_pages
  select_pages-KeepsCatalog zero i rows = KeepsCatalog-pure rows
  select_pages-KeepsCatalog (suc left) i rows =
      after_read i _ λ page. after_lift _ _ λ rows'. select_pages-KeepsCatalog left (i + 1) rows'

pub select_body-KeepsCatalog :
    (d : Double) (expressions : List Expression) (s : Statement) (columns : List ColumnDefinition)
    → KeepsCatalog (select_body d expressions s columns)
unfolding select_body
select_body-KeepsCatalog d expressions s columns =
    after_lift (result_columns expressions s.select_columns columns) _ λ names.
      after_pages _ λ pages.
        KeepsCatalog-bind (select_pages d expressions s.where_index columns names (pages - 1) 1 [])
          _ (select_pages-KeepsCatalog d expressions s.where_index columns names (pages - 1) 1 [])
          λ rows. KeepsCatalog-pure {A = List Text × List Row} (names, rows)

module _ (d : Double) (columns : List ColumnDefinition) (pk : ℕ) (value : Value)
    (current : Option (Page × ℕ × ℕ)) where
  key_page-KeepsCatalog : (i : ℕ) → KeepsCatalog (key_page d columns pk value current i)
  unfolding key_page
  key_page-KeepsCatalog i = elim (Option-cases current) [
    | inl none_here ↦
        rw (none_here, key_page)
          (after_read i _ λ page. KeepsCatalog-pure {A = Page × Option ℕ} (page, none))
    | inr ((page, at, slot), here) ↦
        rw (here, key_page)
          (KeepsCatalog-if (i == at) _ _ (KeepsCatalog-pure {A = Page × Option ℕ} (page, some slot))
            (after_read i _ λ page. KeepsCatalog-pure {A = Page × Option ℕ} (page, none)))
  ]

  key_in_pages-KeepsCatalog :
      (left i : ℕ) → KeepsCatalog (key_in_pages d columns pk value current left i)
  unfolding key_in_pages
  key_in_pages-KeepsCatalog zero i = KeepsCatalog-pure false
  key_in_pages-KeepsCatalog (suc left) i =
      KeepsCatalog-bind (key_page d columns pk value current i) _ (key_page-KeepsCatalog i)
        λ (page, skip). after_lift _ _ λ found.
          KeepsCatalog-if found _ _ (KeepsCatalog-pure true)
            (key_in_pages-KeepsCatalog left (i + 1))

  primary_key_exists-KeepsCatalog : KeepsCatalog (primary_key_exists d columns pk value current)
  unfolding primary_key_exists
  primary_key_exists-KeepsCatalog = after_pages _ λ pages. key_in_pages-KeepsCatalog (pages - 1) 1

-- The check of a key, in execInsert and in execUpdate.
pub check_key-KeepsCatalog :
    (d : Double) (columns : List ColumnDefinition) (pk : ℕ) (current : Option (Page × ℕ × ℕ))
    (row : Row)
    → KeepsCatalog (λ s.
      (lift (or_undefined (get_elem? row pk)) >>= λ value.
      primary_key_exists d columns pk value current >>= λ exists.
      if exists then lift (err primary_key_violation) else pure tt)
        s)
check_key-KeepsCatalog d columns pk current row = after_lift _ _ λ value.
    KeepsCatalog-bind (primary_key_exists d columns pk value current) _
      (primary_key_exists-KeepsCatalog d columns pk value current)
      λ exists.
        KeepsCatalog-if exists _ _ (KeepsCatalog-lift {A = Unit {0}} (err primary_key_violation))
          (KeepsCatalog-pure tt)

insert_row_into_page-KeepsCatalog :
    (page : Page) (bytes : List ℕ) (len : ℕ) → KeepsCatalog (insert_row_into_page page bytes len)
unfolding insert_row_into_page
insert_row_into_page-KeepsCatalog page bytes len =
    after_lift _ _ λ u. write_page-KeepsCatalog (insert_row page bytes len).0

insert_into_pages-KeepsCatalog :
    (bytes : List ℕ) (len left i : ℕ) → KeepsCatalog (insert_into_pages bytes len left i)
unfolding insert_into_pages
insert_into_pages-KeepsCatalog bytes len zero i = KeepsCatalog-pure false
insert_into_pages-KeepsCatalog bytes len (suc left) i = after_read i _ λ page.
    KeepsCatalog-if (leb (len + slot_entry_size) (free_space page)) _ _
      (KeepsCatalog-bind (insert_row_into_page page bytes len) _
        (insert_row_into_page-KeepsCatalog page bytes len) λ u. KeepsCatalog-pure true)
      (insert_into_pages-KeepsCatalog bytes len left (i + 1))

insert_bytes-KeepsCatalog : (bytes : List ℕ) → KeepsCatalog (insert_bytes bytes)
unfolding insert_bytes
insert_bytes-KeepsCatalog bytes = after_pages _ λ pages.
    KeepsCatalog-bind (insert_into_pages bytes (length bytes % 0x1_0000) (pages - 1) 1) _
      (insert_into_pages-KeepsCatalog bytes (length bytes % 0x1_0000) (pages - 1) 1)
      λ inserted. KeepsCatalog-if inserted _ _ (KeepsCatalog-pure tt) (
        KeepsCatalog-bind (on_file allocate_page) _ new_page-KeepsCatalog λ id.
          after_read id _
            λ page. insert_row_into_page-KeepsCatalog page bytes (length bytes % 0x1_0000))

check_primary_key-KeepsCatalog :
    (d : Double) (row : Row) (columns : List ColumnDefinition)
    → KeepsCatalog (check_primary_key d row columns)
unfolding check_primary_key
check_primary_key-KeepsCatalog d row columns = elim (Option-cases (primary_key_index columns)) [
  | inl no_key ↦ rw (no_key, check_primary_key) (KeepsCatalog-pure tt)
  | inr (pk, key) ↦ rw (key, check_primary_key) (check_key-KeepsCatalog d columns pk none row)
]

pub insert_body-KeepsCatalog :
    (d : Double) (expressions : List Expression) (s : Statement) (columns : List ColumnDefinition)
    → KeepsCatalog (insert_body d expressions s columns)
unfolding insert_body
insert_body-KeepsCatalog d expressions s columns = after_lift _ _ λ row.
    after_lift (check_count s row columns) _ λ u.
      KeepsCatalog-bind (check_primary_key d row columns) _
        (check_primary_key-KeepsCatalog d row columns)
        λ u. after_lift _ _ λ bytes. insert_bytes-KeepsCatalog bytes
