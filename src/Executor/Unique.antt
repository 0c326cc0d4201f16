-- ===== src/Executor/Unique.antt =====
-- primaryKeyExists over the pages of a table, in src/executor/executor.cpp.
pub mod Tests
use microsql.Base.{
  ℕ, zero, suc, ◌+◌, ◌-◌, ◌*◌, ◌/◌, ◌%◌, ◌^◌, ◌≤◌, ◌<◌, ◌≡◌, refl, sym, ap, ◌∙◌, fun_ext, ◌≢◌, ◌↔◌,
  ◌⊎◌, inl, inr, Bool, true, false, not, ◌&&◌, ◌||◌, Option, none, some, List, [], ◌∷◌, ◌++◌, map,
  arith, ltb, leb, ◌==◌, if◌then◌else◌, ltb→lt, lt→ltb, le→ltb, ltb_false→le, leb_false→lt, leb→le,
  le→leb, ==_iff, ==_refl, Bool-cases, Option-cases, length, get_elem?, get_or, set, take, drop,
  replicate, length-append, length-take, length-replicate, take_all, get_elem?-append_left, Fault,
  bad_variant_access, invalid_argument, out_of_range, undefined, out_of_fuel, Outcome, ok, err,
  fault, Text, codes, text_eq, text_eq_refl, text_eq→eq, to_string,
}
use mathlib.Core.Path.{subst}
use microsql.Ast.Statement.{ColumnDefinition}
use microsql.Storage.Page.{Page, page_size, num_slots}
use microsql.Storage.Page.Slots.{IsLive}
use microsql.Storage.TableFile
use microsql.Storage.TableFile.{TableFile, FileResult, contents}
use microsql.Storage.TableFile.Pages.{IsUsable, page_in, read_page-page_in, num_pages-size}
use microsql.Storage.Row.{Value, Row}
use microsql.Executor.Error.{Exec, primary_key_violation}
use microsql.Executor.Values.{Double}
use microsql.Executor.Slots.{internal, key_in_slots, primary_key_index}
use microsql.Executor.Eval.{or_undefined}
use microsql.Executor.Insert.{check_primary_key}
use microsql.Executor.Session.{Session, Io, pure, lift, continue, ◌>>=◌, get_num_pages, read_page}
use microsql.Executor.Scan.{key_page, key_in_pages, primary_key_exists}
use microsql.Executor.Key.{KeyAt, key_in_slots-KeyAt}
use microsql.Executor.Table.{IsTable, table_page, read_page-table_page, get_num_pages-table}

module _ (d : Double) (columns : List ColumnDefinition) (pk : ℕ) (value : Value) where
  not_found :
      (r : Exec Bool) (m : Io Bool) (s s' : Session)
      → continue r (λ found. if found then pure true else m) s ≡ (s', ok false)
      → (r ≡ ok false) × (m s ≡ (s', ok false))
  not_found (ok true) m s s' h = cc
  not_found (ok false) m s s' h = (refl, h)
  not_found (err e) m s s' h = cc
  not_found (fault u) m s s' h = cc

  key_page-table_page :
      (n : ℕ) (s : Session) (i : ℕ)
      → IsTable n s
      → i < n
      → key_page d columns pk value none i s ≡ (s, ok (table_page s i, none))
  unfolding key_page
  key_page-table_page n s i t h =
      ap (λ r. continue r.1 (λ page. pure (page, none)) r.0) (read_page-table_page n s i t h)

  key_in_pages-from :
      (n : ℕ) (s s' : Session) (left i : ℕ)
      → IsTable n s
      → i + left ≡ n
      → key_in_pages d columns pk value none left i s ≡ (s', ok false)
      → (k : ℕ) → i ≤ k
      → k < n
      → (j : ℕ) → IsLive (table_page s k) j
      → KeyAt d columns pk value (table_page s k) none j false
  unfolding key_in_pages
  key_in_pages-from n s s' zero i t e run k h h' j live = absurd (omega arith)
  key_in_pages-from n s s' (suc left) i t e run k h h' j live =
      let page = table_page s i in
      let opened : key_in_pages d columns pk value none (suc left) i s
          ≡ continue (key_in_slots d columns pk value page none (num_slots page) 0)
              (λ found.
                if found then pure true else key_in_pages d columns pk value none left (i + 1))
              s =
        rw (key_page-table_page n s i t (omega arith), key_in_pages) in
      let (none_here, later) =
        not_found (key_in_slots d columns pk value page none (num_slots page) 0)
          (key_in_pages d columns pk value none left (i + 1)) s s' (sym opened ∙ run) in
      elim (Bool-cases (k == i)) [
        | inr beyond ↦
            key_in_pages-from n s s' left (i + 1) t (omega arith) later k (ground arith) h' j live
        | inl same ↦
            subst
              (λ k.
                IsLive (table_page s k) j → KeyAt d columns pk value (table_page s k) none j false)
              (sym ((==_iff k i).0 same))
              (λ l. key_in_slots-KeyAt d columns pk value page none none_here j l refl) live
      ]

  -- Where no page is found to hold the value, no row of the table does.
  pub primary_key_exists-KeyAt :
      (n : ℕ) (s s' : Session)
      → IsTable n s
      → primary_key_exists d columns pk value none s ≡ (s', ok false)
      → (k : ℕ) → 1 ≤ k
      → k < n
      → (j : ℕ) → IsLive (table_page s k) j
      → KeyAt d columns pk value (table_page s k) none j false
  unfolding primary_key_exists
  primary_key_exists-KeyAt n s s' t run k h h' j live =
      let opened : primary_key_exists d columns pk value none s
          ≡ key_in_pages d columns pk value none (n - 1) 1 s =
        ap (λ r. continue r.1 (λ pages. key_in_pages d columns pk value none (pages - 1) 1) r.0)
          (get_num_pages-table n s t) in
      key_in_pages-from n s s' (n - 1) 1 t (omega arith) (sym opened ∙ run) k h h' j live

key_absent :
    (r : Session × Exec Bool) (s' : Session)
    → continue r.1 (λ exists. if exists then lift (err primary_key_violation) else pure tt) r.0
      ≡ (s', ok tt)
    → r ≡ (r.0, ok false)
key_absent (s, ok true) s' h = cc
key_absent (s, ok false) s' h = refl
key_absent (s, err e) s' h = cc
key_absent (s, fault u) s' h = cc

-- On a device that takes writes and a table file of n whole pages, open on a stream that has not
-- failed, with n below 2^32, where the primary key check of execInsert lets a row pass, every row
-- of every page of data has in the key column a value that differs from the new one.
pub check_primary_key-KeyAt :
    (d : Double) (row : Row) (columns : List ColumnDefinition) (pk n : ℕ) (s s' : Session)
    → IsTable n s
    → primary_key_index columns ≡ some pk
    → check_primary_key d row columns s ≡ (s', ok tt)
    → (value : Value) × (get_elem? row pk ≡ some value)
      × ((k : ℕ)
          → 1 ≤ k
          → k < n
          → (j : ℕ) → IsLive (table_page s k) j
          → KeyAt d columns pk value (table_page s k) none j false)
unfolding check_primary_key
check_primary_key-KeyAt d row columns pk n s s' t h run = elim (Option-cases (get_elem? row pk)) [
  | inl missing ↦
      let refused : check_primary_key d row columns s ≡ (s, fault undefined) =
        rw (h, missing, check_primary_key, or_undefined) in
      let never = sym refused ∙ run in cc
  | inr (value, found) ↦
      let checks : check_primary_key d row columns s
          ≡ continue (primary_key_exists d columns pk value none s).1
              (λ exists. if exists then lift (err primary_key_violation) else pure tt)
              (primary_key_exists d columns pk value none s).0 =
        rw (h, found, check_primary_key) in
      let absent =
        key_absent (primary_key_exists d columns pk value none s) s' (sym checks ∙ run) in
      (
        value,
        found,
        primary_key_exists-KeyAt d columns pk value n s
            (primary_key_exists d columns pk value none s).0 t absent,
      )
]
