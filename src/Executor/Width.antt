-- ===== src/Executor/Width.antt =====
-- How many values the rows of a SELECT have, in src/executor/executor.cpp.
use microsql.Base.{
  ℕ, zero, suc, ◌+◌, ◌-◌, ◌≡◌, refl, ap, inl, inr, Bool, true, false, Option, List, [], ◌∷◌, ◌++◌,
  arith, ◌==◌, if◌then◌else◌, Bool-cases, Option-cases, length, get_elem?, length-append, Outcome,
  ok, err, fault, OnOk, OnOk-bind, Text,
}
use mathlib.Core.Path.{subst}
use microsql.Base.Memory.{Memory}
use microsql.Ast.Statement.{Statement, ColumnDefinition}
use microsql.Ast.Expression.{Expression}
use microsql.Storage.Page.{Page, PageError, num_slots, slot_deleted, read_row}
use microsql.Storage.Row.{Value, Row, Schema, null, read_value, read_columns, deserialize_row}
use microsql.Executor.Error.{Exec, internal_error}
use microsql.Executor.Values.{Double}
use microsql.Executor.Slots.{internal, read_slot_row, selects, select_slot, select_slots}
use microsql.Executor.Session.{Session, Io, continue, get_num_pages, read_page}
use microsql.Executor.Scan.{
  column_name_of, selected_names, result_columns, select_pages, select_body,
}
use microsql.Catalog.{column_names}

-- Every row has n values.
unfoldable pub HaveLength : ℕ → List Row → Type 0
HaveLength n [] = Unit {0}
HaveLength n (row ∷ rows) = (length row ≡ n) × HaveLength n rows

HaveLength-snoc :
    (n : ℕ) (rows : List Row) (row : Row)
    → HaveLength n rows
    → length row ≡ n
    → HaveLength n (rows ++ row ∷ [])
unfolding HaveLength
HaveLength-snoc n [] row h e = (e, tt)
HaveLength-snoc n (x ∷ rows) row (k, h) e = (k, HaveLength-snoc n rows row h e)

read_columns-length :
    (m : Memory) (off : ℕ) (row : Row) (schema : Schema)
    → OnOk (λ r. length r ≡ length row + length schema) (read_columns m off row schema)
unfolding read_columns
read_columns-length m off row [] = omega arith
read_columns-length m off row (c ∷ schema) =
    let n = length row + length (c ∷ schema) in
    let next : (value : Value) → length (row ++ value ∷ []) + length schema ≡ n =
      λ value. omega (arith, length-append row (value ∷ [])) in
    let HasAll : ℕ → Row → Type 0 = λ k r. length r ≡ k in
    elim (Bool-cases (m off == 0)) [
      | inr e ↦
          rw (e, read_columns)
            (subst (λ k. OnOk (HasAll k) (read_columns m (off + 1) (row ++ null ∷ []) schema))
              (next null) (read_columns-length m (off + 1) (row ++ null ∷ []) schema))
      | inl e ↦
          rw (e, read_columns)
            (OnOk-bind (HasAll n) (read_value m (off + 1) c) _ λ (value, off') read.
              subst (λ k. OnOk (HasAll k) (read_columns m off' (row ++ value ∷ []) schema))
                (next value) (read_columns-length m off' (row ++ value ∷ []) schema))
    ]

OnOk-internal : {E A : Type 0} (P : A → Type 0) (r : Outcome E A) → OnOk P r → OnOk P (internal r)
OnOk-internal P (ok a) h = h
OnOk-internal P (err e) h = tt
OnOk-internal P (fault u) h = tt

OnOk-continue :
    {A B : Type 0} (Q : B → Type 0) (m : Exec A) (k : A → Io B) (s : Session)
    → ((a : A) → m ≡ ok a → OnOk Q (k a s).1)
    → OnOk Q (continue m k s).1
OnOk-continue Q (ok a) k s h = h a refl
OnOk-continue Q (err e) k s h = tt
OnOk-continue Q (fault u) k s h = tt

read_slot_row-length :
    (page : Page) (slot : ℕ) (columns : List ColumnDefinition)
    → OnOk (λ row. length row ≡ length columns) (read_slot_row page slot columns)
unfolding read_slot_row deserialize_row
read_slot_row-length page slot columns = go (read_row page slot)
  where
    go :
        (r : Outcome PageError (ℕ × ℕ))
        → OnOk
            (λ row. length row ≡ length columns)
            (elim r [
              | ok (offset, len) ↦ internal (deserialize_row (λ a. page.bytes (offset + a)) columns)
              | err e ↦ err internal_error
              | fault u ↦ fault u
            ])
    go (ok (offset, len)) =
        let m : Memory = λ a. page.bytes (offset + a) in
        let count : length {A = Value} [] + length columns ≡ length columns = omega arith in
        OnOk-internal (λ row. length row ≡ length columns) (deserialize_row m columns)
          (subst (λ n. OnOk (λ row. length row ≡ n) (read_columns m 0 [] columns)) count
            (read_columns-length m 0 [] columns))
    go (err e) = tt
    go (fault u) = tt

module _ (d : Double) (expressions : List Expression) (where_index : Option ℕ)
    (columns : List ColumnDefinition) (names : List Text) where
  abbrev AllWide : List Row → Type 0
  AllWide = HaveLength (length columns)

  select_slot-HaveLength :
      (page : Page) (slot : ℕ) (rows : List Row)
      → AllWide rows
      → OnOk AllWide (select_slot d expressions where_index columns names page slot rows)
  unfolding select_slot
  select_slot-HaveLength page slot rows h = elim (Bool-cases (slot_deleted page slot)) [
    | inl e ↦ rw (e, select_slot) h
    | inr e ↦
        rw (e, select_slot)
          (OnOk-bind AllWide (read_slot_row page slot columns) _ λ row read.
            OnOk-bind AllWide (selects d expressions where_index row names) _ λ match meant.
              kept match row (
                subst (OnOk (λ r. length r ≡ length columns)) read
                  (read_slot_row-length page slot columns)))
  ]
    where
      kept :
          (match : Bool) (row : Row)
          → length row ≡ length columns
          → AllWide (if match then rows ++ row ∷ [] else rows)
      kept true row wide = HaveLength-snoc (length columns) rows row h wide
      kept false row wide = h

  select_slots-HaveLength :
      (page : Page) (left slot : ℕ) (rows : List Row)
      → AllWide rows
      → OnOk AllWide (select_slots d expressions where_index columns names page left slot rows)
  unfolding select_slots
  select_slots-HaveLength page zero slot rows h = h
  select_slots-HaveLength page (suc left) slot rows h =
      OnOk-bind AllWide (select_slot d expressions where_index columns names page slot rows) _
        λ rows' run.
          select_slots-HaveLength page left (slot + 1) rows'
            (subst (OnOk AllWide) run (select_slot-HaveLength page slot rows h))

  select_pages-HaveLength :
      (left i : ℕ) (rows : List Row) (s : Session)
      → AllWide rows
      → OnOk AllWide (select_pages d expressions where_index columns names left i rows s).1
  unfolding select_pages
  select_pages-HaveLength zero i rows s h = h
  select_pages-HaveLength (suc left) i rows s h =
      OnOk-continue AllWide (read_page i s).1 _ (read_page i s).0 λ page read.
        let taken =
          select_slots d expressions where_index columns names page (num_slots page) 0 rows in
        OnOk-continue AllWide taken _ (read_page i s).0 λ rows' run.
          select_pages-HaveLength left (i + 1) rows' (read_page i s).0
            (subst (OnOk AllWide) run (select_slots-HaveLength page (num_slots page) 0 rows h))

selected_names-length :
    (expressions : List Expression) (indices : List ℕ)
    → OnOk (λ names. length names ≡ length indices) (selected_names expressions indices)
unfolding selected_names
selected_names-length expressions [] = refl
selected_names-length expressions (i ∷ indices) = elim (Option-cases (get_elem? expressions i)) [
  | inl e ↦ rw (e, selected_names) tt
  | inr (x, e) ↦
      rw (e, selected_names)
        (go (selected_names expressions indices) x (selected_names-length expressions indices))
]
  where
    go :
        (r : Exec (List Text)) (x : Expression)
        → OnOk (λ names. length names ≡ length indices) r
        → OnOk
            (λ names. length names ≡ suc (length indices))
            (elim r [
              | ok names ↦ ok (column_name_of x ∷ names)
              | err e ↦ err e
              | fault u ↦ fault u
            ])
    go (ok names) x h = ap suc h
    go (err e) x h = tt
    go (fault u) x h = tt

-- How many names a SELECT of these columns has.
abbrev pub name_count : List ℕ → List ColumnDefinition → ℕ
name_count [] columns = length columns
name_count (i ∷ indices) columns = suc (length indices)

length-column_names :
    (columns : List ColumnDefinition) → length (column_names columns) ≡ length columns
unfolding column_names
length-column_names [] = refl
length-column_names (c ∷ columns) = ap suc (length-column_names columns)

result_columns-length :
    (expressions : List Expression) (indices : List ℕ) (columns : List ColumnDefinition)
    → OnOk
        (λ names. length names ≡ name_count indices columns)
        (result_columns expressions indices columns)
unfolding result_columns
result_columns-length expressions [] columns = length-column_names columns
result_columns-length expressions (i ∷ indices) columns =
    selected_names-length expressions (i ∷ indices)

-- What the body of execSelect gives has a name for each column of the select list, or of the table
-- for SELECT *, and each row has a value for each column of the table.
abbrev pub IsResult : List ℕ → List ColumnDefinition → List Text × List Row → Type 0
IsResult indices columns (names, rows) =
    (length names ≡ name_count indices columns) × HaveLength (length columns) rows

pub select_body-IsResult :
    (d : Double) (expressions : List Expression) (statement : Statement)
    (columns : List ColumnDefinition) (s : Session)
    → OnOk
        (IsResult statement.select_columns columns)
        (select_body d expressions statement columns s).1
unfolding select_body HaveLength
select_body-IsResult d expressions statement columns s =
    let Good = IsResult statement.select_columns columns in
    OnOk-continue Good (result_columns expressions statement.select_columns columns) _ s
      λ names named. OnOk-continue Good (get_num_pages s).1 _ (get_num_pages s).0 λ pages counted.
        let r =
          select_pages d expressions statement.where_index columns names (pages - 1) 1 []
            (get_num_pages s).0 in
        OnOk-continue Good r.1 _ r.0 λ rows run. (
          subst (OnOk (λ names. length names ≡ name_count statement.select_columns columns)) named
              (result_columns-length expressions statement.select_columns columns),
          subst (OnOk (HaveLength (length columns))) run (
              select_pages-HaveLength d expressions statement.where_index columns names (pages - 1)
                1 [] (get_num_pages s).0 tt),
        )
