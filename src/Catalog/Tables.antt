-- ===== src/Catalog/Tables.antt =====
-- Catalog::addTable, findTable and dropTable of src/catalog/catalog.cpp together.
use microsql.Base.{
  ◌≡◌, refl, sym, ap, ◌∙◌, ◌⊎◌, inl, inr, true, false, none, some, [], ◌∷◌, ◌++◌, arith,
  if◌then◌else◌, Bool-cases, Option-cases, ok, err, Text, text_eq, text_eq_refl, text_eq→eq,
}
use microsql.Storage.TableFile.{Disk, lookup, remove}
use microsql.Storage.TableFile.Map.{lookup-remove}
use microsql.Catalog.{
  TableSchema, Tables, duplicate_table, find_table, add_table, drop_table, erase_table,
}

-- No two tables have one name.
unfoldable pub IsUnique : Tables → Type 0
IsUnique [] = Unit {0}
IsUnique (t ∷ tables) = (find_table tables t.table_name ≡ none) × IsUnique tables

-- A search through two lists.
find_table-append :
    (xs ys : Tables) (name : Text)
    → find_table xs name ≡ none
    → find_table (xs ++ ys) name ≡ find_table ys name
unfolding find_table
find_table-append [] ys name h = refl
find_table-append (t ∷ xs) ys name h = elim (Bool-cases (text_eq t.table_name name)) [
  | inl e ↦ absurd (ground arith)
  | inr e ↦ rw (e, find_table) (find_table-append xs ys name (ground arith))
]

find_table-append_some :
    (xs ys : Tables) (name : Text) {t : TableSchema}
    → find_table xs name ≡ some t
    → find_table (xs ++ ys) name ≡ some t
unfolding find_table
find_table-append_some [] ys name h = cc
find_table-append_some (x ∷ xs) ys name h = elim (Bool-cases (text_eq x.table_name name)) [
  | inl e ↦ ground arith
  | inr e ↦ rw (e, find_table) (find_table-append_some xs ys name (ground arith))
]

find_table-one : (t : TableSchema) → find_table (t ∷ []) t.table_name ≡ some t
unfolding find_table
find_table-one t = rw (text_eq_refl t.table_name)

find_table-one_other :
    (t : TableSchema) (name : Text)
    → text_eq t.table_name name ≡ false
    → find_table (t ∷ []) name ≡ none
unfolding find_table
find_table-one_other t name h = rw h

pub add_table_taken :
    (tables : Tables) (schema : TableSchema) {t : TableSchema}
    → find_table tables schema.table_name ≡ some t
    → add_table tables schema ≡ (tables, err duplicate_table)
unfolding add_table
add_table_taken tables schema h = rw (h, add_table)

pub add_table_free :
    (tables : Tables) (schema : TableSchema)
    → find_table tables schema.table_name ≡ none
    → (add_table tables schema ≡ (tables ++ schema ∷ [], ok tt))
      × (find_table (tables ++ schema ∷ []) schema.table_name ≡ some schema)
unfolding add_table
add_table_free tables schema h = (
  rw (h, add_table),
  find_table-append tables (schema ∷ []) schema.table_name h ∙ find_table-one schema,
)

-- addTable refuses a name that findTable finds and leaves the tables, and else the name finds the
-- new schema and every other name what it found before.
pub find_table-add_table :
    (tables : Tables) (schema : TableSchema)
    → ((t : TableSchema) × (find_table tables schema.table_name ≡ some t)
        × (add_table tables schema ≡ (tables, err duplicate_table)))
      ⊎ ((tables' : Tables) × (add_table tables schema ≡ (tables', ok tt))
          × (find_table tables schema.table_name ≡ none)
          × (find_table tables' schema.table_name ≡ some schema)
          × ((name : Text)
              → text_eq schema.table_name name ≡ false
              → find_table tables' name ≡ find_table tables name))
unfolding add_table
find_table-add_table tables schema = elim (Option-cases (find_table tables schema.table_name)) [
  | inr (t, h) ↦ inl (t, h, add_table_taken tables schema h)
  | inl h ↦ inr (
    tables ++ schema ∷ [],
    rw (h, add_table),
    h,
    find_table-append tables (schema ∷ []) schema.table_name h ∙ find_table-one schema,
    λ name other. elim (Option-cases (find_table tables name)) [
      | inr (t, k) ↦ find_table-append_some tables (schema ∷ []) name k ∙ sym k
      | inl k ↦
          find_table-append tables (schema ∷ []) name k
          ∙ find_table-one_other schema name other
          ∙ sym k
    ],
  )
]

text_eq-false_sym : (a b : Text) → text_eq a b ≡ false → text_eq b a ≡ false
text_eq-false_sym a b h = elim (Bool-cases (text_eq b a)) [
  | inr e ↦ e
  | inl e ↦ absurd (
      let same : text_eq a b ≡ true =
        ap (λ x. text_eq x b) (sym (text_eq→eq b a e)) ∙ text_eq_refl b in
      cc)
]

append-IsUnique :
    (tables : Tables) (schema : TableSchema)
    → IsUnique tables
    → find_table tables schema.table_name ≡ none
    → IsUnique (tables ++ schema ∷ [])
unfolding IsUnique find_table
append-IsUnique [] schema u h = (refl, tt)
append-IsUnique (t ∷ tables) schema (n, u) h =
    elim (Bool-cases (text_eq t.table_name schema.table_name)) [
      | inl e ↦ absurd (ground arith)
      | inr e ↦ (
        find_table-append tables (schema ∷ []) t.table_name n
            ∙ find_table-one_other schema t.table_name
                (text_eq-false_sym t.table_name schema.table_name e),
        append-IsUnique tables schema u (ground arith),
      )
    ]

-- addTable keeps the names of the tables distinct.
pub add_table-IsUnique :
    (tables : Tables) (schema : TableSchema)
    → IsUnique tables
    → IsUnique (add_table tables schema).0
unfolding add_table
add_table-IsUnique tables schema u = elim (Option-cases (find_table tables schema.table_name)) [
  | inr (t, h) ↦ rw (h, add_table) u
  | inl h ↦ rw (h, add_table) (append-IsUnique tables schema u h)
]

erase_table-other :
    (tables : Tables) (name other : Text)
    → text_eq name other ≡ false
    → find_table (erase_table tables name) other ≡ find_table tables other
unfolding find_table erase_table
erase_table-other [] name other h = refl
erase_table-other (t ∷ tables) name other h = elim (Bool-cases (text_eq t.table_name name)) [
  | inl e ↦
      let differs : text_eq t.table_name other ≡ false =
        ap (λ x. text_eq x other) (text_eq→eq t.table_name name e) ∙ h in
      rw (e, differs)
  | inr e ↦
      rw (e, find_table)
        (ap (λ r. if text_eq t.table_name other then some t else r)
          (erase_table-other tables name other h))
]

-- Erasing leaves no second table of the name.
erase_table-gone :
    (tables : Tables) (name : Text)
    → IsUnique tables
    → find_table (erase_table tables name) name ≡ none
unfolding find_table erase_table IsUnique
erase_table-gone [] name u = refl
erase_table-gone (t ∷ tables) name (n, u) = elim (Bool-cases (text_eq t.table_name name)) [
  | inl e ↦ rw e (ap (find_table tables) (sym (text_eq→eq t.table_name name e)) ∙ n)
  | inr e ↦ rw (e, find_table, e) (erase_table-gone tables name u)
]

erase_table-IsUnique :
    (tables : Tables) (name : Text) → IsUnique tables → IsUnique (erase_table tables name)
unfolding erase_table IsUnique
erase_table-IsUnique [] name u = tt
erase_table-IsUnique (t ∷ tables) name (n, u) = elim (Bool-cases (text_eq t.table_name name)) [
  | inl e ↦ rw e u
  | inr e ↦
      rw (e, IsUnique)
        (
          erase_table-other tables name t.table_name (text_eq-false_sym t.table_name name e) ∙ n,
          erase_table-IsUnique tables name u,
        )
]

-- dropTable keeps the names of the tables distinct.
pub drop_table-IsUnique :
    (tables : Tables) (name : Text) (disk : Disk)
    → IsUnique tables
    → IsUnique (drop_table tables name disk).0.0
unfolding drop_table
drop_table-IsUnique tables name disk u = elim (Option-cases (find_table tables name)) [
  | inl h ↦ rw (h, drop_table) u
  | inr (t, h) ↦ rw (h, drop_table) (erase_table-IsUnique tables name u)
]

-- Where no two tables have one name, dropTable of a table that is there succeeds, the name and
-- its file are gone, the saved catalog stays, and every other name finds what it found before.
pub find_table-drop_table :
    (tables : Tables) (name : Text) (disk : Disk) (t : TableSchema)
    → IsUnique tables
    → find_table tables name ≡ some t
    → (tables' : Tables) × (disk' : Disk) × (drop_table tables name disk
        ≡ ((tables', disk'), ok tt))
      × (find_table tables' name ≡ none)
      × (lookup t.file_path disk'.files ≡ none)
      × (disk'.catalog ≡ disk.catalog)
      × ((other : Text)
          → text_eq name other ≡ false
          → find_table tables' other ≡ find_table tables other)
unfolding drop_table
find_table-drop_table tables name disk t u h = (
  erase_table tables name,
  record disk { files = remove t.file_path disk.files },
  rw (h, drop_table),
  erase_table-gone tables name u,
  lookup-remove t.file_path disk.files,
  refl,
  λ other e. erase_table-other tables name other e,
)
