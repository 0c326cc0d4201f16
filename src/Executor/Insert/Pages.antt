-- ===== src/Executor/Insert/Pages.antt =====
-- The loop of execInsert over the pages of a table, in src/executor/executor.cpp.
use microsql.Base.{
  ℕ, zero, suc, ◌+◌, ◌≤◌, ◌<◌, ◌≡◌, refl, sym, ap, ◌∙◌, ◌⊎◌, inl, inr, Bool, true, false, List,
  arith, leb, ◌==◌, if◌then◌else◌, ==_iff, Bool-cases, length, ok,
}
use mathlib.Core.Path.{subst}
use microsql.Storage.Page.{Page, insert_row, free_space, slot_entry_size}
use microsql.Storage.Page.Insert.{HasRoom}
use microsql.Executor.Error.{Exec}
use microsql.Executor.Session.{Session, Io, pure, continue, ◌>>=◌}
use microsql.Executor.Insert.{insert_row_into_page, insert_into_pages}
use microsql.Executor.Table.{IsTable, table_page, read_page-table_page, put}
use microsql.Executor.Table.{AreSound}
use microsql.Executor.Insert.Added.{
  RowAdded, insert_row_into_page-put, put-RowAdded, table_page-IsPage,
}

module _ (bytes : List ℕ) where
  abbrev len : ℕ
  len = length bytes

  -- What the loop over the pages does: the first with room takes the row, or none has room.
  unfoldable pub Taken : ℕ → ℕ → Session → Session × Exec Bool → Type 0
  Taken n i s r =
      ((k : ℕ) × (s' : Session) × (r ≡ (s', ok true))
        × (k < n)
        × RowAdded bytes n n k (table_page s k) s s')
      ⊎ (r ≡ (s, ok false)) × ((j : ℕ) → i ≤ j → j < n → ¬ HasRoom (table_page s j) len)

  -- The pages behind one that has no room.
  Taken-later :
      (n left i : ℕ) (s : Session) (r : Session × Exec Bool)
      → r ≡ insert_into_pages bytes len left (i + 1) s
      → ¬ HasRoom (table_page s i) len
      → Taken n (i + 1) s (insert_into_pages bytes len left (i + 1) s)
      → Taken n i s r
  unfolding Taken
  Taken-later n left i s r e no_room (inl (k, s', run, h, added)) = inl (k, s', e ∙ run, h, added)
  Taken-later n left i s r e no_room (inr (run, full)) = inr (
    e ∙ run,
    λ j h k. elim (Bool-cases (j == i)) [
      | inl same ↦ subst (λ j. ¬ HasRoom (table_page s j) len) (sym ((==_iff j i).0 same)) no_room
      | inr other ↦ full j (ground arith) k
    ],
  )

  pub insert_into_pages-Taken :
      (n left i : ℕ) (s : Session)
      → IsTable n s
      → AreSound n i s
      → 1 ≤ i
      → i + left ≡ n
      → 0 < len
      → Taken n i s (insert_into_pages bytes len left i s)
  unfolding insert_into_pages Taken
  insert_into_pages-Taken n zero i s t sound low e some_byte =
      inr (refl, λ j h k. absurd (omega arith))
  insert_into_pages-Taken n (suc left) i s t sound low e some_byte =
      let p = table_page s i in
      let first = ap (λ r. continue r.1 tried r.0) (read_page-table_page n s i t (omega arith)) in
      elim (Bool-cases (leb (len + slot_entry_size) (free_space p))) [
        | inl room ↦
            let has : HasRoom p len = (some_byte, ground arith) in
            inl (
              i,
              put (insert_row p bytes len).0 s,
              first
                  ∙ rw room (
                      ap (λ r. continue r.1 (λ u. pure true) r.0)
                        (insert_row_into_page-put bytes n s p t has)),
              omega arith,
              put-RowAdded bytes n n i s s p t low (omega arith)
                  (table_page-IsPage i s (sound i (omega arith) (omega arith))) has
                  (λ j ne l. refl),
            )
        | inr full ↦
            let next : insert_into_pages bytes len (suc left) i s
                ≡ insert_into_pages bytes len left (i + 1) s =
              first ∙ rw full in
            let no_room : ¬ HasRoom p len = λ room. ground (arith, room.1) in
            Taken-later n left i s (insert_into_pages bytes len (suc left) i s) next no_room (
              insert_into_pages-Taken n left (i + 1) s t (λ j h k. sound j (omega arith) k)
                (omega arith) (omega arith) some_byte)
      ]
    where
      tried : Page → Io Bool
      tried page =
          if leb (len + slot_entry_size) (free_space page)
          then (insert_row_into_page page bytes len >>= λ u. pure true)
          else insert_into_pages bytes len left (i + 1)
