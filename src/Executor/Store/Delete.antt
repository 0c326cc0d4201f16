-- ===== src/Executor/Store/Delete.antt =====
-- execDelete of src/executor/executor.cpp on a well-formed table.
use microsql.Base.{ℕ, ◌≤◌, ◌<◌, ◌≡◌, sym, ◌∙◌, some, List, arith, ok, Text}
use microsql.Ast.Statement.{Statement, ColumnDefinition}
use microsql.Ast.Expression.{Expression}
use microsql.Storage.Page.{Page}
use microsql.Storage.Page.Slots.{slot_view}
use microsql.Storage.Row.{Value}
use microsql.Catalog.{column_names}
use microsql.Executor.Values.{Double}
use microsql.Executor.Session.{Session}
use microsql.Executor.Change.{delete_body}
use microsql.Executor.Table.{table_page}
use microsql.Executor.Insert.Stored.{slot_view-some}
use microsql.Executor.Delete.Page.{SlotAfter, was_empty, deleted, kept}
use microsql.Executor.Delete.Table.{TableAfter, PageDone, delete_body-TableAfter}
use microsql.Executor.Store.{IsStore, KeyOf, KeyOf-view}

module _ (d : Double) (expressions : List Expression) (st : Statement)
    (columns : List ColumnDefinition) (n : ℕ) where
  abbrev names : List Text
  names = column_names columns

  -- A slot that holds something held it before.
  slot_kept :
      (p q : Page) (j : ℕ) (bytes : List ℕ)
      → SlotAfter d expressions st.where_index columns names p q j
      → slot_view q j ≡ some bytes
      → slot_view q j ≡ slot_view p j
  slot_kept p q j bytes (was_empty before after) h = cc
  slot_kept p q j bytes (deleted read match gone) h = cc
  slot_kept p q j bytes (kept read match same live again) h = same

  page_kept :
      (p q : Page) (j : ℕ) (bytes : List ℕ)
      → PageDone d expressions st columns n p q
      → slot_view q j ≡ some bytes
      → slot_view q j ≡ slot_view p j
  page_kept p q j bytes done h =
      let (live, _) = slot_view-some q j bytes h in
      slot_kept p q j bytes (done.after j (omega (arith, live.0, done.slots))) h

  table_kept :
      (s s' : Session)
      → TableAfter d expressions st columns n 1 s s'
      → (i : ℕ) → 1 ≤ i
      → i < n
      → (j : ℕ) (bytes : List ℕ) → slot_view (table_page s' i) j ≡ some bytes
      → slot_view (table_page s' i) j ≡ slot_view (table_page s i) j
  table_kept s s' a i low h j bytes view =
      page_kept (table_page s i) (table_page s' i) j bytes (a.after i low h) view

  -- Where execDelete comes to its end on a well-formed table of n pages, one or more (its file
  -- open on a stream that has not failed, on a device that takes writes, with sound pages of data
  -- whose slots hold the bytes of rows, no two with one value in the key column), it leaves a
  -- well-formed table of n pages.
  pub delete_body-IsStore :
      (pk c : ℕ) (s s' : Session)
      → IsStore d columns pk n s
      → 1 ≤ n
      → delete_body d expressions st columns s ≡ (s', ok c)
      → IsStore d columns pk n s'
  delete_body-IsStore pk c s s' store some_page run =
      let a =
        delete_body-TableAfter d expressions st columns n c s s' store.table store.sound some_page
          run in
      let before : (i : ℕ)
          → 1 ≤ i
          → i < n
          → (j : ℕ) (v : Value) → KeyOf columns pk (table_page s' i) j v
          → KeyOf columns pk (table_page s i) j v =
        λ i low h j v k.
          KeyOf-view columns pk (table_page s i) (table_page s' i) j v
            (table_kept s s' a i low h j k.bytes k.view) (store.rows i low h j) k in
      record {
        table = a.table;
        sound = λ i low h. (a.after i low h).sound;
        rows = λ i low h j bytes view.
            store.rows i low h j bytes (sym (table_kept s s' a i low h j bytes view) ∙ view);
        keys = λ i i' low h low' h' j j' ne v v' k k'.
            store.keys i i' low h low' h' j j' ne v v' (before i low h j v k)
              (before i' low' h' j' v' k');
      }
