-- ===== src/CommandLine/Widths.antt =====
-- The widths of the columns that printResult of src/main.cpp finds: one for each, and none too small.
use microsql.Base.{
  ℕ, suc, ◌+◌, ◌≤◌, ◌≡◌, refl, sym, ap, ◌∙◌, List, [], ◌∷◌, ◌++◌, map, arith, length, replicate,
  length-append, length-replicate, ok, Text, codes,
}
use Prim.Native.Nat.{max}
use mathlib.Core.Path.{subst}
use microsql.Storage.Row.{Row}
use microsql.Catalog.{newline}
use microsql.Executor.Width.{HaveLength}
use microsql.CommandLine.Output.{Format, format_value, widen, widen_all, dashes, separator}

-- A width for each text, and none too small.
unfoldable pub Fits : List ℕ → List Text → Type 0
Fits [] [] = Unit {0}
Fits (w ∷ widths) (cell ∷ row) = (length cell ≤ w) × Fits widths row
Fits _ _ = ⊥

unfoldable pub AreWider : List ℕ → List ℕ → Type 0
AreWider [] [] = Unit {0}
AreWider (v ∷ from) (w ∷ to) = (v ≤ w) × AreWider from to
AreWider _ _ = ⊥

AreWider-refl : (widths : List ℕ) → AreWider widths widths
unfolding AreWider
AreWider-refl [] = tt
AreWider-refl (w ∷ widths) = (omega arith, AreWider-refl widths)

AreWider-trans : (a b c : List ℕ) → AreWider a b → AreWider b c → AreWider a c
unfolding AreWider
AreWider-trans [] [] [] h k = tt
AreWider-trans [] [] (z ∷ c) h k = absurd k
AreWider-trans [] (y ∷ b) c h k = absurd h
AreWider-trans (x ∷ a) [] c h k = absurd h
AreWider-trans (x ∷ a) (y ∷ b) [] h k = absurd k
AreWider-trans (x ∷ a) (y ∷ b) (z ∷ c) (h, hs) (k, ks) = (omega arith, AreWider-trans a b c hs ks)

pub Fits-AreWider :
    (from to : List ℕ) (row : List Text) → AreWider from to → Fits from row → Fits to row
unfolding AreWider Fits
Fits-AreWider [] [] [] h k = tt
Fits-AreWider [] [] (c ∷ row) h k = absurd k
Fits-AreWider [] (w ∷ to) row h k = absurd h
Fits-AreWider (v ∷ from) [] row h k = absurd h
Fits-AreWider (v ∷ from) (w ∷ to) [] h k = absurd k
Fits-AreWider (v ∷ from) (w ∷ to) (c ∷ row) (h, hs) (k, ks) =
    (omega arith, Fits-AreWider from to row hs ks)

-- The header's names fit their own widths.
pub Fits-map_length : (row : List Text) → Fits (map length row) row
unfolding Fits
Fits-map_length [] = tt
Fits-map_length (c ∷ row) = (omega arith, Fits-map_length row)

pub length-map_length : (row : List Text) → length (map length row) ≡ length row
length-map_length [] = refl
length-map_length (c ∷ row) = ap suc (length-map_length row)

-- The loop over a row's values, where it has one for each width.
widen-Fits :
    (widths : List ℕ) (row : List Text)
    → length row ≡ length widths
    → (widths' : List ℕ) × (widen widths row ≡ ok widths')
      × AreWider widths widths'
      × Fits widths' row
unfolding widen AreWider Fits
widen-Fits [] [] h = ([], refl, tt, tt)
widen-Fits [] (c ∷ row) h = absurd (omega arith)
widen-Fits (w ∷ widths) [] h = absurd (omega arith)
widen-Fits (w ∷ widths) (c ∷ row) h =
    let (widths', run, wider, fits) = widen-Fits widths row (omega arith) in
    (max w (length c) ∷ widths', rw run, (ground arith, wider), (ground arith, fits))

length-AreWider : (a b : List ℕ) → AreWider a b → length b ≡ length a
unfolding AreWider
length-AreWider [] [] h = refl
length-AreWider [] (y ∷ b) h = absurd h
length-AreWider (x ∷ a) [] h = absurd h
length-AreWider (x ∷ a) (y ∷ b) (h, hs) = ap suc (length-AreWider a b hs)

module _ (f : Format) where
  abbrev pub texts : Row → List Text
  texts row = map (format_value f) row

  pub length-texts : (row : Row) → length (texts row) ≡ length row
  length-texts [] = refl
  length-texts (v ∷ row) = ap suc (length-texts row)

  unfoldable pub AllFit : List ℕ → List Row → Type 0
  AllFit widths [] = Unit {0}
  AllFit widths (row ∷ rows) = Fits widths (texts row) × AllFit widths rows

  pub widen_all-AllFit :
      (widths : List ℕ) (rows : List Row)
      → HaveLength (length widths) rows
      → (widths' : List ℕ) × (widen_all f widths rows ≡ ok widths')
        × AreWider widths widths'
        × AllFit widths' rows
  unfolding widen_all HaveLength AllFit
  widen_all-AllFit widths [] h = (widths, refl, AreWider-refl widths, tt)
  widen_all-AllFit widths (row ∷ rows) (h, hs) =
      let (first, run, wider, fits) = widen-Fits widths (texts row) (length-texts row ∙ h) in
      let same = length-AreWider widths first wider in
      let (last, runs, wider', fit) =
        widen_all-AllFit first rows (subst (λ n. HaveLength n rows) (sym same) hs) in
      (
        last,
        rw (run, widen_all) runs,
        AreWider-trans widths first last wider wider',
        (Fits-AreWider first last (texts row) wider' fits, fit),
      )

  -- The length of a line without its newline and its first mark.
  abbrev pub line_length : List ℕ → ℕ
  line_length [] = 0
  line_length (w ∷ widths) = w + 3 + line_length widths

  length-dashes : (widths : List ℕ) → length (dashes widths) ≡ line_length widths
  length-dashes [] = refl
  length-dashes (w ∷ widths) =
      length-append (replicate (w + 2) b'-') (codes "+" ++ dashes widths)
      ∙ omega (arith, length-replicate {A = ℕ} (w + 2) b'-', length-dashes widths)

  pub length-separator : (widths : List ℕ) → length (separator widths) ≡ line_length widths + 2
  unfolding separator
  length-separator widths =
      ap suc (length-append (dashes widths) newline) ∙ omega (arith, length-dashes widths)
