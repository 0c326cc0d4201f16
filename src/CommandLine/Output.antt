-- ===== src/CommandLine/Output.antt =====
-- formatValue and printResult of src/main.cpp: the text that goes to the terminal.
use microsql.Base.{
  ℕ, ◌+◌, ◌-◌, not, List, [], ◌∷◌, ◌++◌, map, if◌then◌else◌, length, replicate, undefined, Outcome,
  ok, fault, ◌>>=◌, Text, codes,
}
use Prim.Native.Nat.{max}
use microsql.Storage.Row.{Value, Row, int, float, text, bool, null}
use microsql.Catalog.{int_text, bool_text, newline}
use microsql.Executor.Statements.{Reply}

-- What the program takes from std::format: the text of a double, and the width that a text takes
-- on the terminal.
pub record Format : Type 0 where
  pub double_text : ℕ → Text
  pub display_width : Text → ℕ

unfoldable pub format_value : Format → Value → Text
format_value f null = codes "NULL"
format_value f (bool b) = bool_text b
format_value f (int n) = int_text n
format_value f (float x) = f.double_text x
format_value f (text s) = s

abbrev pub Printed : Type 0 → Type 0
Printed A = Outcome (Unit {0}) A

-- `widths[i] = std::max(widths[i], ...)` for the values of a row, in bytes. A row with more values
-- than there are widths is read and written behind the end of the vector.
unfoldable pub widen : List ℕ → List Text → Printed (List ℕ)
widen widths [] = ok widths
widen [] (cell ∷ row) = fault undefined
widen (w ∷ widths) (cell ∷ row) = do widths' ← widen widths row; ok (max w (length cell) ∷ widths')

unfoldable pub widen_all : Format → List ℕ → List Row → Printed (List ℕ)
unfolding widen format_value
widen_all f widths [] = ok widths
widen_all f widths (row ∷ rows) = do
  widths' ← widen widths (map (format_value f) row)
  widen_all f widths' rows

abbrev pub dashes : List ℕ → Text
dashes [] = []
dashes (w ∷ widths) = replicate (w + 2) b'-' ++ (codes "+" ++ dashes widths)

-- printSep
unfoldable pub separator : List ℕ → Text
separator widths = codes "+" ++ (dashes widths ++ newline)

-- `{:<w}`
unfoldable pub padded : Format → ℕ → Text → Text
padded f w t = t ++ replicate (w - f.display_width t) 32

unfoldable pub print_cells : Format → List ℕ → List Text → Printed Text
unfolding padded
print_cells f widths [] = ok newline
print_cells f [] (cell ∷ row) = fault undefined
print_cells f (w ∷ widths) (cell ∷ row) = do
  rest ← print_cells f widths row
  ok (codes " " ++ (padded f w cell ++ (codes " |" ++ rest)))

unfoldable pub print_row : Format → List ℕ → List Text → Printed Text
unfolding print_cells
print_row f widths row = do cells ← print_cells f widths row; ok (codes "|" ++ cells)

unfoldable pub print_rows : Format → List ℕ → List Row → Printed Text
unfolding print_row format_value
print_rows f widths [] = ok []
print_rows f widths (row ∷ rows) = do
  line ← print_row f widths (map (format_value f) row)
  lines ← print_rows f widths rows
  ok (line ++ lines)

abbrev pub message_line : Text → Text
message_line [] = []
message_line (c ∷ message) = (c ∷ message) ++ newline

unfoldable pub print_table : Format → List Text → List Row → Text → Printed Text
unfolding widen_all separator print_row print_rows
print_table f columns rows message = do
  widths ← widen_all f (map length columns) rows
  header ← print_row f widths columns
  body ← print_rows f widths rows
  ok (
      separator widths
      ++ (header ++ (separator widths ++ (body ++ (separator widths ++ message_line message)))))

unfoldable pub print_result : Format → Reply → Printed Text
unfolding print_table
print_result f reply =
    if not reply.success
    then ok (codes "Error: " ++ (reply.message ++ newline))
    else elim reply.columns [
      | [] ↦ ok (message_line reply.message)
      | name ∷ names ↦ print_table f (name ∷ names) reply.rows reply.message
    ]
