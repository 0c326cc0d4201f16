-- ===== src/CommandLine/Printable.antt =====
-- Texts of printable ASCII characters, each of which takes one column on the terminal, and which
-- of the texts of src/main.cpp are such.
use microsql.Base.{
  ℕ, suc, ◌≡◌, refl, Bool, true, false, ◌&&◌, List, [], ◌∷◌, map, arith, leb, length, Text,
}
use microsql.Base.Int.{ℤ, pos, negsuc}
use microsql.Base.Decimal.{IsDigits, to_string-IsDigits}
use microsql.Storage.Row.{Row, int, float, text, bool, null}
use microsql.Catalog.{int_text}
use microsql.CommandLine.Output.{Format, format_value}

abbrev is_printable : ℕ → Bool
is_printable c = leb 32 c && leb c 126

unfoldable pub IsPrintable : Text → Type 0
IsPrintable [] = Unit {0}
IsPrintable (c ∷ cs) = (is_printable c ≡ true) × IsPrintable cs

unfoldable pub ArePrintable : List Text → Type 0
ArePrintable [] = Unit {0}
ArePrintable (t ∷ ts) = IsPrintable t × ArePrintable ts

-- The texts among the values.
unfoldable pub HasPrintable : Row → Type 0
HasPrintable [] = Unit {0}
HasPrintable (text s ∷ row) = IsPrintable s × HasPrintable row
HasPrintable (_ ∷ row) = HasPrintable row

unfoldable pub HavePrintable : List Row → Type 0
HavePrintable [] = Unit {0}
HavePrintable (row ∷ rows) = HasPrintable row × HavePrintable rows

-- What the program relies on in std::format: printable ASCII takes a column for each byte, and the
-- text of a double is such.
pub record IsPlain (f : Format) : Type 0 where
  pub width : (t : Text) → IsPrintable t → f.display_width t ≡ length t
  pub double : (x : ℕ) → IsPrintable (f.double_text x)

IsDigits-IsPrintable : (t : Text) → IsDigits t → IsPrintable t
unfolding IsDigits IsPrintable
IsDigits-IsPrintable [] h = tt
IsDigits-IsPrintable (c ∷ cs) (h, hs) = (ground (arith, h), IsDigits-IsPrintable cs hs)

int_text-IsPrintable : (n : ℤ) → IsPrintable (int_text n)
unfolding IsPrintable
int_text-IsPrintable (pos n) = IsDigits-IsPrintable _ (to_string-IsDigits n)
int_text-IsPrintable (negsuc n) = (refl, IsDigits-IsPrintable _ (to_string-IsDigits (suc n)))

bool_text-IsPrintable : (f : Format) (b : Bool) → IsPrintable (format_value f (bool b))
unfolding IsPrintable format_value
bool_text-IsPrintable f true = (refl, (refl, (refl, (refl, tt))))
bool_text-IsPrintable f false = (refl, (refl, (refl, (refl, (refl, tt)))))

null-IsPrintable : (f : Format) → IsPrintable (format_value f null)
unfolding IsPrintable format_value
null-IsPrintable f = (refl, (refl, (refl, (refl, tt))))

pub ArePrintable-format_value :
    (f : Format) (row : Row)
    → IsPlain f
    → HasPrintable row
    → ArePrintable (map (format_value f) row)
unfolding ArePrintable HasPrintable format_value
ArePrintable-format_value f [] plain h = tt
ArePrintable-format_value f (text s ∷ row) plain (h, hs) =
    (h, ArePrintable-format_value f row plain hs)
ArePrintable-format_value f (int n ∷ row) plain h =
    (int_text-IsPrintable n, ArePrintable-format_value f row plain h)
ArePrintable-format_value f (float x ∷ row) plain h =
    (plain.double x, ArePrintable-format_value f row plain h)
ArePrintable-format_value f (bool b ∷ row) plain h =
    (bool_text-IsPrintable f b, ArePrintable-format_value f row plain h)
ArePrintable-format_value f (null ∷ row) plain h =
    (null-IsPrintable f, ArePrintable-format_value f row plain h)
