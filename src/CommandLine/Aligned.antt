-- ===== src/CommandLine/Aligned.antt =====
-- The table that printResult of src/main.cpp prints: its lines are of one length.
use microsql.Base.{ℕ, ◌≡◌, List, [], ◌∷◌, ◌++◌, length, Text}
use microsql.Storage.Row.{Row}

abbrev pub joined : List Text → Text
joined [] = []
joined (line ∷ lines) = line ++ joined lines

-- Every line has n characters.
unfoldable pub HaveSize : ℕ → List Text → Type 0
HaveSize n [] = Unit {0}
HaveSize n (line ∷ lines) = (length line ≡ n) × HaveSize n lines
