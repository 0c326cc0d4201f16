-- ===== src/Catalog/Load/Words.antt =====
-- split and std::getline over text that is written as words and lines.
use microsql.Base.{ℕ, ◌≡◌, sym, ap, ◌∙◌, ◌≢◌, false, List, [], ◌∷◌, ◌++◌, arith, ◌==◌, Text}
use mathlib.Core.List.{append_assoc, append-nil}
use microsql.Base.Number.{is_space}
use microsql.Catalog.Load.{split_from, split, lines_from, word_then}

-- No white space.
unfoldable pub NoSpace : Text → Type 0
NoSpace [] = Unit {0}
NoSpace (c ∷ cs) = (is_space c ≡ false) × NoSpace cs

unfoldable pub NoNewline : Text → Type 0
NoNewline [] = Unit {0}
NoNewline (c ∷ cs) = (c ≢ 10) × NoNewline cs

-- A word that stands alone: letters, and no white space.
pub record IsWord (word : Text) : Type 0 where
  pub first : ℕ
  pub others : Text
  pub shape : word ≡ first ∷ others
  pub plain : NoSpace word

pub NoNewline-append : (a b : Text) → NoNewline a → NoNewline b → NoNewline (a ++ b)
unfolding NoNewline
NoNewline-append [] b h k = k
NoNewline-append (c ∷ a) b (x, h) k = (x, NoNewline-append a b h k)

pub NoSpace-NoNewline : (a : Text) → NoSpace a → NoNewline a
unfolding NoSpace NoNewline
NoSpace-NoNewline [] h = tt
NoSpace-NoNewline (c ∷ a) (x, h) = (ground arith, NoSpace-NoNewline a h)

-- A word being read, up to a space or to the end.
split_from-space :
    (word u rest : Text)
    → NoSpace u
    → split_from word (u ++ 32 ∷ rest) ≡ word_then (word ++ u) (split_from [] rest)
unfolding split_from NoSpace
split_from-space word [] rest h = ap (λ w. word_then w (split_from [] rest)) (sym (append-nil word))
split_from-space word (c ∷ u) rest (x, h) =
    rw (x, split_from)
      (split_from-space (word ++ c ∷ []) u rest h
        ∙ ap (λ w. word_then w (split_from [] rest)) (append_assoc word (c ∷ []) u))

split_from-end : (word u : Text) → NoSpace u → split_from word u ≡ word_then (word ++ u) []
unfolding split_from NoSpace
split_from-end word [] h = ap (λ w. word_then w []) (sym (append-nil word))
split_from-end word (c ∷ u) (x, h) =
    rw (x, split_from)
      (split_from-end (word ++ c ∷ []) u h
        ∙ ap (λ w. word_then w []) (append_assoc word (c ∷ []) u))

word_then-IsWord : (u : Text) (words : List Text) → IsWord u → word_then u words ≡ u ∷ words
word_then-IsWord u words w = ap (λ v. word_then v words) w.shape ∙ ap (λ v. v ∷ words) (sym w.shape)

pub split-space : (u rest : Text) → IsWord u → split (u ++ 32 ∷ rest) ≡ u ∷ split rest
unfolding split
split-space u rest w = split_from-space [] u rest w.plain ∙ word_then-IsWord u (split rest) w

pub split-word : (u : Text) → IsWord u → split u ≡ u ∷ []
unfolding split
split-word u w = split_from-end [] u w.plain ∙ word_then-IsWord u [] w

lines_from-line :
    (line u rest : Text)
    → NoNewline u
    → lines_from line (u ++ 10 ∷ rest) ≡ (line ++ u) ∷ lines_from [] rest
unfolding lines_from NoNewline
lines_from-line line [] rest h = ap (λ l. l ∷ lines_from [] rest) (sym (append-nil line))
lines_from-line line (c ∷ u) rest (x, h) =
    let other : (c == 10) ≡ false = ground arith in
    rw (other, lines_from)
      (lines_from-line (line ++ c ∷ []) u rest h
        ∙ ap (λ l. l ∷ lines_from [] rest) (append_assoc line (c ∷ []) u))

-- A line and what follows it.
pub lines-line :
    (u rest : Text) → NoNewline u → lines_from [] (u ++ 10 ∷ rest) ≡ u ∷ lines_from [] rest
lines-line u rest h = lines_from-line [] u rest h
