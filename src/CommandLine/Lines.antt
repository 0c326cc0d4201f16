-- ===== src/CommandLine/Lines.antt =====
-- The loop of main in src/main.cpp over lines that hold one query together.
use microsql.Base.{
  ℕ, ◌≡◌, refl, ap, ◌∙◌, inl, inr, false, none, List, [], ◌∷◌, ◌++◌, arith, ◌==◌, Bool-cases,
  Option-cases, Text,
}
use microsql.Executor.Statements.{Context}
use microsql.CommandLine.Loop.{
  Libraries, Ended, find_char, add_line, prompt, query_of, command_loop, printing,
}

-- No line holds the character.
unfoldable pub AreFree : ℕ → List Text → Type 0
AreFree c [] = Unit {0}
AreFree c (line ∷ lines) = (find_char c line ≡ none) × AreFree c lines

-- The buffer after some lines.
abbrev pub add_lines : Text → List Text → Text
add_lines buffer [] = buffer
add_lines buffer (line ∷ lines) = add_lines (add_line buffer line) lines

pub find_char-head :
    (c d : ℕ) (t : Text) → find_char c (d ∷ t) ≡ none → ((d == c) ≡ false) × (find_char c t ≡ none)
unfolding find_char
find_char-head c d t h = elim (Bool-cases (d == c)) [
  | inl e ↦ absurd (ground arith)
  | inr e ↦ elim (Option-cases (find_char c t)) [
    | inl n ↦ (e, n)
    | inr (i, n) ↦ absurd (ground arith)
  ]
]

find_char-cons :
    (c d : ℕ) (t : Text) → (d == c) ≡ false → find_char c t ≡ none → find_char c (d ∷ t) ≡ none
unfolding find_char
find_char-cons c d t e h = rw (e, h)

find_char-append :
    (c : ℕ) (s t : Text) → find_char c s ≡ none → find_char c t ≡ none → find_char c (s ++ t) ≡ none
find_char-append c [] t h k = k
find_char-append c (d ∷ s) t h k =
    let (e, h') = find_char-head c d s h in
    find_char-cons c d (s ++ t) e (find_char-append c s t h' k)

find_char-add_line :
    (c : ℕ) (buffer line : Text)
    → (32 == c) ≡ false
    → find_char c buffer ≡ none
    → find_char c line ≡ none
    → find_char c (add_line buffer line) ≡ none
find_char-add_line c [] line space h k = k
find_char-add_line c (d ∷ buffer) line space h k =
    find_char-append c (d ∷ buffer) (32 ∷ line) h (find_char-cons c 32 line space k)

module _ (l : Libraries) where
  -- The same end: the state of the program, and how it ends.
  pub record EndsAs (e e' : Ended l) : Type 0 where
    pub context : e.context ≡ e'.context
    pub outcome : e.outcome ≡ e'.outcome

  command_loop-more :
      (line : Text) (lines : List Text) (buffer : Text) (ctx : Context)
      → find_char 59 (add_line buffer line) ≡ none
      → command_loop l (line ∷ lines) buffer ctx
        ≡ printing l (prompt buffer) (command_loop l lines (add_line buffer line) ctx)
  unfolding command_loop query_of
  command_loop-more line lines buffer ctx h = rw (h, command_loop)

  command_loop-last :
      (last : Text) (rest : List Text) (buffer : Text) (ctx : Context)
      → EndsAs
          (command_loop l (last ∷ rest) buffer ctx)
          (command_loop l (add_line buffer last ∷ rest) [] ctx)
  unfolding command_loop
  command_loop-last last rest buffer ctx = record { context = refl; outcome = refl }

  command_loop-from :
      (lines : List Text) (last : Text) (rest : List Text) (buffer : Text) (ctx : Context)
      → find_char 59 buffer ≡ none
      → AreFree 59 lines
      → EndsAs
          (command_loop l (lines ++ last ∷ rest) buffer ctx)
          (command_loop l (add_line (add_lines buffer lines) last ∷ rest) [] ctx)
  unfolding AreFree
  command_loop-from [] last rest buffer ctx h free = command_loop-last last rest buffer ctx
  command_loop-from (line ∷ lines) last rest buffer ctx h (free, frees) =
      let none_yet = find_char-add_line 59 buffer line refl h free in
      let more = command_loop-more line (lines ++ last ∷ rest) buffer ctx none_yet in
      let later = command_loop-from lines last rest (add_line buffer line) ctx none_yet frees in
      record {
        context = ap (λ e. e.context) more ∙ later.context;
        outcome = ap (λ e. e.outcome) more ∙ later.outcome;
      }

  pub command_loop-add_lines :
      (lines : List Text) (last : Text) (rest : List Text) (ctx : Context)
      → AreFree 59 lines
      → EndsAs
          (command_loop l (lines ++ last ∷ rest) [] ctx)
          (command_loop l (add_line (add_lines [] lines) last ∷ rest) [] ctx)
  unfolding find_char
  command_loop-add_lines lines last rest ctx free =
      command_loop-from lines last rest [] ctx refl free
