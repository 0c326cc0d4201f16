-- ===== src/Lexer/Words.antt =====
-- Classes of characters and words: src/lexer/token.cpp.
-- `std::isalpha` and its like are those of the "C" locale, false from 128 on.
use microsql.Base.{
  ℕ, ◌+◌, ◌-◌, Bool, false, not, ◌&&◌, ◌||◌, List, [], ◌∷◌, map, leb, ◌==◌, if◌then◌else◌, length,
  Text, codes, text_eq,
}
use microsql.Base.Int.{int_max}
use microsql.Base.Number.{is_digit, leading_number}
use microsql.Lexer.Token
use microsql.Lexer.Token.{TokenType}

abbrev pub is_upper : ℕ → Bool
is_upper c = leb b'A' c && leb c b'Z'

abbrev pub is_lower : ℕ → Bool
is_lower c = leb b'a' c && leb c b'z'

abbrev pub is_alpha : ℕ → Bool
is_alpha c = is_upper c || is_lower c

abbrev pub is_alnum : ℕ → Bool
is_alnum c = is_alpha c || is_digit c

-- A character of a word.
abbrev pub is_word : ℕ → Bool
is_word c = is_alnum c || c == b'_'

abbrev pub upper : ℕ → ℕ
upper c = if is_lower c then c - 32 else c

unfoldable pub to_upper : Text → Text
to_upper s = map upper s

-- std::from_chars into an `int`, over the whole word: digits after a minus sign, in range.
unfoldable pub is_int : Text → Bool
unfolding leading_number
is_int [] = false
is_int (c ∷ cs) =
    let digits = if c == b'-' then cs else c ∷ cs in
    let limit = if c == b'-' then int_max + 1 else int_max in
    let (value, count) = leading_number 0 0 digits in
    not (count == 0) && count == length digits && leb value limit

abbrev keywords : List (Text × TokenType)
keywords =
    (codes "SELECT", Token.select)
    ∷ (codes "FROM", Token.from)
    ∷ (codes "WHERE", Token.where_)
    ∷ (codes "INSERT", Token.insert)
    ∷ (codes "INTO", Token.into)
    ∷ (codes "VALUES", Token.values)
    ∷ (codes "UPDATE", Token.update)
    ∷ (codes "SET", Token.set_)
    ∷ (codes "DELETE", Token.delete)
    ∷ (codes "CREATE", Token.create)
    ∷ (codes "DROP", Token.drop_)
    ∷ (codes "PRIMARY", Token.primary)
    ∷ (codes "KEY", Token.key)
    ∷ (codes "TABLE", Token.table)
    ∷ (codes "INDEX", Token.index)
    ∷ (codes "ON", Token.on)
    ∷ (codes "BEGIN", Token.begin)
    ∷ (codes "COMMIT", Token.commit)
    ∷ (codes "ROLLBACK", Token.rollback)
    ∷ (codes "AND", Token.and)
    ∷ (codes "OR", Token.or)
    ∷ (codes "NOT", Token.not_)
    ∷ (codes "IS", Token.is)
    ∷ (codes "NULL", Token.tknull)
    ∷ (codes "TRUE", Token.true_)
    ∷ (codes "FALSE", Token.false_)
    ∷ (codes "INTEGER", Token.integer)
    ∷ (codes "FLOAT", Token.float)
    ∷ (codes "TEXT", Token.text)
    ∷ (codes "BOOLEAN", Token.boolean)
    ∷ []

unfoldable pub find_keyword : List (Text × TokenType) → Text → TokenType
find_keyword [] word = Token.identifier
find_keyword ((k, t) ∷ rest) word = if text_eq k word then t else find_keyword rest word

unfoldable pub get_token_type_alpha : Text → TokenType
unfolding find_keyword to_upper
get_token_type_alpha word = find_keyword keywords (to_upper word)

-- `is_float` is std::from_chars into a `float`, over the whole word.
unfoldable pub get_token_type_digit : (Text → Bool) → Text → TokenType
unfolding is_int
get_token_type_digit is_float word =
    if is_int word
    then Token.integer_literal
    else if is_float word
    then Token.float_literal
    else Token.unknown
