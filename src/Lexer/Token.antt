-- ===== src/Lexer/Token.antt =====
-- src/lexer/token.h.
use microsql.Base.{ℕ, Bool, ◌==◌, Text}

pub data TokenType : Type 0 where
  select from where_ insert into values update set_ delete create drop_ primary key : TokenType
  table index on begin commit rollback and or not_ is tknull true_ false_ : TokenType
  integer float text boolean identifier integer_literal float_literal string_literal : TokenType
  equal not_equal less_than less_eq greater_than greater_eq plus minus star slash : TokenType
  comma semicolon left_paren right_paren dot end_of_file unknown error : TokenType

-- The enumerator's number.
unfoldable pub ordinal : TokenType → ℕ
ordinal select = 0
ordinal from = 1
ordinal where_ = 2
ordinal insert = 3
ordinal into = 4
ordinal values = 5
ordinal update = 6
ordinal set_ = 7
ordinal delete = 8
ordinal create = 9
ordinal drop_ = 10
ordinal primary = 11
ordinal key = 12
ordinal table = 13
ordinal index = 14
ordinal on = 15
ordinal begin = 16
ordinal commit = 17
ordinal rollback = 18
ordinal and = 19
ordinal or = 20
ordinal not_ = 21
ordinal is = 22
ordinal tknull = 23
ordinal true_ = 24
ordinal false_ = 25
ordinal integer = 26
ordinal float = 27
ordinal text = 28
ordinal boolean = 29
ordinal identifier = 30
ordinal integer_literal = 31
ordinal float_literal = 32
ordinal string_literal = 33
ordinal equal = 34
ordinal not_equal = 35
ordinal less_than = 36
ordinal less_eq = 37
ordinal greater_than = 38
ordinal greater_eq = 39
ordinal plus = 40
ordinal minus = 41
ordinal star = 42
ordinal slash = 43
ordinal comma = 44
ordinal semicolon = 45
ordinal left_paren = 46
ordinal right_paren = 47
ordinal dot = 48
ordinal end_of_file = 49
ordinal unknown = 50
ordinal error = 51

-- `==` of two enumerators.
unfoldable pub type_eq : TokenType → TokenType → Bool
unfolding ordinal
type_eq a b = ordinal a == ordinal b

pub record Token : Type 0 where
  pub type : TokenType
  pub value : Text
  pub line : ℕ
