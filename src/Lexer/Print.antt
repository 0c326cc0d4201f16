-- ===== src/Lexer/Print.antt =====
-- toString of a token and of its type, in src/lexer/token.cpp.
use microsql.Base.{◌++◌, Text, codes, to_string}
use microsql.Lexer.Token
use microsql.Lexer.Token.{TokenType, Token}

-- ERROR has no case of its own.
unfoldable pub type_to_string : TokenType → Text
type_to_string Token.select = codes "SELECT"
type_to_string Token.from = codes "FROM"
type_to_string Token.where_ = codes "WHERE"
type_to_string Token.insert = codes "INSERT"
type_to_string Token.into = codes "INTO"
type_to_string Token.values = codes "VALUES"
type_to_string Token.update = codes "UPDATE"
type_to_string Token.set_ = codes "SET"
type_to_string Token.delete = codes "DELETE"
type_to_string Token.create = codes "CREATE"
type_to_string Token.drop_ = codes "DROP"
type_to_string Token.primary = codes "PRIMARY"
type_to_string Token.key = codes "KEY"
type_to_string Token.table = codes "TABLE"
type_to_string Token.index = codes "INDEX"
type_to_string Token.on = codes "ON"
type_to_string Token.begin = codes "BEGIN"
type_to_string Token.commit = codes "COMMIT"
type_to_string Token.rollback = codes "ROLLBACK"
type_to_string Token.and = codes "AND"
type_to_string Token.or = codes "OR"
type_to_string Token.not_ = codes "NOT"
type_to_string Token.is = codes "IS"
type_to_string Token.tknull = codes "TKNULL"
type_to_string Token.true_ = codes "TRUE"
type_to_string Token.false_ = codes "FALSE"
type_to_string Token.integer = codes "INTEGER"
type_to_string Token.float = codes "FLOAT"
type_to_string Token.text = codes "TEXT"
type_to_string Token.boolean = codes "BOOLEAN"
type_to_string Token.identifier = codes "IDENTIFIER"
type_to_string Token.integer_literal = codes "INTEGER_LITERAL"
type_to_string Token.float_literal = codes "FLOAT_LITERAL"
type_to_string Token.string_literal = codes "STRING_LITERAL"
type_to_string Token.equal = codes "EQUAL"
type_to_string Token.not_equal = codes "NOT_EQUAL"
type_to_string Token.less_than = codes "LESS_THAN"
type_to_string Token.less_eq = codes "LESS_EQ"
type_to_string Token.greater_than = codes "GREATER_THAN"
type_to_string Token.greater_eq = codes "GREATER_EQ"
type_to_string Token.plus = codes "PLUS"
type_to_string Token.minus = codes "MINUS"
type_to_string Token.star = codes "STAR"
type_to_string Token.slash = codes "SLASH"
type_to_string Token.comma = codes "COMMA"
type_to_string Token.semicolon = codes "SEMICOLON"
type_to_string Token.left_paren = codes "LEFT_PAREN"
type_to_string Token.right_paren = codes "RIGHT_PAREN"
type_to_string Token.dot = codes "DOT"
type_to_string Token.end_of_file = codes "END_OF_FILE"
type_to_string Token.unknown = codes "UNKNOWN"
type_to_string Token.error = codes "UNKNOWN"

unfoldable pub token_to_string : Token → Text
unfolding type_to_string
token_to_string token =
    codes "Token{ type="
    ++ (type_to_string token.type
        ++ (codes ", value=\""
            ++ (token.value ++ (codes "\", line=" ++ (to_string token.line ++ codes " }")))))
