-- ===== src/Lexer.antt =====
-- src/lexer: from the text of a query to tokens.
pub mod Token
pub mod Print
pub mod Words
pub mod Scan
pub mod Comments
pub mod Tests
pub mod Ends
pub mod Total
