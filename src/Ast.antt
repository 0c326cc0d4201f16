-- ===== src/Ast.antt =====
-- src/ast: statements and expressions as the parser builds them and the executor reads them.
pub mod Statement
pub mod Expression
pub mod Ordered
