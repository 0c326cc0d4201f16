-- ===== src/Parser.antt =====
-- src/parser: from tokens to a statement and its expressions.
pub mod State
pub mod Expressions
pub mod Statements
pub mod Tables
pub mod Later
pub mod Grammar
pub mod Ordered
pub mod Start
pub mod Tests
pub mod Keeps
pub mod Pool
