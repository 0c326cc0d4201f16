-- ===== src/Executor.antt =====
-- src/executor: expressions and WHERE clauses over rows, and the statements.
pub mod Error
pub mod ErrorTexts
pub mod Values
pub mod Eval
pub mod Rows
pub mod Slots
pub mod Session
pub mod Scan
pub mod Insert
pub mod Change
pub mod Statements
pub mod Parsed
pub mod Create
pub mod Saved
pub mod Names
pub mod Key
pub mod Table
pub mod Unique
pub mod Select
pub mod Width
pub mod Delete
pub mod Store
pub mod Whole
pub mod Tests
