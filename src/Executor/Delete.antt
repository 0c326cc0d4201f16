-- ===== src/Executor/Delete.antt =====
-- Theorems on execDelete of src/executor/executor.cpp.
pub mod Slot
pub mod Page
pub mod Table
pub mod TableSelect
pub mod Select
pub mod Tests
