-- ===== src/Storage.antt =====
-- src/storage: rows as bytes, slotted pages and table files.
pub mod Page
pub mod Row
pub mod TableFile
