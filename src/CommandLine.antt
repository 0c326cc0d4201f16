-- ===== src/CommandLine.antt =====
-- The command line of src/main.cpp.
pub mod Output
pub mod Widths
pub mod Printable
pub mod Aligned
pub mod Overrun
pub mod Loop
pub mod Lines
pub mod Comment
pub mod Restart
pub mod Tests
