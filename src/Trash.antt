-- ===== src/Trash.antt =====
-- The trash can of internal/trash/trash.go: the paths in its records, the records, and the can.
pub mod Encoding
pub mod Record
pub mod Can
pub mod Tests
