-- ===== src/Fileops.antt =====
-- internal/fileops: copying and its progress.
pub mod Meter
