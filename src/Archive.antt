-- ===== src/Archive.antt =====
-- internal/archive/walk.go: which entries of an archive may be extracted.
pub mod Symlink
