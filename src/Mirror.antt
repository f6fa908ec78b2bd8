-- ===== src/Mirror.antt =====
-- internal/mirror/generic.go: a folder mirrored by listing both sides and copying.
pub mod Tree
pub mod Plan
pub mod Run
pub mod Tests
