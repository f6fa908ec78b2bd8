-- ===== src/LocalSend.antt =====
-- Receiving files over LocalSend, internal/localsend: the names that received files get.
pub mod Names
pub mod Receiving
pub mod Target
pub mod Tests
