-- ===== src/Config.antt =====
-- The user's settings, internal/config: the key bindings.
pub mod Keymap
pub mod Tests
