-- ===== src/Idle.antt =====
-- internal/idle/idle.go: when a service that the bus starts has been unused long enough to exit.
pub mod Tracker
