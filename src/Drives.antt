-- ===== src/Drives.antt =====
-- internal/drives: the parts that do not talk to the kernel.
pub mod Mounts
