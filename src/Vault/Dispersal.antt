-- ===== src/Vault/Dispersal.antt =====
-- internal/vault/dispersal.go: the split vault's storage, every file of which is stored as three
-- shards on three sources.
pub mod Names
pub mod Generation
pub mod Xor
pub mod Reader
pub mod Open
pub mod Opening
pub mod Random
pub mod Listing
pub mod Writing
pub mod Repair
pub mod Renaming
pub mod Removing
pub mod Tests
