-- ===== src/Vault.antt =====
-- internal/vault: encrypted vaults and the files that split vaults are made of.
pub mod Store
pub mod Layout
pub mod Dispersal
pub mod Index
