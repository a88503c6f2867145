-- ===== src/Vault.antt =====
-- backend/handlers/vault_mfa.go: the second factor of the vault.
pub mod Factor
pub mod Access
pub mod Replay
pub mod Lockout
pub mod Keeping
pub mod Sessions
pub mod Keys
pub mod Generations
pub mod Seeds
pub mod Handlers
pub mod Resets
