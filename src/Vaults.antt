-- ===== src/Vaults.antt =====
-- The vaults: backend/handlers/vault.go.
pub mod Store
pub mod Door
pub mod Keyring
pub mod Manage
pub mod Share
pub mod Groups
pub mod Items
pub mod Listing
pub mod Pending
pub mod Request
pub mod Versions
pub mod Owners
pub mod Sharing
pub mod Granting
pub mod Owned
pub mod Swept
pub mod Listed
pub mod Entitled
pub mod Confined
pub mod Roles
pub mod Barred
pub mod Kept
pub mod Making
pub mod Owning
pub mod Identity
