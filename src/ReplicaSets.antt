-- ===== src/ReplicaSets.antt =====
-- backend/handlers/replicaset_actions.go: what may be deleted, and what scaling acts on.
pub mod Role
pub mod Ownership
pub mod Delete
pub mod Sparing
pub mod Deleting
pub mod Scale
