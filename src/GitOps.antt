-- ===== src/GitOps.antt =====
-- backend/handlers/gitops_engine.go and gitops_health.go: what a repository declares against what
-- the cluster holds.
pub mod Health
pub mod Types
pub mod Prepare
pub mod Order
pub mod Sync
pub mod Diff
pub mod Compare
