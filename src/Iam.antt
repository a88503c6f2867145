-- ===== src/Iam.antt =====
-- backend/handlers/iam.go: permissions, grants, route guards and namespace scopes.
pub mod Policy
pub mod Grants
pub mod Resolution
pub mod Assigned
pub mod Decides
pub mod Scopes
pub mod Visible
