-- ===== src/Findings.antt =====
-- The findings that scans leave and the decisions about them: backend/handlers/scan_findings.go.
pub mod Finding
pub mod Table
pub mod Chunks
pub mod Spec
pub mod Visit
pub mod Walk
pub mod Settle
pub mod Finish
pub mod Gone
pub mod Revised
pub mod Reconcile
pub mod Suppress
pub mod Deliberate
pub mod Report
pub mod Store
pub mod Decisions
pub mod Standing
pub mod Counted
pub mod Recount
pub mod Scan
pub mod ImageOnly
pub mod Triaged
pub mod Asked
pub mod Decided
pub mod Fresh
pub mod Sound
pub mod Domains
pub mod Named
pub mod Passes
