-- ===== src/Examples.antt =====
-- Tests of the models on small inputs, and the theorems at concrete inputs.
mod Session
mod Iam
mod GitOps
mod ReplicaSets
mod Vault
mod Resets
mod Unlock
mod ScanQueue
mod Vaults
mod Findings
mod Crypto
