-- ===== src/Lib.antt =====
-- A verification library of the CommitKube backend: its sessions, permissions, GitOps engine,
-- vaults and their guard, secrets guard, scan queue, scan findings, ReplicaSet actions and field
-- encryption.
--
-- How the parts meet. A person signs in and holds a session (`Session`); each request carries an
-- access token that the guard of `Tokens` reads, and the route asks the permissions and namespace
-- scopes of `Iam`. The actions on ReplicaSets take the answer of the scopes as a parameter. The
-- vault and the secrets of a cluster have guards of their own (`Vault`, `Unlock`), whose tokens are
-- signed with other keys over the same kind of claims; the seed of the vault's codes is kept by
-- `Crypto`. The GitOps engine (`GitOps`) turns the manifests of a repository into targets, applies
-- and prunes, and reports; its health rules feed the report. Scans wait in `ScanQueue`; what they
-- report is brought in step with the rows of `Findings`, less what a person has decided about it.
--
-- The files and the code, with paths from the repository's root:
--   Session    backend/handlers/session.go. Store: the token table and its operations
--              (issueTokens, Logout, revokeUserSessions, PruneRefreshTokens, loadSessionUser).
--              Refresh: RefreshTokenHandler, its transaction, and what it leaves for afterwards.
--              Outcome, Liveness, Rotation, Replay and Trace hold the proofs.
--   Iam        backend/handlers/iam.go. Policy: permissionsFor. Grants: GrantPermission and
--              RevokePermission. Scopes: Requires, allowedNamespaces, namespaceAllowed and the
--              changes of scopes. Resolution, Assigned, Decides and Visible hold the proofs.
--   GitOps     backend/handlers/gitops_engine.go and gitops_health.go. Types, Order, Prepare
--              (prepareTargets), Sync (syncApp), Compare (compareApp, summarize), Diff
--              (unifiedDiff), Health and Health/Rules (the health of each kind). The child modules
--              of Prepare, Sync, Compare and Diff and Health/Assess hold the proofs, and
--              Prepare/Accepted which manifests a sync accepts.
--   ReplicaSets  backend/handlers/replicaset_actions.go. Role (roleOf, classifyReplicaSet), Delete
--              (DeleteReplicaSets), Scale (ScaleReplicaSet and its proof). Ownership and Sparing
--              say of owners and pods what Role and Delete compute; Deleting holds proofs.
--   Tokens     backend/middleware/auth.go and the keys of the two other guards.
--   Vault      backend/handlers/vault_mfa.go. Factor (checkVaultCode, failVaultCode), Access (the
--              handlers and VaultSessionRequired); the other modules hold the proofs.
--   Unlock     backend/handlers/secrets_unlock.go. Ticket (checkSignInCode, UnlockSecrets,
--              secretsTicketProblem); Once and Guards hold the proofs.
--   ScanQueue  backend/handlers/scan_queue.go. Job, Queue (EnqueueScan and the workers, one lock or
--              channel operation at a time), Rescan (PollRescans); Matching and Batch hold proofs.
--   Findings   backend/handlers/scan_findings.go, recordScanHistory, and the writes of
--              backend/handlers/scan.go. Finding, Report (findingsFromReport), Table
--              (reconcileFindings, chunkIDs), Suppress (applySuppressions, the counts), Store
--              (openFindings, detailFindings, recountRepo), Decisions (the handlers of
--              suppressions), Scan (runScan from its findings on), ImageOnly
--              (runImageOnlyScan). Spec states the reader's view, Asked what a request asks for,
--              Standing and Counted what the numbers count, and Named what a report names; the
--              other modules hold the proofs, of which Reconcile, Sound, Deliberate, Recount,
--              Decided and Passes state the results.
--   Vaults     backend/handlers/vault.go. Store: the rows and limits. Door: vaultFor,
--              groupMembershipHolds, RevokeGroupVaultKeys. Keyring, Manage (CreateVault,
--              DeleteVault), Share (members), Groups, Items: the handlers. Listing and Pending: the
--              listings. Request: the routes. Entitled says whom a row entitles. The other modules
--              hold the proofs, of which Barred,
--              Roles, Versions, Listed, Owning and Identity state the results.
--   Crypto     backend/crypto/crypto.go.
--   Base       Boolean tests, tables as lists of rows, their keys and queries, a stable sort, and the
--              words of Go's strings.
--   Examples   tests of the models, and the theorems at concrete inputs.
--
-- Numbers are native naturals. Times are counts of nanoseconds after the epoch, and a clock that is
-- subtracted from does not go below it. Every loop of the models is a recursion on the list that
-- the code ranges over, or on the two texts of the diff, so that none needs fuel, but for the
-- cutting of keys into chunks, whose fuel is the length of the list and one.
--
-- Parameters stand for code outside the repository: SHA-256, the Kubernetes API (`Kube`, `Client`,
-- with an abstract cluster that each call that writes returns anew), the printing of YAML, golang-jwt
-- and HMAC (`Jwt`), the codes of authenticators, bcrypt, and AES-GCM with base64 (`Aead`). Whatever
-- fails by itself, such as a write or a draw of random bytes, fails as the request's `Env` says; in
-- `Findings` and `Vaults` the database takes each write.
--
-- Not modelled: the parsing of requests and the texts of answers, cookies, rate limits, listings
-- that only read, the environment's variables, the components that talk to source hosts, scanners,
-- Cloudflare and Argo CD, and the parts of the backend that no file above is about, among them the
-- rendering of charts, delivery metrics, application errors, posture and topology.
pub mod Base
pub mod Session
pub mod Iam
pub mod GitOps
pub mod ReplicaSets
pub mod Crypto
pub mod Tokens
pub mod Vault
pub mod Unlock
pub mod ScanQueue
pub mod Findings
pub mod Vaults
pub mod Examples
