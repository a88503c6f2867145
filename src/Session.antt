-- ===== src/Session.antt =====
-- backend/handlers/session.go: sign-in sessions, their refresh tokens and deadlines.
pub mod Store
pub mod Refresh
pub mod Outcome
pub mod Liveness
pub mod Rotation
pub mod Replay
pub mod Trace
