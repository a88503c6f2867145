-- ===== src/Unlock.antt =====
-- backend/handlers/secrets_unlock.go: the ticket that opens a cluster's secrets.
pub mod Ticket
pub mod Once
pub mod Guards
