-- ===== src/Status.antt =====
-- The traffic counters of clients in pkg/status/status.go.
pub mod State
pub mod Sample
pub mod Start
pub mod Track
pub mod Run
pub mod Ports
pub mod Accounts
pub mod Disconnect
