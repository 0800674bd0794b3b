-- ===== src/Client.antt =====
-- internal/client: the daemon's side of the control connection to the backend.
pub mod Sync
pub mod Relay
pub mod Run
mod Tests
