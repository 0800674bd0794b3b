-- ===== src/Sshd.antt =====
-- internal/sshd: the embedded SSH server.
pub mod Audit
pub mod Account
pub mod Command
pub mod Policy
pub mod Trust
pub mod Auth
pub mod Startup
pub mod Live
pub mod Forward
pub mod Session
pub mod Serve
mod Tests
