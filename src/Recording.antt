-- ===== src/Recording.antt =====
-- internal/recording: the recordings of interactive sessions.
pub mod Recorder
pub mod Retention
pub mod Uploader
pub mod Pending
pub mod Labels
mod Tests
