-- ===== src/Session.antt =====
-- session_windows.go: finding a signed-in user, and running a process in that user's session.
pub mod Windows
pub mod Handles
pub mod Token
pub mod Launch
pub mod Console
pub mod Process
pub mod Verdicts
pub mod Service
pub mod Leaks
pub mod Tidy
pub mod Rights
