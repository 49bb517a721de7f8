-- ===== src/Update.antt =====
-- update.go: the updater, which keeps one local file in step with a URL.
pub mod Config
pub mod Redirect
pub mod Checksum
pub mod Sweep
pub mod Fetch
pub mod Install
pub mod Check
pub mod Steps
