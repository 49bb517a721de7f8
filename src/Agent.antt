-- ===== src/Agent.antt =====
-- The service program of example/agent: it installs, removes and runs itself as a service. With it
-- the dialogs of interact_windows.go.
pub mod Desk
pub mod Interact
pub mod Logs
pub mod Diagnostics
pub mod Program
pub mod Admin
pub mod Honest
