-- ===== src/Supervisor.antt =====
-- supervisor.go: the service that updates a payload, then runs it in the user's session and restarts
-- it. The calls into the session are an interface, `Session`.
pub mod Config
pub mod Round
pub mod Run
pub mod Bounds
pub mod Rounds
pub mod Elevates
pub mod Ends
pub mod Stops
pub mod Updates
pub mod Vouched
pub mod Payloads
pub mod Keeps
pub mod Fatal
pub mod Errors
pub mod Cancelled
pub mod Served
pub mod Whole
