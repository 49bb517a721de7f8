-- ===== src/Framework.antt =====
-- The framework around a service: winsvr.go and service_windows.go.
pub mod Utf8
pub mod Text
pub mod Config
pub mod Handler
pub mod Service
pub mod EventLog
