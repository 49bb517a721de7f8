-- ===== src/Manager.antt =====
-- manager_windows.go: installing, removing, querying and controlling a service.
pub mod Calls
pub mod Install
pub mod Remove
pub mod Control
pub mod Elevate
