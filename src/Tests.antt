-- ===== src/Tests.antt =====
-- Runs on concrete data, and each theorem at an input where its hypotheses hold.
mod Data
mod Updates
mod Services
mod Platforms
mod Handlers
mod Managers
mod Sessions
mod Agents
