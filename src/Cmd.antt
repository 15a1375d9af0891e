-- ===== src/Cmd.antt =====
-- cmd/browser-automation-service: how the process is set up.
pub mod Capacity
pub mod Migrations
pub mod Settings
