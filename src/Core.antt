-- ===== src/Core.antt =====
-- internal/core and the messages of gen/go/browser/automation/v1 that it re-exports.
pub mod Errors
pub mod Times
pub mod Messages
pub mod Commands
pub mod Reply
pub mod Status
pub mod Pages
pub mod Ports
pub mod Requests
