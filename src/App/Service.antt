-- ===== src/App/Service.antt =====
-- internal/app/session_service.go and task_service.go: `AutomationService`.
pub mod World
pub mod Helpers
pub mod Sessions
pub mod Lifetime
pub mod Tasks
pub mod Frame
pub mod Invariants
pub mod Preservation
pub mod TaskPreservation
pub mod LivePreservation
pub mod Runs
pub mod Final
pub mod Ends
pub mod Stopping
pub mod Written
pub mod Reading
pub mod Overlap
pub mod Starting
pub mod Executing
pub mod LiveView
pub mod Methods
pub mod Frames
pub mod Tokens
pub mod Authorizing
