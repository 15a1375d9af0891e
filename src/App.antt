-- ===== src/App.antt =====
-- internal/app: validation, the memory store and the automation service.
pub mod Validation
pub mod Memory
pub mod Service
pub mod Noop
