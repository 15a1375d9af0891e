-- ===== src/App/Validation.antt =====
-- What a request must hold before it is stored or run.
pub mod Checks
pub mod Command
pub mod Parts
pub mod Laws
