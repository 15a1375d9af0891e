-- ===== src/App/Memory.antt =====
-- The memory store of internal/app/memory.go, memory_session.go, memory_task.go and
-- memory_helpers.go. Sessions and tasks are kept in the same way, each with an index of request
-- ids; `Table` is that half of the store, and `Store` puts the two together.
pub mod Texts
pub mod Sort
pub mod Table
pub mod Listing
pub mod Paging
pub mod Store
pub mod Listed
