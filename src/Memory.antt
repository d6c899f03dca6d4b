-- ===== src/Memory.antt =====
-- totalrecall/memory: what the program remembers about an application, behind a wrapper that
-- chooses an adapter, filters deleted entries and caches searches.
pub mod Models
pub mod Tombstone
pub mod Stub
pub mod StubLaws
pub mod Null
pub mod Metrics
pub mod Wrapper
pub mod Counting
pub mod Deletion
pub mod Rows
pub mod Clean
pub mod Visibility
pub mod Sessions
pub mod Forgotten
pub mod Histories
mod Examples
