-- ===== src/Generation.antt =====
-- totalrecall/generation: requests for test code, and the pipeline that answers them.
pub mod Models
pub mod Samples
pub mod Orchestrator
pub mod Pipeline
pub mod Blocking
pub mod Route
pub mod Repairs
pub mod Statuses
pub mod Dispatch
mod Examples
