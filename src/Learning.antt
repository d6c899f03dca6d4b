-- ===== src/Learning.antt =====
-- totalrecall/learning, with totalrecall/storage/learning_repo.py: what a scan of the source code
-- discovers, and the decisions on the discoveries.
pub mod Models
pub mod Redactor
pub mod Run
pub mod Table
pub mod Promotion
pub mod Routes
pub mod Approvals
pub mod Counts
pub mod Rerun
pub mod Decisions
mod Examples
