-- ===== src/TestGen.antt =====
-- totalrecall/testgen: the parts of the generation of test cases.
pub mod Guardrails
pub mod Packs
pub mod Prompts
pub mod Chunks
pub mod Covering
pub mod Adapters
pub mod Screening
mod Examples
