-- ===== src/Agent.antt =====
-- The crate judge_core_agent: running one task against its test cases.
pub mod Verdict
pub mod Cpp
pub mod Server
pub mod Standalone
