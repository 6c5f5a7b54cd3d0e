-- ===== src/Manager.antt =====
-- The crate judge_core_manager: the agent pool, its autoscaler and its HTTP interface.
pub mod Config
pub mod Pool
pub mod Provisioner
pub mod Scaler
pub mod Router
mod Tests
