-- ===== src/Shared.antt =====
-- The crate judge_core_shared: the data of a judging task, and its HTTP form.
pub mod Models
pub mod Http
pub mod Protocol
pub mod Wire
pub mod Headers
pub mod Framing
