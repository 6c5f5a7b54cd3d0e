-- ===== src/Shared/Protocol.antt =====
-- services/crates/judge_core_shared/src/protocol.rs: the frames between manager and agent.
use oj_monorepo.Base.{ℕ, String}

-- Errors of other libraries are carried by their message.
pub data ProtocolError : Type 0 where
  serialization : String → ProtocolError
  io : String → ProtocolError
  invalid_heartbeat_response : ProtocolError
  unexpected_heartbeat : ProtocolError

abbrev pub FrameId : Type 0
FrameId = ℕ
