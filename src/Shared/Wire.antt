-- ===== src/Shared/Wire.antt =====
-- services/crates/judge_core_shared/src/models/http.rs: the envelopes of the HTTP interface
-- and its error codes. A body is the value that its JSON text stands for.
use oj_monorepo.Base.{ℕ, String, Bool}

pub record ErrorBody : Type 0 where
  pub code : String

pub record ErrorResponse : Type 0 where
  pub error : ErrorBody
  pub message : String

pub record SuccessResponse (T : Type 0) : Type 0 where
  pub content : T
  pub message : String

pub record PoolMetrics : Type 0 where
  pub queue_size : ℕ
  pub agent_count : ℕ
  pub healthy_agent_count : ℕ
  pub active_tasks : ℕ
  pub draining_agent_count : ℕ
  pub unhealthy_agent_count : ℕ

pub record AcceptablezResponse : Type 0 where
  pub acceptable : Bool
  pub metrics : PoolMetrics

-- What a body may hold: either envelope, or text that is neither.
pub data Body (T : Type 0) : Type 0 where
  success : SuccessResponse T → Body T
  failure : ErrorResponse → Body T
  other : Body T

pub record Response (T : Type 0) : Type 0 where
  pub status : ℕ
  pub body : Body T

abbrev pub metrics_url : String
metrics_url = "/metricsz"

abbrev pub acceptable_url : String
acceptable_url = "/acceptablez"

abbrev pub task_url : String
task_url = "/task"

abbrev pub err_queue_full : String
err_queue_full = "QUEUE_FULL"

abbrev pub err_max_retries_exceeded : String
err_max_retries_exceeded = "MAX_RETRIES_EXCEEDED"

abbrev pub err_agent_unavailable : String
err_agent_unavailable = "AGENT_UNAVAILABLE"

abbrev pub err_shutting_down : String
err_shutting_down = "SHUTTING_DOWN"

abbrev pub err_task_timeout : String
err_task_timeout = "TASK_TIMEOUT"

abbrev pub err_connection_failed : String
err_connection_failed = "CONNECTION_FAILED"

abbrev pub err_protocol_error : String
err_protocol_error = "PROTOCOL_ERROR"

abbrev pub err_provision_error : String
err_provision_error = "PROVISION_ERROR"

abbrev pub err_agent_busy : String
err_agent_busy = "AGENT_BUSY"
