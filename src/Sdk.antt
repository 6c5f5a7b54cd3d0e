-- ===== src/Sdk.antt =====
-- services/crates/judge_core_sdk/src/lib.rs: the client of the manager and of the standalone
-- judge. Sending a request is a parameter: an answer, or the error of `reqwest`.
pub mod Errors
mod Tests
use oj_monorepo.Base.{
  ℕ, String, str_eq, leb, ltb, ◌&&◌, if◌then◌else◌, Bool, true, false, Option, none, some, Result,
  ok, err,
}
use oj_monorepo.Shared.Models.{VerdictTaskResult}
use oj_monorepo.Shared.Http.{VerdictResponse, result_from_response}
use oj_monorepo.Shared.Wire.{PoolMetrics}
use oj_monorepo.Shared.Wire.{
  ErrorResponse, AcceptablezResponse, Body, Response, err_queue_full, err_max_retries_exceeded,
  err_agent_unavailable, err_shutting_down, err_task_timeout, err_connection_failed,
  err_protocol_error, err_provision_error, err_agent_busy,
}

pub data JudgeCoreError : Type 0 where
  using_standalone_mode : JudgeCoreError
  queue_full : JudgeCoreError
  max_retries_exceeded : JudgeCoreError
  agent_unavailable : JudgeCoreError
  shutting_down : JudgeCoreError
  task_timeout : JudgeCoreError
  connection_failed : JudgeCoreError
  protocol_error : JudgeCoreError
  provision_error : JudgeCoreError
  agent_busy : JudgeCoreError
  request : JudgeCoreError

pub record JudgeCoreClient : Type 0 where
  pub standalone_mode : Bool
  pub base_url : String

-- `none` is the panic on a code that the client does not know.
unfoldable pub error_of_code : String → Option JudgeCoreError
error_of_code code =
    if str_eq code err_queue_full
    then some JudgeCoreError.queue_full
    else if str_eq code err_max_retries_exceeded
    then some JudgeCoreError.max_retries_exceeded
    else if str_eq code err_agent_unavailable
    then some JudgeCoreError.agent_unavailable
    else if str_eq code err_shutting_down
    then some JudgeCoreError.shutting_down
    else if str_eq code err_task_timeout
    then some JudgeCoreError.task_timeout
    else if str_eq code err_connection_failed
    then some JudgeCoreError.connection_failed
    else if str_eq code err_protocol_error
    then some JudgeCoreError.protocol_error
    else if str_eq code err_provision_error
    then some JudgeCoreError.provision_error
    else if str_eq code err_agent_busy
    then some JudgeCoreError.agent_busy
    else none

-- `StatusCode::is_success`.
abbrev pub is_success : ℕ → Bool
is_success status = leb 200 status && ltb status 300

unfoldable pub parse_body : {T : Type 0} → Bool → Body T → Option (Result T JudgeCoreError)
unfolding error_of_code
parse_body true (Body.success r) = some (ok r.content)
parse_body true (Body.failure r) = some (err JudgeCoreError.request)
parse_body true Body.other = some (err JudgeCoreError.request)
parse_body false (Body.success r) = some (err JudgeCoreError.request)
parse_body false (Body.failure r) = elim (error_of_code r.error.code) [
  | none ↦ none
  | some e ↦ some (err e)
]
parse_body false Body.other = some (err JudgeCoreError.request)

unfoldable pub parse_success : {T : Type 0} → Response T → Option (Result T JudgeCoreError)
unfolding parse_body
parse_success response = parse_body (is_success response.status) response.body

-- `send().await?` and then `parse_success`; `none` as an answer is an error of `reqwest`.
unfoldable pub received : {T : Type 0} → Option (Response T) → Option (Result T JudgeCoreError)
unfolding parse_success
received none = some (err JudgeCoreError.request)
received (some response) = parse_success response

-- The guard of the two operations that only the manager has.
unfoldable pub unless_standalone :
    {T : Type 0}
    → JudgeCoreClient
    → Option (Result T JudgeCoreError)
    → Option (Result T JudgeCoreError)
unless_standalone client rest =
    if client.standalone_mode then some (err JudgeCoreError.using_standalone_mode) else rest

unfoldable pub metrics :
    JudgeCoreClient → Option (Response PoolMetrics) → Option (Result PoolMetrics JudgeCoreError)
unfolding received unless_standalone
metrics client answer = unless_standalone client (received answer)

unfoldable pub acceptable :
    JudgeCoreClient
    → Option (Response AcceptablezResponse)
    → Option (Result AcceptablezResponse JudgeCoreError)
unfolding received unless_standalone
acceptable client answer = unless_standalone client (received answer)

unfoldable pub verdict_of :
    Result VerdictResponse JudgeCoreError → Result VerdictTaskResult JudgeCoreError
unfolding result_from_response
verdict_of (ok verdict) = ok (result_from_response verdict)
verdict_of (err e) = err e

unfoldable pub task_submit :
    JudgeCoreClient
    → Option (Response VerdictResponse)
    → Option (Result VerdictTaskResult JudgeCoreError)
unfolding received verdict_of
task_submit client answer = elim (received answer) [ none ↦ none | some r ↦ some (verdict_of r) ]
