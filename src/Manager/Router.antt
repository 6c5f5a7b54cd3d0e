-- ===== src/Manager/Router.antt =====
-- services/crates/judge_core_manager/src/router.rs: the HTTP interface of the manager.
-- The texts that `thiserror` derives for a `PoolError` are a parameter.
use oj_monorepo.Base.{ℕ, String, ltb, ◌&&◌, Result, ok, err}
use oj_monorepo.Shared.Models.{VerdictTaskResult}
use oj_monorepo.Shared.Http.{VerdictResponse, result_to_response}
use oj_monorepo.Shared.Wire.{
  AcceptablezResponse, Body, Response, err_queue_full, err_max_retries_exceeded,
  err_agent_unavailable, err_shutting_down, err_task_timeout, err_connection_failed,
  err_protocol_error, err_provision_error, err_agent_busy,
}
use oj_monorepo.Manager.Pool.{AgentPool, PoolError}
use oj_monorepo.Shared.Wire.{PoolMetrics}
use oj_monorepo.Manager.Pool.Agents.{metrics}

-- `StatusCode` is its number.
unfoldable pub status_and_code : PoolError → ℕ × String
status_and_code PoolError.queue_full = (503, err_queue_full)
status_and_code (PoolError.max_retries_exceeded retries) = (503, err_max_retries_exceeded)
status_and_code PoolError.agent_unavailable = (503, err_agent_unavailable)
status_and_code PoolError.shutting_down = (503, err_shutting_down)
status_and_code (PoolError.task_timeout secs) = (504, err_task_timeout)
status_and_code (PoolError.connection_failed e) = (500, err_connection_failed)
status_and_code (PoolError.protocol e) = (500, err_protocol_error)
status_and_code (PoolError.provision e) = (500, err_provision_error)
status_and_code (PoolError.agent_busy agent_id) = (500, err_agent_busy)

abbrev pub ok_response : {T : Type 0} → T → String → Response T
ok_response content message = record {
  status = 200;
  body = Body.success (record { content = content; message = message });
}

unfoldable pub metricsz_handler : AgentPool → Response PoolMetrics
metricsz_handler pool = ok_response (metrics pool) "metrics retrieved"

unfoldable pub acceptablez_handler : AgentPool → Response AcceptablezResponse
acceptablez_handler pool =
    let m = metrics pool in
    ok_response
      (record { acceptable = ltb m.queue_size 1000 && ltb 0 m.healthy_agent_count; metrics = m })
      "acceptable status retrieved"

module _ (display : PoolError → String) where
  unfoldable pub into_response : {T : Type 0} → PoolError → Response T
  unfolding status_and_code
  into_response e = record {
    status = (status_and_code e).0;
    body =
        Body.failure
          (record { error = record { code = (status_and_code e).1 }; message = display e });
  }

  -- `task_handler`, from what `submit` has answered.
  unfoldable pub task_handler : Result VerdictTaskResult PoolError → Response VerdictResponse
  unfolding into_response result_to_response
  task_handler (ok result) = ok_response (result_to_response result) "task completed"
  task_handler (err e) = into_response e
