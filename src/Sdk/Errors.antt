-- ===== src/Sdk/Errors.antt =====
-- What a client sees of the answers of the manager.
use oj_monorepo.Base.{String, some, Result, ok, err, ◌≡◌, refl, ap}
use oj_monorepo.Shared.Models.{VerdictTaskResult}
use oj_monorepo.Shared.Http.{result_round_trip}
use oj_monorepo.Manager.Pool.{PoolError}
use oj_monorepo.Manager.Router.{task_handler, into_response, status_and_code}
use oj_monorepo.Sdk.{
  JudgeCoreClient, JudgeCoreError, task_submit, parse_success, parse_body, received, error_of_code,
  verdict_of,
}

-- The kind of an error of the pool, as the client names it.
abbrev pub kind : PoolError → JudgeCoreError
kind PoolError.queue_full = JudgeCoreError.queue_full
kind (PoolError.max_retries_exceeded retries) = JudgeCoreError.max_retries_exceeded
kind PoolError.agent_unavailable = JudgeCoreError.agent_unavailable
kind PoolError.shutting_down = JudgeCoreError.shutting_down
kind (PoolError.task_timeout secs) = JudgeCoreError.task_timeout
kind (PoolError.connection_failed e) = JudgeCoreError.connection_failed
kind (PoolError.protocol e) = JudgeCoreError.protocol_error
kind (PoolError.provision e) = JudgeCoreError.provision_error
kind (PoolError.agent_busy agent_id) = JudgeCoreError.agent_busy

abbrev pub seen : Result VerdictTaskResult PoolError → Result VerdictTaskResult JudgeCoreError
seen (ok result) = ok result
seen (err e) = err (kind e)

-- Every answer of the pool reaches the client as it is: a verdict survives both conversions,
-- an error arrives under its own kind, and no answer makes the client panic.
pub task_submit-task_handler :
    (display : PoolError → String) (client : JudgeCoreClient)
    (answer : Result VerdictTaskResult PoolError)
    → task_submit client (some (task_handler display answer)) ≡ some (seen answer)
unfolding task_submit task_handler parse_success parse_body received error_of_code into_response
    status_and_code verdict_of
task_submit-task_handler display client (ok result) =
    ap (λ (r : VerdictTaskResult). some (ok r)) (result_round_trip.0 result)
task_submit-task_handler display client (err PoolError.queue_full) = refl
task_submit-task_handler display client (err (PoolError.max_retries_exceeded retries)) = refl
task_submit-task_handler display client (err PoolError.agent_unavailable) = refl
task_submit-task_handler display client (err PoolError.shutting_down) = refl
task_submit-task_handler display client (err (PoolError.task_timeout secs)) = refl
task_submit-task_handler display client (err (PoolError.connection_failed e)) = refl
task_submit-task_handler display client (err (PoolError.protocol e)) = refl
task_submit-task_handler display client (err (PoolError.provision e)) = refl
task_submit-task_handler display client (err (PoolError.agent_busy agent_id)) = refl
