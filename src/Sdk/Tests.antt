-- ===== src/Sdk/Tests.antt =====
-- The client at a concrete answer of the manager.
use oj_monorepo.Base.{String, some, err, ◌≡◌, true}
use oj_monorepo.Manager.Pool.{PoolError}
use oj_monorepo.Manager.Router.{task_handler}
use oj_monorepo.Sdk.{JudgeCoreClient, JudgeCoreError, task_submit}
use oj_monorepo.Sdk.Errors.{task_submit-task_handler}

abbrev display : PoolError → String
display e = "error"

abbrev client : JudgeCoreClient
client = record { standalone_mode = true; base_url = "http://judge" }

task_submit-task_handler_example :
    task_submit client (some (task_handler display (err (PoolError.task_timeout 30))))
    ≡ some (err JudgeCoreError.task_timeout)
task_submit-task_handler_example =
    task_submit-task_handler display client (err (PoolError.task_timeout 30))
