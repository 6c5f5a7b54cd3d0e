-- ===== src/Agent/Standalone.antt =====
-- services/crates/judge_core_standalone/src/main.rs: the judge without a manager, and what
-- judge_core_sdk makes of its answer.
use oj_monorepo.Base.{ℕ, ◌+◌, ◌%◌, u64_mod, ◌≡◌, ap, ◌∙◌, Option, none, some, ok}
use oj_monorepo.Shared.Models.{VerdictTask, VerdictTaskResult}
use oj_monorepo.Shared.Http.{VerdictResponse, result_to_response, result_round_trip}
use oj_monorepo.Shared.Wire.{Response, Body}
use oj_monorepo.Sdk.{JudgeCoreClient, parse_body, parse_success, received, verdict_of, task_submit}
use oj_monorepo.Agent.Verdict.{Handled, handle}
use oj_monorepo.Agent.Verdict.Handling.{IsHandled, handle-IsHandled}
use oj_monorepo.Agent.Server.{Judges, judge_of}

-- The answer of `task_handler` to what `handle` has returned: a panic closes the connection.
unfoldable pub task_completed : Option Handled → Option (Response VerdictResponse)
unfolding result_to_response
task_completed none = none
task_completed (some h) = some (record {
  status = 200;
  body =
      Body.success (record { content = result_to_response h.result; message = "task completed" });
})

-- `task_handler` with the counter TASK_ID: the counter afterwards, and the answer. The working
-- directory of a judge is named by the id of its task.
unfoldable pub standalone_task_handler :
    (ℕ → Judges) → ℕ → VerdictTask → ℕ × Option (Response VerdictResponse)
unfolding task_completed
standalone_task_handler judges id task = (
  (id + 1) % u64_mod,
  task_completed
      (handle (judges id).picks (judge_of (judges id) task.language) (judges id).ids task),
)

task_completed-received :
    (client : JudgeCoreClient) (h : Handled)
    → task_submit client (task_completed (some h)) ≡ some (ok h.result)
unfolding task_submit task_completed received parse_success parse_body verdict_of
task_completed-received client h =
    ap (λ (r : VerdictTaskResult). some (ok r)) (result_round_trip.0 h.result)

-- The client of a standalone judge always gets a result, and it is the one that judging the task as
-- `handle` promises leads to, with the working directory of the task's id.
pub standalone-submitted :
    (judges : ℕ → Judges) (client : JudgeCoreClient) (id : ℕ) (task : VerdictTask)
    → let judge = judge_of (judges id) task.language in
      (h : Handled) × (task_submit client (standalone_task_handler judges id task).1
        ≡ some (ok h.result))
      × IsHandled judge (judges id).ids task judge.prepare h
unfolding standalone_task_handler
standalone-submitted judges client id task =
    let judge = judge_of (judges id) task.language in
    let (h, e, i) = handle-IsHandled judge (judges id).ids (judges id).picks task in
    (h, ap (λ o. task_submit client (task_completed o)) e ∙ task_completed-received client h, i)
