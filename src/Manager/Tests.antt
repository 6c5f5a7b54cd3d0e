-- ===== src/Manager/Tests.antt =====
-- The pool on a short history, and its theorems at concrete inputs.
use oj_monorepo.Base.{
  take, tally, ◌++◌, get_elem?, ◌<◌, ℕ, ◌+◌, ◌≤◌, ◌≡◌, refl, ltb, List, [], ◌∷◌, true, false, none,
  some, ok, err, All, length, arith,
}
use oj_monorepo.Shared.Models.{VerdictTask, Language}
use oj_monorepo.Manager.Config.{default_pool_config}
use oj_monorepo.Manager.Pool.{AgentPool, PoolError, QueuedTask, Finished, Dispatcher, new, modify}
use oj_monorepo.Manager.Pool.Agents.{fresh_handle, choose_agent, add_agent, is_eligible}
use oj_monorepo.Manager.Pool.Tasks.{
  Connection, Receipt, submit_begin, submit_enqueue, settle, finish, dispatch, execute_task,
}
use oj_monorepo.Manager.Pool.Upkeep.{Probe, shutdown_begin}
use oj_monorepo.Manager.Pool.Steps.{Event, step, run}
use oj_monorepo.Manager.Pool.Load.{executing}
use oj_monorepo.Manager.Pool.Load.Runs.{active_tasks_exact}
use oj_monorepo.Manager.Pool.Frames.{carries, on_the_way, answers}
use oj_monorepo.Manager.Pool.Frames.Runs.{frames_conserved, issued}
use oj_monorepo.Manager.Pool.Retries.{IsPatient}
use oj_monorepo.Manager.Pool.Retries.Attempts.{starts_in}
use oj_monorepo.Manager.Pool.Retries.Runs.{retries_bounded}
use oj_monorepo.Manager.Pool.Registry.{ids_of, Distinct}
use oj_monorepo.Manager.Pool.Registry.Runs.{agent_ids-Distinct}
use oj_monorepo.Manager.Pool.Health.{probed_all, failures_since, healthy_iff_few_failures}
use oj_monorepo.Manager.Pool.Choice.{choose_agent-least, Holds}
use oj_monorepo.Manager.Pool.Wakeup.{finish-IsWaiting, IsStranded}
use oj_monorepo.Manager.Pool.Abandoned.{shuts_down, unanswered_after_shutdown}
use oj_monorepo.Manager.Pool.Admission.{shutdown_is_final}

abbrev task : VerdictTask
task = record {
  source = "int main() {}";
  cases = [];
  limits = record {
    cpu_time_ms = 1000;
    wall_time_ms = 2000;
    memory_bytes = 1000000;
    output_bytes = 1000;
  };
  language = Language.cpp;
  stop_on_first_error = true;
}

-- One agent, two tasks: the first fails once and waits for its retry, the second runs.
abbrev history : List Event
history =
    Event.adds "a" "/run/a/agent.sock" 5
    ∷ Event.submits task
    ∷ Event.submits task
    ∷ Event.enqueues 1
    ∷ Event.dispatches
    ∷ Event.dispatches
    ∷ Event.finishes 0 Connection.timed_out (ok tt) Receipt.timed_out
    ∷ Event.settles 0
    ∷ Event.enqueues 0
    ∷ Event.dispatches
    ∷ Event.dispatches
    ∷ []

after_history_queue : length (run (new default_pool_config) history).task_queue ≡ 1
unfolding run step new add_agent submit_begin submit_enqueue settle finish dispatch execute_task
    choose_agent
after_history_queue = refl

after_history_running : length (run (new default_pool_config) history).running ≡ 1
unfolding run step new add_agent submit_begin submit_enqueue settle finish dispatch execute_task
    choose_agent
after_history_running = refl

active_tasks_exact_example :
    (((run (new default_pool_config) history).store 0).active_tasks
      ≡ executing 0 (run (new default_pool_config) history).running)
    × (((run (new default_pool_config) history).store 0).active_tasks ≤ 5)
active_tasks_exact_example = active_tasks_exact default_pool_config history (omega arith) 0

frames_conserved_example :
    on_the_way 1 (run (new default_pool_config) history)
      + answers 1 (run (new default_pool_config) history).replies
    ≡ issued (run (new default_pool_config) history) 1
frames_conserved_example = frames_conserved default_pool_config history (omega arith) 1

retries_bounded_example :
    (starts_in 1 3 (new default_pool_config) history ≤ 4)
    × All (λ r. r.queued.retries ≤ 3) (run (new default_pool_config) history).running
    × All (IsPatient 3) (run (new default_pool_config) history).replies
retries_bounded_example = retries_bounded default_pool_config history 1 (omega arith)

started_twice : starts_in 1 3 (new default_pool_config) history ≡ 2
unfolding new step submit_enqueue submit_begin add_agent dispatch choose_agent settle finish
    execute_task
started_twice = refl

agent_ids-Distinct_example : Distinct (
    ids_of
      (run (new default_pool_config) history).store
      (run (new default_pool_config) history).agents)
agent_ids-Distinct_example = agent_ids-Distinct default_pool_config history

abbrev heartbeats : List Probe
heartbeats = Probe.failed ∷ Probe.timed_out ∷ Probe.failed ∷ Probe.answered ∷ Probe.failed ∷ []

healthy_iff_few_failures_example :
    (probed_all 3 heartbeats (fresh_handle "a" "/s" 0)).healthy
    ≡ ltb (failures_since 0 heartbeats) 3
healthy_iff_few_failures_example =
    healthy_iff_few_failures 3 heartbeats (fresh_handle "a" "/s" 0) (omega arith) (omega arith) refl
      refl

choose_agent-least_example :
    (choose_agent (run (new default_pool_config) history) ≡ none
      → All
          (λ j. is_eligible (run (new default_pool_config) history) j ≡ false)
          (run (new default_pool_config) history).agents)
    × ((h : ℕ)
        → choose_agent (run (new default_pool_config) history) ≡ some h
        → Holds h (run (new default_pool_config) history).agents
          × (is_eligible (run (new default_pool_config) history) h ≡ true)
          × All
              (λ j.
                is_eligible (run (new default_pool_config) history) j ≡ true
                → ((run (new default_pool_config) history).store h).active_tasks
                  ≤ ((run (new default_pool_config) history).store j).active_tasks)
              (run (new default_pool_config) history).agents)
choose_agent-least_example = choose_agent-least (run (new default_pool_config) history)

abbrev queued : ℕ → QueuedTask
queued id = record { frame_id = id; task = task; retries = 0 }

-- A full agent, a task that waits, and a dispatcher that waits for an agent.
abbrev full_pool : AgentPool
full_pool = record (new (record default_pool_config { max_concurrent_per_agent = 2 })) {
  store =
      modify (λ _. record (fresh_handle "a" "/s" 0) { active_tasks = 2 }) 0
        (λ _. fresh_handle "" "" 0);
  agents = 0 ∷ [];
  next_handle = 1;
  dispatcher = Dispatcher.parked_busy;
  running =
      record { handle = 0; queued = queued 1 } ∷ record { handle = 0; queued = queued 2 } ∷ [];
  task_queue = queued 3 ∷ [];
}

finish-IsWaiting_example : IsStranded 0 (finish full_pool 0 (err PoolError.agent_unavailable))
unfolding new
finish-IsWaiting_example =
    finish-IsWaiting full_pool 0 (record { handle = 0; queued = queued 1 })
      (err PoolError.agent_unavailable) (queued 3) []
      (record { parked = refl; no_signal = refl; no_permit = refl }) refl refl refl refl
      (omega arith) (omega arith) (omega arith)

shutdown_is_final_example :
    submit_begin (run (shutdown_begin full_pool) history) task
    ≡ (run (shutdown_begin full_pool) history, err PoolError.shutting_down)
shutdown_is_final_example = shutdown_is_final full_pool history task

-- A task has failed, and its spawned task has not settled it yet.
abbrev before_shutdown : List Event
before_shutdown = take 7 history

abbrev failed_task : Finished
failed_task = record { queued = queued 1; result = err (PoolError.task_timeout 5) }

has_failed : get_elem? (run (new default_pool_config) before_shutdown).finished 0 ≡ some failed_task
unfolding new run step submit_enqueue submit_begin add_agent dispatch choose_agent finish
    execute_task
has_failed = refl

unanswered_after_shutdown_example :
    (0
      < tally
          (carries 1)
          (run
            (new default_pool_config)
            (before_shutdown ++ shuts_down 0 (Event.dispatches ∷ []))).task_queue)
    × (answers 1
          (run
            (new default_pool_config)
            (before_shutdown ++ shuts_down 0 (Event.dispatches ∷ []))).replies
        ≡ 0)
unanswered_after_shutdown_example =
    unanswered_after_shutdown default_pool_config before_shutdown (Event.dispatches ∷ []) 0
      failed_task (PoolError.task_timeout 5) (omega arith) has_failed refl (omega arith) (tt, tt)
