-- ===== src/Manager/Pool/Retries/Runs.antt =====
-- Every history keeps the retry budgets.
use oj_monorepo.Base.{suc, ◌<◌, length, u64_mod, subst, ap, List, [], ◌∷◌, false, ◌≤◌, All, arith}
use oj_monorepo.Manager.Pool.{AgentPool, new}
use oj_monorepo.Manager.Pool.Cases.{
  submit_begin_cases, submit_enqueue_cases, wake_signal_cases, wake_permit_cases, add_agent_cases,
  remove_agent_cases, shutdown_agent_cases, health_check_cases,
}
use oj_monorepo.Manager.Config.{PoolConfig}
use oj_monorepo.Manager.Pool.Upkeep.{
  drain_scan, drain_retain, shutdown_begin, shutdown_reject, shutdown_mark, shutdown_clear,
}
use oj_monorepo.Manager.Pool.Steps.{Event, step, run}
use oj_monorepo.Manager.Pool.Settings.{run-config}
use oj_monorepo.Manager.Config.{PoolConfig}
use oj_monorepo.Shared.Protocol.{FrameId}
use oj_monorepo.Manager.Pool.Retries.Attempts.{starts_in, starts_bounded}
use oj_monorepo.Manager.Pool.Retries.{
  IsPatient, HasBudget, enqueue-HasBudget, waiting-HasBudget, dispatch-HasBudget, finish-HasBudget,
  settle-HasBudget, reject_all-IsPatient,
}

step-HasBudget : (p : AgentPool) (e : Event) → HasBudget p → HasBudget (step p e)
unfolding step drain_scan drain_retain shutdown_begin shutdown_reject shutdown_mark shutdown_clear
step-HasBudget p (Event.submits task) b = submit_begin_cases HasBudget p task b (record {
  entering_within = (omega arith, b.entering_within);
  queue_within = b.queue_within;
  held_within = b.held_within;
  running_within = b.running_within;
  finished_within = b.finished_within;
  answered = b.answered;
})
step-HasBudget p (Event.enqueues i) b =
    submit_enqueue_cases HasBudget p i b (λ t e. enqueue-HasBudget p i t e b)
step-HasBudget p Event.dispatches b = dispatch-HasBudget p b
step-HasBudget p Event.wakes_by_signal b =
    wake_signal_cases HasBudget p b (λ n _ _. waiting-HasBudget p _ n p.permit tt b)
step-HasBudget p Event.wakes_by_permit b =
    wake_permit_cases HasBudget p b (λ _. waiting-HasBudget p _ p.signals false tt b)
step-HasBudget p (Event.finishes i connection sent receipt) b = finish-HasBudget p i _ b
step-HasBudget p (Event.settles i) b = settle-HasBudget p i b
step-HasBudget p (Event.adds id socket_path now) b =
    add_agent_cases HasBudget p id socket_path now b (λ _. b)
step-HasBudget p (Event.removes id) b = remove_agent_cases HasBudget p id b b
step-HasBudget p (Event.shuts_agent id) b = shutdown_agent_cases HasBudget p id b (λ _. b)
step-HasBudget p (Event.probes h probe) b = health_check_cases HasBudget p h probe b b
step-HasBudget p Event.scans b = b
step-HasBudget p Event.retains b = b
step-HasBudget p Event.begins_shutdown b = b
step-HasBudget p Event.rejects b = record {
  entering_within = b.entering_within;
  queue_within = tt;
  held_within = b.held_within;
  running_within = b.running_within;
  finished_within = b.finished_within;
  answered = reject_all-IsPatient _ p.task_queue p.replies b.answered;
}
step-HasBudget p Event.marks b = b
step-HasBudget p Event.clears b = b

run-HasBudget : (p : AgentPool) (es : List Event) → HasBudget p → HasBudget (run p es)
unfolding run
run-HasBudget p [] b = b
run-HasBudget p (e ∷ es) b = run-HasBudget (step p e) es (step-HasBudget p e b)

-- Under every interleaving, from a new pool and for fewer than 2 ^ 64 - 1 steps, the task of a frame
-- id is started on an agent once and at most `max_retries` times again, as counted on the history;
-- the counter that a task carries never passes `max_retries`, and an answer `max_retries_exceeded`
-- reports `max_retries`.
pub retries_bounded :
    (config : PoolConfig) (es : List Event) (f : FrameId)
    → suc (length es) < u64_mod
    → (starts_in f config.max_retries (new config) es ≤ suc config.max_retries)
      × All (λ r. r.queued.retries ≤ config.max_retries) (run (new config) es).running
      × All (IsPatient config.max_retries) (run (new config) es).replies
unfolding new
retries_bounded config es f small =
    let b = run-HasBudget (new config) es (record {
      entering_within = tt;
      queue_within = tt;
      held_within = tt;
      running_within = tt;
      finished_within = tt;
      answered = tt;
    }) in
    let same = ap (λ (c : PoolConfig). c.max_retries) (run-config (new config) es) in
    (
      starts_bounded config es f small,
      subst (λ m. All (λ r. r.queued.retries ≤ m) (run (new config) es).running) same
          b.running_within,
      subst (λ m. All (IsPatient m) (run (new config) es).replies) same b.answered,
    )
