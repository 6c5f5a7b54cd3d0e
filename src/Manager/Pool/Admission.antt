-- ===== src/Manager/Pool/Admission.antt =====
-- Who is admitted to the queue, and that a shutdown is final.
use oj_monorepo.Base.{
  ℕ, ◌<◌, ◌≡◌, refl, ap, if◌then◌else◌, List, [], ◌∷◌, true, some, ok, err, get_elem?, length, ◌≤◌,
  ◌++◌, arith,
}
use oj_monorepo.Shared.Models.{VerdictTask}
use oj_monorepo.Manager.Pool.{AgentPool, PoolError, QueuedTask}
use oj_monorepo.Manager.Pool.Tasks.{submit_begin, entered, submit_enqueue, enqueue, launch, release}
use oj_monorepo.Manager.Pool.Cases.{
  submit_begin_cases, enqueue_cases, submit_enqueue_cases, dispatch_cases, wake_signal_cases,
  wake_permit_cases, finish_cases, settle_result_cases, settle_cases, add_agent_cases,
  remove_agent_cases, shutdown_agent_cases, health_check_cases,
}
use oj_monorepo.Manager.Pool.Upkeep.{
  drain_scan, drain_retain, shutdown_begin, shutdown_reject, shutdown_mark, shutdown_clear,
}
use oj_monorepo.Manager.Pool.Steps.{Event, step, run}

-- A submission that has its frame id is queued at the end if the queue is below `max_queue_size`;
-- otherwise the queue stays as it is and the submission is answered `queue_full`. So no submission
-- makes the queue longer than `max_queue_size`.
pub submit_enqueue_lem :
    (p : AgentPool) (i : ℕ) (t : QueuedTask)
    → get_elem? p.entering i ≡ some t
    → let q = submit_enqueue p i in
      (length p.task_queue < p.config.max_queue_size
        → (q.task_queue ≡ p.task_queue ++ t ∷ []) × (q.replies ≡ p.replies))
      × (p.config.max_queue_size ≤ length p.task_queue
          → (q.task_queue ≡ p.task_queue)
            × (q.replies ≡ (t.frame_id, err PoolError.queue_full) ∷ p.replies))
unfolding submit_enqueue enqueue
submit_enqueue_lem p i t e =
    rw (e, submit_enqueue)
      ((λ room. (ground arith, ground arith)), (λ full. (ground arith, ground arith)))

Closed : AgentPool → Type 0
Closed q = q.shutting_down ≡ true

step-Closed : (p : AgentPool) (e : Event) → Closed p → Closed (step p e)
unfolding Closed step launch release drain_scan drain_retain shutdown_begin shutdown_reject
    shutdown_mark shutdown_clear
step-Closed p (Event.submits task) c = submit_begin_cases Closed p task c c
step-Closed p (Event.enqueues i) c =
    submit_enqueue_cases Closed p i c λ t _. enqueue_cases Closed _ t c (λ _. c)
step-Closed p Event.dispatches c =
    dispatch_cases Closed p c (λ _. c) (λ _. c) (λ _ t rest h _ _. c) (λ h t _. c)
step-Closed p Event.wakes_by_signal c = wake_signal_cases Closed p c (λ n _ _. c)
step-Closed p Event.wakes_by_permit c = wake_permit_cases Closed p c (λ _. c)
step-Closed p (Event.finishes i connection sent receipt) c = finish_cases Closed p i _ c (λ r _. c)
step-Closed p (Event.settles i) c =
    settle_cases Closed p i c
      λ f _. settle_result_cases Closed _ f.queued f.result (λ _. c) (λ _. c) (λ _. c)
step-Closed p (Event.adds id socket_path now) c =
    add_agent_cases Closed p id socket_path now c (λ _. c)
step-Closed p (Event.removes id) c = remove_agent_cases Closed p id c c
step-Closed p (Event.shuts_agent id) c = shutdown_agent_cases Closed p id c (λ h. c)
step-Closed p (Event.probes h probe) c = health_check_cases Closed p h probe c c
step-Closed p Event.scans c = c
step-Closed p Event.retains c = c
step-Closed p Event.begins_shutdown c = refl
step-Closed p Event.rejects c = c
step-Closed p Event.marks c = c
step-Closed p Event.clears c = c

run-Closed : (p : AgentPool) (es : List Event) → Closed p → Closed (run p es)
unfolding run
run-Closed p [] c = c
run-Closed p (e ∷ es) c = run-Closed (step p e) es (step-Closed p e c)

submit_refused :
    (p : AgentPool) (task : VerdictTask)
    → Closed p
    → submit_begin p task ≡ (p, err PoolError.shutting_down)
unfolding Closed submit_begin
submit_refused p task c =
    ap (λ b. if b then (p, err PoolError.shutting_down) else (entered p task, ok p.next_frame_id)) c

-- Once `shutdown` has begun, every later call of `submit` is refused with `shutting_down`, takes no
-- frame id and leaves the pool as it is, whatever has happened in between.
pub shutdown_is_final :
    (p : AgentPool) (es : List Event) (task : VerdictTask)
    → submit_begin (run (shutdown_begin p) es) task
      ≡ (run (shutdown_begin p) es, err PoolError.shutting_down)
unfolding shutdown_begin Closed
shutdown_is_final p es task =
    submit_refused (run (shutdown_begin p) es) task (run-Closed (shutdown_begin p) es refl)
