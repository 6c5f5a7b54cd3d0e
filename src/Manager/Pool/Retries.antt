-- ===== src/Manager/Pool/Retries.antt =====
-- The retry budget of a task, and what the answer `max_retries_exceeded` says of it.
pub mod Attempts
pub mod Runs
use oj_monorepo.Base.{
  ℕ, zero, suc, ◌<◌, ◌≡◌, ◌++◌, subst, refl, ltb, leb, ◌==◌, str_eq, String, List, [], ◌∷◌, Bool,
  true, false, ◌∙◌, Option, none, some, Result, ok, err, get_elem?, erase_at, length, find, ◌+◌,
  ◌≤◌, All, All-append, All-get, All-erase_at, arith, if_cases, Option-cases, inl, inr,
}
use oj_monorepo.Shared.Models.{VerdictTask, VerdictTaskResult}
use oj_monorepo.Shared.Protocol.{FrameId}
use oj_monorepo.Manager.Pool.{
  AgentPool, PoolError, QueuedTask, Running, Finished, Reply, Dispatcher, modify, new,
}
use oj_monorepo.Manager.Pool.Agents.{
  add_agent, registered, fresh_handle, has_id, remove_agent, erase_id, shutdown_agent,
  mark_shutdown, choose_agent,
}
use oj_monorepo.Manager.Pool.Tasks.{
  submit_begin, entered, submit_enqueue, enqueue, push_back, answer, dispatch, dispatch_at, pick,
  launch, receive_signal, wake_signal, wake_signal_at, wake_permit, wake_permit_at, finish, release,
  settle, settle_result, retry,
}
use oj_monorepo.Manager.Pool.Upkeep.{Probe, probed, health_check, checked}
use oj_monorepo.Manager.Pool.Cases.{
  submit_begin_cases, enqueue_cases, submit_enqueue_cases, dispatch_cases, wake_signal_cases,
  wake_permit_cases, finish_cases, settle_result_cases, settle_cases, add_agent_cases,
  remove_agent_cases, shutdown_agent_cases, health_check_cases,
}
use oj_monorepo.Manager.Config.{PoolConfig}
use oj_monorepo.Manager.Pool.Upkeep.{
  reject_all, drain_scan, drain_retain, shutdown_begin, shutdown_reject, shutdown_mark,
  shutdown_clear,
}
use oj_monorepo.Manager.Pool.Steps.{Event, step, run}

abbrev pub Within : ℕ → QueuedTask → Type 0
Within most t = t.retries ≤ most

abbrev pub HeldWithin : ℕ → Dispatcher → Type 0
HeldWithin most (Dispatcher.picked h t) = t.retries ≤ most
HeldWithin most _ = Unit

-- An answer that gives up says so after the whole budget.
abbrev pub IsPatient : ℕ → FrameId × Reply → Type 0
IsPatient most (f, err (PoolError.max_retries_exceeded n)) = n ≡ most
IsPatient most _ = Unit

pub record Budget (most : ℕ) (entering queue : List QueuedTask) (d : Dispatcher)
    (running : List Running) (finished : List Finished) (replies : List (FrameId × Reply))
    : Type 0 where
  pub entering_within : All (Within most) entering
  pub queue_within : All (Within most) queue
  pub held_within : HeldWithin most d
  pub running_within : All (λ r. r.queued.retries ≤ most) running
  pub finished_within : All (λ s. s.queued.retries ≤ most) finished
  pub answered : All (IsPatient most) replies

abbrev pub HasBudget : AgentPool → Type 0
HasBudget p =
    Budget p.config.max_retries p.entering p.task_queue p.dispatcher p.running p.finished p.replies

-- What two lists and a channel keep when a task moves between them.
push-Within :
    (most : ℕ) (q : List QueuedTask) (t : QueuedTask)
    → t.retries ≤ most
    → All (Within most) q
    → All (Within most) (q ++ t ∷ [])
push-Within most q t h b = All-append (Within most) q (t ∷ []) b (h, tt)

pub enqueue-HasBudget :
    (p : AgentPool) (i : ℕ) (t : QueuedTask)
    → get_elem? p.entering i ≡ some t
    → HasBudget p
    → HasBudget (enqueue (record p { entering = erase_at p.entering i }) t)
enqueue-HasBudget p i t e b =
    let within = All-get (Within p.config.max_retries) p.entering i t b.entering_within e in
    let left = All-erase_at (Within p.config.max_retries) p.entering i b.entering_within in
    enqueue_cases HasBudget _ t
      (record {
        entering_within = left;
        queue_within = b.queue_within;
        held_within = b.held_within;
        running_within = b.running_within;
        finished_within = b.finished_within;
        answered = (tt, b.answered);
      })
      (λ _. record {
        entering_within = left;
        queue_within = push-Within _ p.task_queue t within b.queue_within;
        held_within = b.held_within;
        running_within = b.running_within;
        finished_within = b.finished_within;
        answered = b.answered;
      })

pub waiting-HasBudget :
    (p : AgentPool) (d : Dispatcher) (n : ℕ) (permit : Bool)
    → HeldWithin p.config.max_retries d
    → HasBudget p
    → HasBudget (record p { dispatcher = d; signals = n; permit = permit })
waiting-HasBudget p d n permit h b = record {
  entering_within = b.entering_within;
  queue_within = b.queue_within;
  held_within = h;
  running_within = b.running_within;
  finished_within = b.finished_within;
  answered = b.answered;
}

pub dispatch-HasBudget : (p : AgentPool) → HasBudget p → HasBudget (dispatch p)
unfolding launch
dispatch-HasBudget p b =
    dispatch_cases HasBudget p b (λ _. waiting-HasBudget p _ p.signals p.permit tt b)
      (λ _. waiting-HasBudget p _ p.signals p.permit tt b)
      (λ _ t rest h q _.
        let all = subst (All (Within p.config.max_retries)) q b.queue_within in
        record {
          entering_within = b.entering_within;
          queue_within = all.1;
          held_within = all.0;
          running_within = b.running_within;
          finished_within = b.finished_within;
          answered = b.answered;
        })
      (λ h t e. record {
        entering_within = b.entering_within;
        queue_within = b.queue_within;
        held_within = tt;
        running_within =
            (subst (HeldWithin p.config.max_retries) e b.held_within, b.running_within);
        finished_within = b.finished_within;
        answered = b.answered;
      })

pub finish-HasBudget :
    (p : AgentPool) (i : ℕ) (result : Reply) → HasBudget p → HasBudget (finish p i result)
unfolding release
finish-HasBudget p i result b = finish_cases HasBudget p i result b λ r e. record {
  entering_within = b.entering_within;
  queue_within = b.queue_within;
  held_within = b.held_within;
  running_within = All-erase_at _ p.running i b.running_within;
  finished_within = (
    All-get (λ q. q.queued.retries ≤ p.config.max_retries) p.running i r b.running_within e,
    b.finished_within,
  );
  answered = b.answered;
}

pub settle-HasBudget : (p : AgentPool) (i : ℕ) → HasBudget p → HasBudget (settle p i)
settle-HasBudget p i b = settle_cases HasBudget p i b λ s e.
    let within =
      All-get (λ q. q.queued.retries ≤ p.config.max_retries) p.finished i s b.finished_within e in
    let left =
      All-erase_at (λ q. q.queued.retries ≤ p.config.max_retries) p.finished i b.finished_within in
    settle_result_cases HasBudget _ s.queued s.result
      (λ res. record {
        entering_within = b.entering_within;
        queue_within = b.queue_within;
        held_within = b.held_within;
        running_within = b.running_within;
        finished_within = left;
        answered = (tt, b.answered);
      })
      (λ over. record {
        entering_within = b.entering_within;
        queue_within = b.queue_within;
        held_within = b.held_within;
        running_within = b.running_within;
        finished_within = left;
        answered = (omega arith, b.answered);
      })
      (λ again. record {
        entering_within = b.entering_within;
        queue_within = push-Within _ p.task_queue _ (omega arith) b.queue_within;
        held_within = b.held_within;
        running_within = b.running_within;
        finished_within = left;
        answered = b.answered;
      })

pub reject_all-IsPatient :
    (most : ℕ) (q : List QueuedTask) (replies : List (FrameId × Reply))
    → All (IsPatient most) replies
    → All (IsPatient most) (reject_all q replies)
unfolding reject_all
reject_all-IsPatient most [] replies h = h
reject_all-IsPatient most (t ∷ ts) replies h = reject_all-IsPatient most ts _ (tt, h)
