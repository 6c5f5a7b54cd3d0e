-- ===== src/Manager/Pool/Retries/Attempts.antt =====
-- How often a task has been started, counted on the history and not by its own counter.
use oj_monorepo.Base.{
  ℕ, zero, suc, ◌+◌, ◌-◌, ◌≤◌, ◌<◌, ◌≡◌, refl, ap, ◌∙◌, inl, inr, arith, List, [], ◌∷◌, ◌++◌, some,
  get_elem?, erase_at, length, u64_mod, leb, ltb, ◌&&◌, if◌then◌else◌,
}
use oj_monorepo.Shared.Protocol.{FrameId}
use oj_monorepo.Manager.Config.{PoolConfig}
use oj_monorepo.Manager.Pool.{AgentPool, QueuedTask, Running, Finished, Reply, Dispatcher, new}
use oj_monorepo.Manager.Pool.Tasks.{
  submit_enqueue, dispatch, launch, wake_signal, wake_permit, finish, release, settle,
}
use oj_monorepo.Manager.Pool.Cases.{
  IsParked, submit_begin_cases, enqueue_cases, submit_enqueue_cases, dispatch_parked_cases,
  wake_signal_cases, wake_permit_cases, finish_cases, settle_result_cases, settle_cases,
  add_agent_cases, remove_agent_cases, shutdown_agent_cases, health_check_cases,
}
use oj_monorepo.Manager.Pool.Upkeep.{
  drain_scan, drain_retain, shutdown_begin, shutdown_reject, shutdown_mark, shutdown_clear,
}
use oj_monorepo.Manager.Pool.Steps.{Event, step, run}
use oj_monorepo.Manager.Pool.Frames.{carries, in_dispatcher, parked-none}
use oj_monorepo.Manager.Pool.Frames.Runs.{
  Accounted, IsInner, step-Keeps, step-Accounted, new-Accounted,
}
use oj_monorepo.Manager.Pool.Settings.{step-config}

module _ {A : Type 0} (g : A → ℕ) where
  abbrev pub total : List A → ℕ
  total [] = 0
  total (x ∷ xs) = g x + total xs

  pub total-append : (xs ys : List A) → total (xs ++ ys) ≡ total xs + total ys
  total-append [] ys = omega arith
  total-append (x ∷ xs) ys = omega (arith, total-append xs ys)

  pub total-erase_at :
      (xs : List A) (i : ℕ) (x : A)
      → get_elem? xs i ≡ some x
      → total xs ≡ g x + total (erase_at xs i)
  total-erase_at [] i x h = absurd (cc)
  total-erase_at (y ∷ ys) zero x h = let q : y ≡ x = cc in omega (arith, ap g q)
  total-erase_at (y ∷ ys) (suc i) x h = omega (arith, total-erase_at ys i x h)

module _ (f : FrameId) (most : ℕ) where
  -- How often a task may still be started, before and after the start of an attempt.
  abbrev pub before_start : QueuedTask → ℕ
  before_start t = if carries f t then suc (most - t.retries) else 0

  abbrev pub after_start : QueuedTask → ℕ
  after_start t = if carries f t then most - t.retries else 0

  abbrev pub held : Dispatcher → ℕ
  held (Dispatcher.picked h t) = before_start t
  held _ = 0

  -- The attempts that are left for the tasks of the frame.
  abbrev pub attempts_left : AgentPool → ℕ
  attempts_left p =
      total before_start p.entering
      + (total before_start p.task_queue
          + (held p.dispatcher
              + (total (λ (r : Running). after_start r.queued) p.running
                  + total (λ (s : Finished). after_start s.queued) p.finished)))

  parked-held : (d : Dispatcher) → IsParked d → held d ≡ 0
  parked-held d (inl e) = rw e refl
  parked-held d (inr e) = rw e refl

  module _ (p : AgentPool) where
    -- A step leaves no more attempts than there were.
    abbrev Lowers : AgentPool → Type 0
    Lowers q = attempts_left q ≤ attempts_left p

    submit_enqueue-Lowers : (i : ℕ) → Lowers (submit_enqueue p i)
    submit_enqueue-Lowers i = submit_enqueue_cases Lowers p i (omega arith) λ t e.
        enqueue_cases Lowers _ t (omega (arith, total-erase_at before_start p.entering i t e)) (λ _.
          omega (
            arith,
            total-erase_at before_start p.entering i t e,
            total-append before_start p.task_queue (t ∷ []),
          ))

    wake_signal-Lowers : Lowers (wake_signal p)
    wake_signal-Lowers = wake_signal_cases Lowers p (omega arith) (λ n w _. omega arith)

    wake_permit-Lowers : Lowers (wake_permit p)
    wake_permit-Lowers = wake_permit_cases Lowers p (omega arith) (λ w. omega arith)

    finish-Lowers : (i : ℕ) (result : Reply) → Lowers (finish p i result)
    unfolding release
    finish-Lowers i result =
        finish_cases Lowers p i result (omega arith) λ r e.
          omega (arith, total-erase_at (λ (r : Running). after_start r.queued) p.running i r e)

    -- One start takes one of the attempts that are left.
    pub dispatch-start : in_dispatcher f p.dispatcher + attempts_left (dispatch p) ≤ attempts_left p
    unfolding launch
    dispatch-start =
        dispatch_parked_cases
          (λ q. in_dispatcher f p.dispatcher + attempts_left q ≤ attempts_left p) p
          (λ w. omega (arith, parked-none f p.dispatcher w))
          (λ e. omega (arith, ap (in_dispatcher f) e)) (λ e. omega (arith, ap (in_dispatcher f) e))
          (λ e t rest h q _.
            omega (arith, ap (in_dispatcher f) e, ap held e, ap (total before_start) q))
          (λ h t e. ground (arith, ap (in_dispatcher f) e, ap held e))

  settle-Lowers : (p : AgentPool) (i : ℕ) → p.config.max_retries ≡ most → Lowers p (settle p i)
  settle-Lowers p i m = settle_cases (Lowers p) p i (omega arith) λ s e.
      let gone = total-erase_at (λ (s : Finished). after_start s.queued) p.finished i s e in
      settle_result_cases (Lowers p) _ s.queued s.result (λ res. omega (arith, gone))
        (λ over. omega (arith, gone))
        (λ again.
          let queued =
            total-append before_start p.task_queue
              (record (s.queued) { retries = s.queued.retries + 1 } ∷ []) in
          ground (arith, gone, queued, again, m))

  -- Whether this event starts an attempt of the frame.
  abbrev pub starts : AgentPool → Event → ℕ
  starts p Event.dispatches = in_dispatcher f p.dispatcher
  starts p _ = 0

  step-start :
      (p : AgentPool) (e : Event)
      → IsInner e
      → p.config.max_retries ≡ most
      → starts p e + attempts_left (step p e) ≤ attempts_left p
  unfolding step drain_scan drain_retain shutdown_begin shutdown_reject shutdown_mark shutdown_clear
  step-start p (Event.submits task) h m = absurd h
  step-start p (Event.enqueues i) h m = omega (arith, submit_enqueue-Lowers p i)
  step-start p Event.dispatches h m = dispatch-start p
  step-start p Event.wakes_by_signal h m = omega (arith, wake_signal-Lowers p)
  step-start p Event.wakes_by_permit h m = omega (arith, wake_permit-Lowers p)
  step-start p (Event.finishes i connection sent receipt) h m = omega (arith, finish-Lowers p i _)
  step-start p (Event.settles i) h m = omega (arith, settle-Lowers p i m)
  step-start p (Event.adds id socket_path now) h m =
      omega
        (arith, add_agent_cases (Lowers p) p id socket_path now (omega arith) (λ _. omega arith))
  step-start p (Event.removes id) h m =
      omega (arith, remove_agent_cases (Lowers p) p id (omega arith) (omega arith))
  step-start p (Event.shuts_agent id) h m =
      omega (arith, shutdown_agent_cases (Lowers p) p id (omega arith) (λ _. omega arith))
  step-start p (Event.probes h probe) i m =
      omega (arith, health_check_cases (Lowers p) p h probe (omega arith) (omega arith))
  step-start p Event.scans h m = omega arith
  step-start p Event.retains h m = omega arith
  step-start p Event.begins_shutdown h m = omega arith
  step-start p Event.rejects h m = omega arith
  step-start p Event.marks h m = omega arith
  step-start p Event.clears h m = omega arith

  -- What a frame id that has been handed out may use.
  abbrev pub allowance : AgentPool → ℕ
  allowance p = if leb 1 f && ltb f p.next_frame_id then suc most else 0

  -- A step spends attempts, or hands a frame id out with its allowance.
  abbrev Spends : AgentPool → Event → AgentPool → Type 0
  Spends p e q = starts p e + attempts_left q + allowance p ≤ attempts_left p + allowance q

  inner-Spends :
      (p : AgentPool) (e : Event) → IsInner e → p.config.max_retries ≡ most → Spends p e (step p e)
  inner-Spends p e i m =
      let same : allowance (step p e) ≡ allowance p =
        ap (λ n. if leb 1 f && ltb f n then suc most else 0) (step-Keeps p e i).same_next in
      omega (arith, same, step-start p e i m)

  step-Spends :
      (n : ℕ) (p : AgentPool) (e : Event)
      → suc (suc n) < u64_mod
      → Accounted n p
      → p.config.max_retries ≡ most
      → Spends p e (step p e)
  unfolding step
  step-Spends n p (Event.submits task) small a m =
      submit_begin_cases (Spends p (Event.submits task)) p task (omega arith)
        (ground (arith, a.positive, a.few, small))
  step-Spends n p e small a m = inner-Spends p e tt m

  abbrev pub starts_in : AgentPool → List Event → ℕ
  starts_in p [] = 0
  starts_in p (e ∷ es) = starts p e + starts_in (step p e) es

  run-Spends :
      (n : ℕ) (p : AgentPool) (es : List Event)
      → suc (n + length es) < u64_mod
      → Accounted n p
      → p.config.max_retries ≡ most
      → starts_in p es + allowance p ≤ attempts_left p + allowance (run p es)
  unfolding run
  run-Spends n p [] small a m = omega arith
  run-Spends n p (e ∷ es) small a m = omega (
    arith,
    step-Spends n p e (omega arith) a m,
    run-Spends (suc n) (step p e) es (omega arith) (step-Accounted n p e (omega arith) a)
        (ap (λ (c : PoolConfig). c.max_retries) (step-config p e) ∙ m),
  )

-- From a new pool and for fewer than 2 ^ 64 - 1 steps, the task of a frame id is started on an agent
-- once and at most `max_retries` times again.
pub starts_bounded :
    (config : PoolConfig) (es : List Event) (f : FrameId)
    → suc (length es) < u64_mod
    → starts_in f config.max_retries (new config) es ≤ suc config.max_retries
unfolding new
starts_bounded config es f small = ground (
  arith,
  run-Spends f config.max_retries 0 (new config) es (omega arith) (new-Accounted config) refl,
)
