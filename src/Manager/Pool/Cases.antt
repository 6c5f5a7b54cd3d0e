-- ===== src/Manager/Pool/Cases.antt =====
-- The branches of each step of the pool: to prove a property of a step, prove it of each branch.
use oj_monorepo.Base.{
  ℕ, zero, suc, ◌≤◌, ◌<◌, ◌≡◌, refl, ltb, leb, str_eq, String, List, [], ◌∷◌, false, some, Result,
  ok, err, get_elem?, erase_at, length, find, arith, if_cases, Option-cases, inl, ◌⊎◌, inr,
}
use oj_monorepo.Shared.Models.{VerdictTask, VerdictTaskResult}
use oj_monorepo.Manager.Pool.{
  AgentPool, PoolError, QueuedTask, Running, Finished, Reply, Dispatcher, modify,
}
use oj_monorepo.Manager.Pool.Agents.{
  add_agent, registered, fresh_handle, has_id, remove_agent, erase_id, shutdown_agent,
  mark_shutdown, choose_agent,
}
use oj_monorepo.Manager.Pool.Tasks.{
  submit_begin, entered, submit_enqueue, enqueue, push_back, answer, dispatch, dispatch_at, pick,
  launch, receive_signal, wake_signal, wake_signal_at, wake_permit, wake_permit_at, finish, release,
  settle, settle_result, retry,
}
use oj_monorepo.Manager.Pool.Upkeep.{Probe, probed, health_check, checked}

-- The dispatcher waits.
abbrev pub IsParked : Dispatcher → Type 0
IsParked d = (d ≡ Dispatcher.parked_empty) ⊎ (d ≡ Dispatcher.parked_busy)

module _ {ℓ} (P : AgentPool → Type ℓ) (p : AgentPool) where
  pub submit_begin_cases :
      (task : VerdictTask) → P p → P (entered p task) → P (submit_begin p task).0
  unfolding submit_begin
  submit_begin_cases task refused taken =
      if_cases (λ (r : AgentPool × Result ℕ PoolError). P r.0) p.shutting_down _ _ (λ _. refused)
        (λ _. taken)

  pub enqueue_cases :
      (t : QueuedTask)
      → P (answer t.frame_id (err PoolError.queue_full) p)
      → (length p.task_queue < p.config.max_queue_size → P (push_back p t))
      → P (enqueue p t)
  unfolding enqueue
  enqueue_cases t full room =
      if_cases P (leb p.config.max_queue_size (length p.task_queue)) _ _ (λ _. full)
        (λ e. room (ground arith))

  pub submit_enqueue_cases :
      (i : ℕ)
      → P p
      → ((t : QueuedTask)
          → get_elem? p.entering i ≡ some t
          → P (enqueue (record p { entering = erase_at p.entering i }) t))
      → P (submit_enqueue p i)
  unfolding submit_enqueue
  submit_enqueue_cases i nobody found = elim (Option-cases (get_elem? p.entering i)) [
    | inl e ↦ rw (e, submit_enqueue) nobody
    | inr (t, e) ↦ rw (e, submit_enqueue) (found t e)
  ]

  pick_cases :
      (q : List QueuedTask)
      → p.task_queue ≡ q
      → (p.task_queue ≡ [] → P (record p { dispatcher = Dispatcher.parked_empty }))
      → P (record p { dispatcher = Dispatcher.parked_busy })
      → ((t : QueuedTask) (rest : List QueuedTask) (h : ℕ)
          → p.task_queue ≡ t ∷ rest
          → choose_agent p ≡ some h
          → P (record p { task_queue = rest; dispatcher = Dispatcher.picked h t }))
      → P (pick p q)
  unfolding pick
  pick_cases [] q empty busy chosen = empty q
  pick_cases (t ∷ rest) q empty busy chosen = elim (Option-cases (choose_agent p)) [
    | inl e ↦ rw (e, pick) busy
    | inr (h, e) ↦ rw (e, pick) (chosen t rest h q e)
  ]

  pub dispatch_parked_cases :
      (IsParked p.dispatcher → P p)
      → (p.dispatcher ≡ Dispatcher.looking → P (record p { dispatcher = Dispatcher.parked_empty }))
      → (p.dispatcher ≡ Dispatcher.looking → P (record p { dispatcher = Dispatcher.parked_busy }))
      → (p.dispatcher ≡ Dispatcher.looking
          → (t : QueuedTask) (rest : List QueuedTask) (h : ℕ) → p.task_queue ≡ t ∷ rest
          → choose_agent p ≡ some h
          → P (record p { task_queue = rest; dispatcher = Dispatcher.picked h t }))
      → ((h : ℕ) (t : QueuedTask) → p.dispatcher ≡ Dispatcher.picked h t → P (launch p h t))
      → P (dispatch p)
  unfolding dispatch
  dispatch_parked_cases waits empty busy chosen launched = at p.dispatcher refl
    where
      at : (d : Dispatcher) → p.dispatcher ≡ d → P (dispatch_at p d)
      at Dispatcher.looking e = pick_cases p.task_queue refl (λ _. empty e) (busy e) (chosen e)
      at (Dispatcher.picked h t) e = launched h t e
      at Dispatcher.parked_empty e = waits (inl e)
      at Dispatcher.parked_busy e = waits (inr e)

  pub dispatch_cases :
      P p
      → (p.dispatcher ≡ Dispatcher.looking → P (record p { dispatcher = Dispatcher.parked_empty }))
      → (p.dispatcher ≡ Dispatcher.looking → P (record p { dispatcher = Dispatcher.parked_busy }))
      → (p.dispatcher ≡ Dispatcher.looking
          → (t : QueuedTask) (rest : List QueuedTask) (h : ℕ) → p.task_queue ≡ t ∷ rest
          → choose_agent p ≡ some h
          → P (record p { task_queue = rest; dispatcher = Dispatcher.picked h t }))
      → ((h : ℕ) (t : QueuedTask) → p.dispatcher ≡ Dispatcher.picked h t → P (launch p h t))
      → P (dispatch p)
  dispatch_cases waits = dispatch_parked_cases (λ _. waits)

  -- A waiting dispatcher that wakes goes back to the head of its loop.
  pub wake_signal_cases :
      P p
      → ((n : ℕ)
          → IsParked p.dispatcher
          → p.signals ≡ suc n
          → P (record p { signals = n; dispatcher = Dispatcher.looking }))
      → P (wake_signal p)
  unfolding wake_signal
  wake_signal_cases asleep woken = at p.dispatcher refl
    where
      receive : (n : ℕ) → IsParked p.dispatcher → p.signals ≡ n → P (receive_signal p n)
      receive zero w e = asleep
      receive (suc n) w e = woken n w e

      at : (d : Dispatcher) → p.dispatcher ≡ d → P (wake_signal_at p d)
      at Dispatcher.looking e = asleep
      at (Dispatcher.picked h t) e = asleep
      at Dispatcher.parked_empty e = receive p.signals (inl e) refl
      at Dispatcher.parked_busy e = receive p.signals (inr e) refl

  pub wake_permit_cases :
      P p
      → (IsParked p.dispatcher → P (record p { permit = false; dispatcher = Dispatcher.looking }))
      → P (wake_permit p)
  unfolding wake_permit
  wake_permit_cases asleep woken = at p.dispatcher refl
    where
      at : (d : Dispatcher) → p.dispatcher ≡ d → P (wake_permit_at p d)
      at Dispatcher.looking e = asleep
      at (Dispatcher.picked h t) e = asleep
      at Dispatcher.parked_empty e = asleep
      at Dispatcher.parked_busy e = if_cases P p.permit _ _ (λ _. woken (inr e)) (λ _. asleep)

  pub finish_cases :
      (i : ℕ) (result : Reply)
      → P p
      → ((r : Running)
          → get_elem? p.running i ≡ some r
          → P (release (record p { running = erase_at p.running i }) r result))
      → P (finish p i result)
  unfolding finish
  finish_cases i result nobody found = elim (Option-cases (get_elem? p.running i)) [
    | inl e ↦ rw (e, finish) nobody
    | inr (r, e) ↦ rw (e, finish) (found r e)
  ]

  pub settle_result_cases :
      (t : QueuedTask) (result : Reply)
      → ((res : VerdictTaskResult) → P (answer t.frame_id (ok res) p))
      → (p.config.max_retries ≤ t.retries
          → P (answer t.frame_id (err (PoolError.max_retries_exceeded t.retries)) p))
      → (t.retries < p.config.max_retries → P (retry p t))
      → P (settle_result p t result)
  unfolding settle_result
  settle_result_cases t (ok res) answered gave_up again = answered res
  settle_result_cases t (err e) answered gave_up again =
      if_cases P (ltb t.retries p.config.max_retries) _ _ (λ e. again (ground arith))
        (λ e. gave_up (ground arith))

  pub settle_cases :
      (i : ℕ)
      → P p
      → ((f : Finished)
          → get_elem? p.finished i ≡ some f
          → P (settle_result (record p { finished = erase_at p.finished i }) f.queued f.result))
      → P (settle p i)
  unfolding settle
  settle_cases i nobody found = elim (Option-cases (get_elem? p.finished i)) [
    | inl e ↦ rw (e, settle) nobody
    | inr (f, e) ↦ rw (e, settle) (found f e)
  ]

  pub add_agent_cases :
      (id socket_path : String) (now : ℕ)
      → P p
      → (has_id p id ≡ false → P (registered p (fresh_handle id socket_path now)))
      → P (add_agent p id socket_path now)
  unfolding add_agent
  add_agent_cases id socket_path now known fresh = if_cases P (has_id p id) _ _ (λ _. known) fresh

  pub remove_agent_cases :
      (id : String)
      → P p
      → P (record p { agents = erase_id p.store id p.agents })
      → P (remove_agent p id).0
  unfolding remove_agent
  remove_agent_cases id unknown removed =
      elim (Option-cases (find (λ h. str_eq (p.store h).id id) p.agents)) [
        | inl e ↦ rw (e, remove_agent) unknown
        | inr (h, e) ↦ rw (e, remove_agent) removed
      ]

  pub shutdown_agent_cases :
      (id : String)
      → P p
      → ((h : ℕ) → P (record p { store = modify mark_shutdown h p.store }))
      → P (shutdown_agent p id).0
  unfolding shutdown_agent
  shutdown_agent_cases id unknown marked =
      elim (Option-cases (find (λ h. str_eq (p.store h).id id) p.agents)) [
        | inl e ↦ rw (e, shutdown_agent) unknown
        | inr (h, e) ↦ rw (e, shutdown_agent) (marked h)
      ]

  pub health_check_cases :
      (h : ℕ) (probe : Probe)
      → P p
      → P (checked p h (probed p.config.health_check_failure_threshold probe))
      → P (health_check p h probe)
  unfolding health_check
  health_check_cases h probe unknown known =
      if_cases P (ltb h p.next_handle) _ _ (λ _. known) (λ _. unknown)
