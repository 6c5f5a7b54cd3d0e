-- ===== src/Manager/Pool/Wakeup.antt =====
-- What wakes a dispatcher that waits for an agent.
use oj_monorepo.Base.{
  ℕ, ◌<◌, ◌≡◌, sym, subst, ◌∙◌, List, ◌∷◌, true, false, ◌∙◌, some, get_elem?, erase_at, ◌≤◌,
  u32_mod, if◌then◌else◌, ==_refl, ap, arith,
}
use oj_monorepo.Manager.Pool.{AgentPool, QueuedTask, Running, Reply, Dispatcher}
use oj_monorepo.Manager.Pool.Agents.{is_eligible}
use oj_monorepo.Manager.Pool.Tasks.{
  push_back, dispatch, dispatch_at, receive_signal, wake_signal, wake_signal_at, wake_permit,
  wake_permit_at, finish, release,
}

-- The dispatcher waits for an agent, and nothing that would wake it has been sent.
pub record IsWaiting (p : AgentPool) : Type 0 where
  pub parked : p.dispatcher ≡ Dispatcher.parked_busy
  pub no_signal : p.signals ≡ 0
  pub no_permit : p.permit ≡ false

waiting_stuck :
    (p : AgentPool) → IsWaiting p → (dispatch p ≡ p) × (wake_signal p ≡ p) × (wake_permit p ≡ p)
unfolding dispatch wake_signal wake_permit
waiting_stuck p w = (
  ap (dispatch_at p) w.parked,
  ap (wake_signal_at p) w.parked ∙ ap (receive_signal p) w.no_signal,
  ap (wake_permit_at p) w.parked
      ∙ ap (λ b. if b then record p { permit = false; dispatcher = Dispatcher.looking } else p)
          w.no_permit,
)

-- The agent at `h` has room, and nothing that the dispatcher or a submission does leads to it.
abbrev pub IsStranded : ℕ → AgentPool → Type 0
IsStranded h q =
    (is_eligible q h ≡ true)
    × (dispatch q ≡ q)
    × (wake_signal q ≡ q)
    × (wake_permit q ≡ q)
    × ((t : QueuedTask) → (push_back q t).signals ≡ 0)

finish_found :
    (p : AgentPool) (i : ℕ) (r : Running) (result : Reply)
    → get_elem? p.running i ≡ some r
    → finish p i result ≡ release (record p { running = erase_at p.running i }) r result
unfolding finish
finish_found p i r result e = rw (e, finish)

pushed_signals :
    (q : AgentPool) (t next : QueuedTask) (rest : List QueuedTask)
    → q.task_queue ≡ next ∷ rest
    → (push_back q t).signals ≡ q.signals
pushed_signals q t next rest e = ground arith

-- A wake-up is lost: let the dispatcher wait for an agent, with nothing sent to it, and let a task
-- finish on a healthy agent that is not shutting down and had two active tasks or more, within the
-- limit. The agent then has room for a task, and the dispatcher still waits: neither it nor its two
-- signals can take a step, and a task submitted to the queue, which is not empty, sends none.
pub finish-IsWaiting :
    (p : AgentPool) (i : ℕ) (r : Running) (result : Reply) (next : QueuedTask)
    (rest : List QueuedTask)
    → IsWaiting p
    → p.task_queue ≡ next ∷ rest
    → get_elem? p.running i ≡ some r
    → (p.store r.handle).healthy ≡ true
    → (p.store r.handle).shutting_down ≡ false
    → 1 < (p.store r.handle).active_tasks
    → (p.store r.handle).active_tasks ≤ p.config.max_concurrent_per_agent
    → p.config.max_concurrent_per_agent < u32_mod
    → IsStranded r.handle (finish p i result)
unfolding release
finish-IsWaiting p i r result next rest w queue found healthy open_ two within small =
    let q = release (record p { running = erase_at p.running i }) r result in
    let waiting : IsWaiting q = record {
      parked = w.parked;
      no_signal = w.no_signal;
      no_permit = ground arith;
    } in
    let stuck = waiting_stuck q waiting in
    subst (IsStranded r.handle) (sym (finish_found p i r result found)) (
      ground (arith, ==_refl r.handle),
      stuck.0,
      stuck.1,
      stuck.2,
      λ t. pushed_signals q t next rest queue ∙ w.no_signal,
    )
