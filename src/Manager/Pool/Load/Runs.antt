-- ===== src/Manager/Pool/Load/Runs.antt =====
-- Every step keeps the counters right, and so does every history.
use oj_monorepo.Base.{
  ℕ, ◌≤◌, ◌<◌, ◌≡◌, refl, ◌==◌, str_eq, String, List, [], ◌∷◌, Bool, u32_mod, All, keep, arith,
  if_cases, ◌∙◌,
}
use oj_monorepo.Manager.Pool.{AgentHandle, AgentPool, Running, Dispatcher, modify, new}
use oj_monorepo.Manager.Pool.Agents.{erase_id, fresh_handle}
use oj_monorepo.Manager.Pool.Upkeep.{
  probed, Probe, drain_scan, drain_retain, mark_all, shutdown_mark,
}
use oj_monorepo.Manager.Pool.Cases.{
  submit_begin_cases, enqueue_cases, submit_enqueue_cases, dispatch_cases, wake_signal_cases,
  wake_permit_cases, finish_cases, settle_result_cases, settle_cases, add_agent_cases,
  remove_agent_cases, shutdown_agent_cases, health_check_cases,
}
use oj_monorepo.Manager.Pool.Steps.{Event, step, run}
use oj_monorepo.Manager.Pool.Load.{
  executing, Loaded, IsLoaded, Loaded-store, Loaded-looking, choose_agent-Chosen, keep-All,
}
use oj_monorepo.Manager.Config.{PoolConfig}
use oj_monorepo.Manager.Pool.Settings.{run-config}
use oj_monorepo.Manager.Pool.Load.Moves.{launch-IsLoaded, release-IsLoaded, registered-IsLoaded}
use oj_monorepo.Manager.Pool.Agents.{mark_shutdown}
use oj_monorepo.Manager.Pool.Upkeep.{shutdown_begin, shutdown_reject, shutdown_clear}

pub keep_below :
    (next : ℕ) (p : ℕ → Bool) (hs : List ℕ)
    → All (λ h. h < next) hs
    → All (λ h. h < next) (keep p hs)
keep_below next p hs = keep-All _ _ p hs (λ h below _. below)

pub erase_id_below :
    (next : ℕ) (store : ℕ → AgentHandle) (id : String) (hs : List ℕ)
    → All (λ h. h < next) hs
    → All (λ h. h < next) (erase_id store id hs)
unfolding erase_id
erase_id_below next store id [] b = tt
erase_id_below next store id (h ∷ hs) b =
    if_cases (All (λ h. h < next)) (str_eq (store h).id id) _ _ (λ _. b.1)
      (λ _. (b.0, erase_id_below next store id hs b.1))

Loaded-agents :
    {cap : ℕ} {store : ℕ → AgentHandle} {next : ℕ} {agents : List ℕ} {running : List Running}
    {d : Dispatcher} (agents' : List ℕ)
    → All (λ h. h < next) agents'
    → Loaded cap store next agents running d
    → Loaded cap store next agents' running d
Loaded-agents agents' below v = record {
  small = v.small;
  active = v.active;
  room = v.room;
  agents_below = below;
  running_below = v.running_below;
  chosen = v.chosen;
}

probed-active :
    (threshold : ℕ) (probe : Probe) (a : AgentHandle)
    → (probed threshold probe a).active_tasks ≡ a.active_tasks
unfolding probed
probed-active threshold Probe.answered a = ground arith
probed-active threshold Probe.failed a = ground arith
probed-active threshold Probe.timed_out a = ground arith

modify-active :
    (f : AgentHandle → AgentHandle) (h : ℕ) (store : ℕ → AgentHandle) (j : ℕ)
    → ((a : AgentHandle) → (f a).active_tasks ≡ a.active_tasks)
    → (modify f h store j).active_tasks ≡ (store j).active_tasks
modify-active f h store j same =
    if_cases (λ (a : AgentHandle). a.active_tasks ≡ (store j).active_tasks) (j == h) _ _
      (λ _. same (store j)) (λ _. refl)

mark_all-active :
    (hs : List ℕ) (store : ℕ → AgentHandle) (j : ℕ)
    → (mark_all hs store j).active_tasks ≡ (store j).active_tasks
unfolding mark_all
mark_all-active [] store j = refl
mark_all-active (h ∷ hs) store j =
    mark_all-active hs (modify mark_shutdown h store) j
    ∙ modify-active mark_shutdown h store j (λ a. refl)

-- Every step keeps the counters right.
step-IsLoaded : (p : AgentPool) (e : Event) → IsLoaded p → IsLoaded (step p e)
unfolding step drain_scan drain_retain shutdown_begin shutdown_reject shutdown_mark shutdown_clear
step-IsLoaded p (Event.submits task) v = submit_begin_cases IsLoaded p task v v
step-IsLoaded p (Event.enqueues i) v =
    submit_enqueue_cases IsLoaded p i v λ t _. enqueue_cases IsLoaded _ t v (λ _. v)
step-IsLoaded p Event.dispatches v =
    dispatch_cases IsLoaded p v (λ _. Loaded-looking _ tt v) (λ _. Loaded-looking _ tt v)
      (λ _ t rest h _ e. Loaded-looking _ (choose_agent-Chosen p h t v e) v)
      (λ h t e. launch-IsLoaded p h t e v)
step-IsLoaded p Event.wakes_by_signal v =
    wake_signal_cases IsLoaded p v (λ n _ _. Loaded-looking _ tt v)
step-IsLoaded p Event.wakes_by_permit v =
    wake_permit_cases IsLoaded p v (λ _. Loaded-looking _ tt v)
step-IsLoaded p (Event.finishes i connection sent receipt) v =
    finish_cases IsLoaded p i _ v λ r e. release-IsLoaded p i r e v _
step-IsLoaded p (Event.settles i) v =
    settle_cases IsLoaded p i v
      λ f _. settle_result_cases IsLoaded _ f.queued f.result (λ _. v) (λ _. v) (λ _. v)
step-IsLoaded p (Event.adds id socket_path now) v =
    add_agent_cases IsLoaded p id socket_path now v
      (λ _. registered-IsLoaded p (fresh_handle id socket_path now) refl v)
step-IsLoaded p (Event.removes id) v =
    remove_agent_cases IsLoaded p id v
      (Loaded-agents _ (erase_id_below _ p.store id p.agents v.agents_below) v)
step-IsLoaded p (Event.shuts_agent id) v = shutdown_agent_cases IsLoaded p id v λ h.
    Loaded-store _ p.store _ _ _ _ p.dispatcher
      (λ j. modify-active mark_shutdown h p.store j (λ a. refl)) v
step-IsLoaded p (Event.probes h probe) v = health_check_cases IsLoaded p h probe v (
    Loaded-store _ p.store _ _ _ _ p.dispatcher
      (λ j.
        modify-active (probed p.config.health_check_failure_threshold probe) h p.store j
          (probed-active p.config.health_check_failure_threshold probe))
      v)
step-IsLoaded p Event.scans v = v
step-IsLoaded p Event.retains v =
    Loaded-agents _ (keep_below p.next_handle _ p.agents v.agents_below) v
step-IsLoaded p Event.begins_shutdown v = v
step-IsLoaded p Event.rejects v = v
step-IsLoaded p Event.marks v =
    Loaded-store _ p.store _ _ _ _ p.dispatcher (mark_all-active p.agents p.store) v
step-IsLoaded p Event.clears v = Loaded-agents [] tt v

run-IsLoaded : (p : AgentPool) (es : List Event) → IsLoaded p → IsLoaded (run p es)
unfolding run
run-IsLoaded p [] v = v
run-IsLoaded p (e ∷ es) v = run-IsLoaded (step p e) es (step-IsLoaded p e v)

-- Under every interleaving of callers, loops and spawned tasks, from a new pool whose
-- `max_concurrent_per_agent` is a `u32`, an agent's `active_tasks` is the number of spawned tasks
-- that execute on it, and never passes that limit.
pub active_tasks_exact :
    (config : PoolConfig) (es : List Event)
    → config.max_concurrent_per_agent < u32_mod
    → (h : ℕ)
    → (((run (new config) es).store h).active_tasks ≡ executing h (run (new config) es).running)
      × (((run (new config) es).store h).active_tasks ≤ config.max_concurrent_per_agent)
unfolding new
active_tasks_exact config es small h =
    let v = run-IsLoaded (new config) es (record {
      small = small;
      active = λ j. refl;
      room = λ j. omega arith;
      agents_below = tt;
      running_below = tt;
      chosen = tt;
    }) in
    (v.active h, rw (run-config (new config) es) at (v.room h))
