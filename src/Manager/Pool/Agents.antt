-- ===== src/Manager/Pool/Agents.antt =====
-- pool.rs: the registry of agents and its readings.
use oj_monorepo.Base.{
  ℕ, suc, ◌+◌, ◌%◌, ltb, str_eq, String, List, [], ◌∷◌, ◌++◌, Bool, true, false, not, ◌&&◌, Option,
  none, some, Result, ok, err, if◌then◌else◌, u32_mod, any, find, keep, length, min_by_key, tally,
}
use oj_monorepo.Shared.Wire.{PoolMetrics}
use oj_monorepo.Manager.Pool.{AgentHandle, AgentPool, PoolError, modify}

sum_active : (ℕ → AgentHandle) → List ℕ → ℕ
sum_active store [] = 0
sum_active store (h ∷ hs) = ((store h).active_tasks + sum_active store hs) % u32_mod

unfoldable pub metrics : AgentPool → PoolMetrics
unfolding sum_active
metrics p = record {
  queue_size = length p.task_queue;
  agent_count = length p.agents;
  healthy_agent_count = tally (λ h. (p.store h).healthy) p.agents;
  active_tasks = sum_active p.store p.agents;
  draining_agent_count = tally (λ h. (p.store h).shutting_down) p.agents;
  unhealthy_agent_count = tally (λ h. not (p.store h).healthy) p.agents;
}

-- The vector has a handle with this id.
abbrev pub has_id : AgentPool → String → Bool
has_id p id = any (λ h. str_eq (p.store h).id id) p.agents

abbrev pub fresh_handle : String → String → ℕ → AgentHandle
fresh_handle id socket_path now = record {
  id = id;
  socket_path = socket_path;
  active_tasks = 0;
  healthy = true;
  consecutive_failures = 0;
  created_at = now;
  shutting_down = false;
}

-- The pool with a new handle, and the dispatcher notified.
abbrev pub registered : AgentPool → AgentHandle → AgentPool
registered p a = record p {
  store = modify (λ _. a) p.next_handle p.store;
  next_handle = suc p.next_handle;
  agents = p.agents ++ p.next_handle ∷ [];
  permit = true;
}

-- `add_agent`, at the instant `now`.
unfoldable pub add_agent : AgentPool → String → String → ℕ → AgentPool
add_agent p id socket_path now =
    if has_id p id then p else registered p (fresh_handle id socket_path now)

-- The vector without the first handle of this id.
unfoldable pub erase_id : (ℕ → AgentHandle) → String → List ℕ → List ℕ
erase_id store id [] = []
erase_id store id (h ∷ hs) = if str_eq (store h).id id then hs else h ∷ erase_id store id hs

unfoldable pub remove_agent : AgentPool → String → AgentPool × Result ℕ PoolError
unfolding erase_id
remove_agent p id = elim (find (λ h. str_eq (p.store h).id id) p.agents) [
  | none ↦ (p, err PoolError.agent_unavailable)
  | some h ↦ (record p { agents = erase_id p.store id p.agents }, ok h)
]

abbrev pub mark_shutdown : AgentHandle → AgentHandle
mark_shutdown a = record a { shutting_down = true }

unfoldable pub shutdown_agent : AgentPool → String → AgentPool × Result (Unit {0}) PoolError
shutdown_agent p id = elim (find (λ h. str_eq (p.store h).id id) p.agents) [
  | none ↦ (p, err PoolError.agent_unavailable)
  | some h ↦ (record p { store = modify mark_shutdown h p.store }, ok tt)
]

unfoldable pub find_least_loaded_agent : AgentPool → Option ℕ
find_least_loaded_agent p =
    min_by_key (λ h. (p.store h).active_tasks)
      (keep (λ h. (p.store h).healthy && not (p.store h).shutting_down) p.agents)

-- The dispatcher's filter: healthy, not shutting down, and with room for one more task.
abbrev pub is_eligible : AgentPool → ℕ → Bool
is_eligible p h =
    (p.store h).healthy
    && (not (p.store h).shutting_down
        && ltb (p.store h).active_tasks p.config.max_concurrent_per_agent)

unfoldable pub choose_agent : AgentPool → Option ℕ
choose_agent p = min_by_key (λ h. (p.store h).active_tasks) (keep (is_eligible p) p.agents)
