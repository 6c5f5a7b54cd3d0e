-- ===== src/Manager/Pool/Upkeep.antt =====
-- pool.rs: health checks, draining and shutdown.
use oj_monorepo.Base.{
  ℕ, ltb, ◌==◌, str_eq, List, [], ◌∷◌, Bool, true, not, ◌&&◌, ◌||◌, err, if◌then◌else◌, any, keep,
}
use oj_monorepo.Manager.Pool.{
  AgentHandle, AgentPool, PoolError, QueuedTask, Reply, modify, wrapping_inc,
}
use oj_monorepo.Manager.Pool.Agents.{mark_shutdown}
use oj_monorepo.Shared.Protocol.{FrameId}

-- One agent's heartbeat: answered, refused with an error, or timed out.
pub data Probe : Type 0 where
  answered : Probe
  failed : Probe
  timed_out : Probe

-- The handle after a probe that failed: `healthy` is the new reading of its health.
abbrev pub record_health : AgentHandle → Bool → AgentHandle
record_health a healthy =
    if not a.healthy && healthy
    then record a { healthy = healthy; consecutive_failures = 0 }
    else record a { healthy = healthy }

count_failure : ℕ → AgentHandle → AgentHandle
count_failure threshold a =
    record_health (record a { consecutive_failures = wrapping_inc a.consecutive_failures })
      (ltb (wrapping_inc a.consecutive_failures) threshold)

unfoldable pub probed : ℕ → Probe → AgentHandle → AgentHandle
unfolding count_failure
probed threshold Probe.answered a = record_health (record a { consecutive_failures = 0 }) true
probed threshold Probe.failed a = count_failure threshold a
probed threshold Probe.timed_out a = count_failure threshold a

abbrev pub checked : AgentPool → ℕ → (AgentHandle → AgentHandle) → AgentPool
checked p h f = record p {
  store = modify f h p.store;
  permit = (if not (p.store h).healthy && (f (p.store h)).healthy then true else p.permit);
}

-- The part of `health_check_loop` for one handle of the snapshot. A recovery is notified.
unfoldable pub health_check : AgentPool → ℕ → Probe → AgentPool
unfolding probed
health_check p h probe =
    if ltb h p.next_handle
    then checked p h (probed p.config.health_check_failure_threshold probe)
    else p

-- The handles that `drain_loop` takes out: unhealthy, or shutting down with no task.
abbrev pub is_drained : AgentHandle → Bool
is_drained a = not a.healthy || (a.shutting_down && (a.active_tasks == 0))

unfoldable pub drain_scan : AgentPool → AgentPool
drain_scan p = record p { candidates = keep (λ h. is_drained (p.store h)) p.agents }

unfoldable pub drain_retain : AgentPool → AgentPool
drain_retain p = record p {
  agents = keep (λ h. not (any (λ c. str_eq (p.store c).id (p.store h).id) p.candidates)) p.agents;
  candidates = [];
}

-- `shutdown`, between its locks: the flag, the queue, the agents' flags, and, once no task is
-- active or the drain timeout is over, the vector.
unfoldable pub shutdown_begin : AgentPool → AgentPool
shutdown_begin p = record p { shutting_down = true }

unfoldable pub reject_all : List QueuedTask → List (FrameId × Reply) → List (FrameId × Reply)
reject_all [] replies = replies
reject_all (t ∷ ts) replies = reject_all ts ((t.frame_id, err PoolError.shutting_down) ∷ replies)

unfoldable pub shutdown_reject : AgentPool → AgentPool
unfolding reject_all
shutdown_reject p = record p { task_queue = []; replies = reject_all p.task_queue p.replies }

unfoldable pub mark_all : List ℕ → (ℕ → AgentHandle) → ℕ → AgentHandle
mark_all [] store = store
mark_all (h ∷ hs) store = mark_all hs (modify mark_shutdown h store)

unfoldable pub shutdown_mark : AgentPool → AgentPool
unfolding mark_all
shutdown_mark p = record p { store = mark_all p.agents p.store }

unfoldable pub shutdown_clear : AgentPool → AgentPool
shutdown_clear p = record p { agents = [] }
