-- ===== src/Manager/Pool/Steps.antt =====
-- The pool's tasks interleaved: each event is one atomic step of a caller, of a loop of pool.rs or
-- of a spawned task, and a history is a list of them.
use oj_monorepo.Base.{ℕ, String, List, [], ◌∷◌, Result}
use oj_monorepo.Shared.Models.{VerdictTask}
use oj_monorepo.Shared.Protocol.{ProtocolError}
use oj_monorepo.Manager.Pool.{AgentPool}
use oj_monorepo.Manager.Pool.Agents.{add_agent, remove_agent, shutdown_agent}
use oj_monorepo.Manager.Pool.Tasks.{
  Connection, Receipt, submit_begin, submit_enqueue, dispatch, wake_signal, wake_permit, finish,
  execute_task, settle,
}
use oj_monorepo.Manager.Pool.Upkeep.{
  Probe, health_check, drain_scan, drain_retain, shutdown_begin, shutdown_reject, shutdown_mark,
  shutdown_clear,
}

pub data Event : Type 0 where
  submits : VerdictTask → Event
  enqueues : ℕ → Event
  dispatches : Event
  wakes_by_signal : Event
  wakes_by_permit : Event
  finishes : ℕ → Connection → Result (Unit {0}) ProtocolError → Receipt → Event
  settles : ℕ → Event
  adds : (id socket_path : String) → (now : ℕ) → Event
  removes : String → Event
  shuts_agent : String → Event
  probes : ℕ → Probe → Event
  scans : Event
  retains : Event
  begins_shutdown : Event
  rejects : Event
  marks : Event
  clears : Event

unfoldable pub step : AgentPool → Event → AgentPool
step p (Event.submits task) = (submit_begin p task).0
step p (Event.enqueues i) = submit_enqueue p i
step p Event.dispatches = dispatch p
step p Event.wakes_by_signal = wake_signal p
step p Event.wakes_by_permit = wake_permit p
step p (Event.finishes i connection sent receipt) =
    finish p i (execute_task p.config connection sent receipt)
step p (Event.settles i) = settle p i
step p (Event.adds id socket_path now) = add_agent p id socket_path now
step p (Event.removes id) = (remove_agent p id).0
step p (Event.shuts_agent id) = (shutdown_agent p id).0
step p (Event.probes h probe) = health_check p h probe
step p Event.scans = drain_scan p
step p Event.retains = drain_retain p
step p Event.begins_shutdown = shutdown_begin p
step p Event.rejects = shutdown_reject p
step p Event.marks = shutdown_mark p
step p Event.clears = shutdown_clear p

unfoldable pub run : AgentPool → List Event → AgentPool
run p [] = p
run p (e ∷ es) = run (step p e) es
