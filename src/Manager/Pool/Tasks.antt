-- ===== src/Manager/Pool/Tasks.antt =====
-- pool.rs: the way of a task, from `submit` through `dispatch_loop` to its answer.
use oj_monorepo.Base.{
  ℕ, zero, suc, ◌+◌, ◌/◌, ◌%◌, leb, ltb, ◌==◌, String, List, [], ◌∷◌, ◌++◌, true, false, none, some,
  Result, ok, err, if◌then◌else◌, u64_mod, length, get_elem?, erase_at,
}
use oj_monorepo.Shared.Models.{VerdictTask, VerdictTaskResult}
use oj_monorepo.Shared.Protocol.{FrameId, ProtocolError}
use oj_monorepo.Manager.Config.{PoolConfig}
use oj_monorepo.Manager.Pool.{
  AgentPool, PoolError, QueuedTask, Reply, Running, Dispatcher, modify, wrapping_inc, wrapping_dec,
}
use oj_monorepo.Manager.Pool.Agents.{choose_agent}

-- A new frame id, and a call that waits for the queue.
abbrev pub entered : AgentPool → VerdictTask → AgentPool
entered p task = record p {
  next_frame_id = (p.next_frame_id + 1) % u64_mod;
  entering = record { frame_id = p.next_frame_id; task = task; retries = 0 } ∷ p.entering;
}

-- `submit` up to the lock on the queue: refused, or a frame id is taken.
unfoldable pub submit_begin : AgentPool → VerdictTask → AgentPool × Result FrameId PoolError
submit_begin p task =
    if p.shutting_down
    then (p, err PoolError.shutting_down)
    else (entered p task, ok p.next_frame_id)

abbrev pub answer : FrameId → Reply → AgentPool → AgentPool
answer id reply p = record p { replies = (id, reply) ∷ p.replies }

-- The task goes to the end of the queue, and a message is sent if the queue was empty.
abbrev pub push_back : AgentPool → QueuedTask → AgentPool
push_back p t = record p {
  task_queue = p.task_queue ++ t ∷ [];
  signals = p.signals + (elim p.task_queue [ [] ↦ 1 | _ ∷ _ ↦ 0 ]);
}

-- `submit` under the lock on the queue, for the call at index `i` of those that wait for it.
unfoldable pub enqueue : AgentPool → QueuedTask → AgentPool
enqueue p t =
    if leb p.config.max_queue_size (length p.task_queue)
    then answer t.frame_id (err PoolError.queue_full) p
    else push_back p t

unfoldable pub submit_enqueue : AgentPool → ℕ → AgentPool
unfolding enqueue
submit_enqueue p i = elim (get_elem? p.entering i) [
  | none ↦ p
  | some t ↦ enqueue (record p { entering = erase_at p.entering i }) t
]

-- The head of `dispatch_loop`, under the locks on the queue and on the agents.
unfoldable pub pick : AgentPool → List QueuedTask → AgentPool
pick p [] = record p { dispatcher = Dispatcher.parked_empty }
pick p (t ∷ rest) = elim (choose_agent p) [
  | none ↦ record p { dispatcher = Dispatcher.parked_busy }
  | some h ↦ record p { task_queue = rest; dispatcher = Dispatcher.picked h t }
]

-- The rest of the round: the agent's counter goes up and the task is spawned.
unfoldable pub launch : AgentPool → ℕ → QueuedTask → AgentPool
launch p h t = record p {
  store = modify (λ a. record a { active_tasks = wrapping_inc a.active_tasks }) h p.store;
  running = record { handle = h; queued = t } ∷ p.running;
  dispatcher = Dispatcher.looking;
}

unfoldable pub dispatch_at : AgentPool → Dispatcher → AgentPool
dispatch_at p Dispatcher.looking = pick p p.task_queue
dispatch_at p (Dispatcher.picked h t) = launch p h t
dispatch_at p Dispatcher.parked_empty = p
dispatch_at p Dispatcher.parked_busy = p

unfoldable pub dispatch : AgentPool → AgentPool
unfolding dispatch_at pick launch
dispatch p = dispatch_at p p.dispatcher

-- A waiting dispatcher receives a message of the signal channel.
abbrev pub receive_signal : AgentPool → ℕ → AgentPool
receive_signal p zero = p
receive_signal p (suc n) = record p { signals = n; dispatcher = Dispatcher.looking }

unfoldable pub wake_signal_at : AgentPool → Dispatcher → AgentPool
wake_signal_at p Dispatcher.looking = p
wake_signal_at p (Dispatcher.picked h t) = p
wake_signal_at p Dispatcher.parked_empty = receive_signal p p.signals
wake_signal_at p Dispatcher.parked_busy = receive_signal p p.signals

unfoldable pub wake_signal : AgentPool → AgentPool
unfolding wake_signal_at
wake_signal p = wake_signal_at p p.dispatcher

-- A dispatcher that found no agent takes the permit of `agent_available`.
unfoldable pub wake_permit_at : AgentPool → Dispatcher → AgentPool
wake_permit_at p Dispatcher.parked_busy =
    if p.permit then record p { permit = false; dispatcher = Dispatcher.looking } else p
wake_permit_at p _ = p

unfoldable pub wake_permit : AgentPool → AgentPool
unfolding wake_permit_at
wake_permit p = wake_permit_at p p.dispatcher

-- What the socket answers to `execute_task`; `timed_out` is an elapsed `timeout`.
pub data Connection : Type 0 where
  timed_out : Connection
  failed : String → Connection
  connected : Connection

pub data Receipt : Type 0 where
  timed_out : Receipt
  failed : ProtocolError → Receipt
  heartbeat : Receipt
  frame : FrameId → VerdictTaskResult → Receipt

receipt_result : PoolConfig → Receipt → Reply
receipt_result config Receipt.timed_out = err (PoolError.task_timeout (config.task_timeout / 1000))
receipt_result config (Receipt.failed e) = err (PoolError.protocol e)
receipt_result config Receipt.heartbeat =
    err (PoolError.protocol ProtocolError.unexpected_heartbeat)
receipt_result config (Receipt.frame id result) = ok result

unfoldable pub execute_task :
    PoolConfig → Connection → Result (Unit {0}) ProtocolError → Receipt → Reply
unfolding receipt_result
execute_task config Connection.timed_out sent receipt = err (PoolError.task_timeout 5)
execute_task config (Connection.failed e) sent receipt = err (PoolError.connection_failed e)
execute_task config Connection.connected (err e) receipt = err (PoolError.protocol e)
execute_task config Connection.connected (ok _) receipt = receipt_result config receipt

-- The spawned task at index `i` has its result and releases its agent.
unfoldable pub release : AgentPool → Running → Reply → AgentPool
release p r result = record p {
  store = modify (λ a. record a { active_tasks = wrapping_dec a.active_tasks }) r.handle p.store;
  permit = (if (p.store r.handle).active_tasks == 1 then true else p.permit);
  finished = record { queued = r.queued; result = result } ∷ p.finished;
}

unfoldable pub finish : AgentPool → ℕ → Reply → AgentPool
unfolding release
finish p i result = elim (get_elem? p.running i) [
  | none ↦ p
  | some r ↦ release (record p { running = erase_at p.running i }) r result
]

abbrev pub retry : AgentPool → QueuedTask → AgentPool
retry p t = record p {
  task_queue = p.task_queue ++ record t { retries = t.retries + 1 } ∷ [];
  signals = p.signals + 1;
}

-- It then answers, or queues its task again.
unfoldable pub settle_result : AgentPool → QueuedTask → Reply → AgentPool
settle_result p t (ok res) = answer t.frame_id (ok res) p
settle_result p t (err e) =
    if ltb t.retries p.config.max_retries
    then retry p t
    else answer t.frame_id (err (PoolError.max_retries_exceeded t.retries)) p

unfoldable pub settle : AgentPool → ℕ → AgentPool
unfolding settle_result
settle p i = elim (get_elem? p.finished i) [
  | none ↦ p
  | some f ↦ settle_result (record p { finished = erase_at p.finished i }) f.queued f.result
]
