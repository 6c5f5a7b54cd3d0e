-- ===== src/Manager/Pool.antt =====
-- services/crates/judge_core_manager/src/pool.rs: the data of the agent pool.
-- An `AgentHandle` is cloned with its atomics shared, so handles are addresses of a store: the
-- pool's vector, the dispatcher and the running tasks hold addresses, and a handle that has left
-- the vector is still updated through them.
pub mod Agents
pub mod Tasks
pub mod Upkeep
pub mod Steps
pub mod Settings
pub mod Wakeup
pub mod Admission
pub mod Abandoned
pub mod Registry
pub mod Choice
pub mod Health
pub mod Retries
pub mod Frames
pub mod Load
pub mod Cases
use oj_monorepo.Base.{
  ℕ, suc, ◌+◌, ◌-◌, ◌%◌, ◌==◌, String, List, [], ◌∷◌, Bool, true, false, Option, none, some, Result,
  if◌then◌else◌, u32_mod,
}
use oj_monorepo.Shared.Models.{VerdictTask, VerdictTaskResult}
use oj_monorepo.Shared.Protocol.{FrameId, ProtocolError}
use oj_monorepo.Manager.Config.{PoolConfig}

-- provisioner.rs: errors of other libraries are carried by their message.
pub data ProvisionError : Type 0 where
  rpc : String → ProvisionError
  io : String → ProvisionError
  socket_timeout : ℕ → ProvisionError
  serialization : String → ProvisionError
  oci_spec : String → ProvisionError

pub data PoolError : Type 0 where
  queue_full : PoolError
  max_retries_exceeded : (retries : ℕ) → PoolError
  agent_unavailable : PoolError
  connection_failed : String → PoolError
  task_timeout : ℕ → PoolError
  protocol : ProtocolError → PoolError
  provision : ProvisionError → PoolError
  agent_busy : (agent_id : String) → PoolError
  shutting_down : PoolError

pub record AgentHandle : Type 0 where
  pub id : String
  pub socket_path : String
  pub active_tasks : ℕ
  pub healthy : Bool
  pub consecutive_failures : ℕ
  pub created_at : ℕ
  pub shutting_down : Bool

-- The one-shot channel of a task is named by its frame id.
pub record QueuedTask : Type 0 where
  pub frame_id : FrameId
  pub task : VerdictTask
  pub retries : ℕ

abbrev pub Reply : Type 0
Reply = Result VerdictTaskResult PoolError

-- A spawned task that is executing on an agent.
pub record Running : Type 0 where
  pub handle : ℕ
  pub queued : QueuedTask

-- A spawned task that has released its agent, and has not yet answered or queued its task again.
pub record Finished : Type 0 where
  pub queued : QueuedTask
  pub result : Reply

-- Where `dispatch_loop` stands: at its head, between taking a task and starting it, waiting on the
-- task signal, or waiting on either signal.
pub data Dispatcher : Type 0 where
  looking : Dispatcher
  picked : ℕ → QueuedTask → Dispatcher
  parked_empty : Dispatcher
  parked_busy : Dispatcher

pub record AgentPool : Type 0 where
  pub config : PoolConfig
  -- the handles behind their addresses, and the first free address
  pub store : ℕ → AgentHandle
  pub next_handle : ℕ
  pub agents : List ℕ
  pub task_queue : List QueuedTask
  pub next_frame_id : ℕ
  -- messages in the signal channel, and the stored permit of `agent_available`
  pub signals : ℕ
  pub permit : Bool
  pub shutting_down : Bool
  pub dispatcher : Dispatcher
  -- calls of `submit` that have a frame id and do not hold the queue yet
  pub entering : List QueuedTask
  pub running : List Running
  pub finished : List Finished
  -- what the one-shot channels have been sent
  pub replies : List (FrameId × Reply)
  -- handles that `drain_loop` has chosen and not yet removed
  pub candidates : List ℕ

-- An address that holds no handle yet.
abbrev pub no_handle : AgentHandle
no_handle = record {
  id = "";
  socket_path = "";
  active_tasks = 0;
  healthy = false;
  consecutive_failures = 0;
  created_at = 0;
  shutting_down = false;
}

unfoldable pub new : PoolConfig → AgentPool
new config = record {
  config = config;
  store = λ _. no_handle;
  next_handle = 0;
  agents = [];
  task_queue = [];
  next_frame_id = 1;
  signals = 0;
  permit = false;
  shutting_down = false;
  dispatcher = Dispatcher.looking;
  entering = [];
  running = [];
  finished = [];
  replies = [];
  candidates = [];
}

-- An atomic update of the handle at an address.
abbrev pub modify : (AgentHandle → AgentHandle) → ℕ → (ℕ → AgentHandle) → ℕ → AgentHandle
modify f h store j = if j == h then f (store j) else store j

-- `fetch_add(1)` and `fetch_sub(1)` on an `AtomicU32`.
abbrev pub wrapping_inc : ℕ → ℕ
wrapping_inc n = (n + 1) % u32_mod

abbrev pub wrapping_dec : ℕ → ℕ
wrapping_dec n = (n + u32_mod - 1) % u32_mod
