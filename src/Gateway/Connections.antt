-- ===== src/Gateway/Connections.antt =====
-- services/crates/gateway/src/main.rs: accepting connections, the limit on them, and the drain. The
-- semaphore of tokio is its number of free permits, and a JoinSet holds a task until it is joined.
pub mod Permits
use oj_monorepo.Base.{
  ℕ, suc, ◌+◌, ◌-◌, ltb, String, List, [], ◌∷◌, Bool, true, false, Option, none, some, Result, ok,
  err, if◌then◌else◌,
}
use oj_monorepo.Shared.Headers.{HeaderValue}
use oj_monorepo.Gateway.Requests.{Request, Response}

-- How the loop of `main` goes on.
pub data Phase : Type 0 where
  accepting : Phase
  draining : Phase
  failed : (error : String) → Phase
  finished : Phase

pub record Server : Type 0 where
  -- The free permits of the semaphore.
  pub permits : ℕ
  -- The tasks in the JoinSet; those of them that handle a connection, and that answer 503.
  pub handles : ℕ
  pub serving : ℕ
  pub refusing : ℕ
  pub phase : Phase

pub data Event : Type 0 where
  accepted : Event
  accept_failed : (error : String) → Event
  served : Event
  refused : Event
  interrupted : Event
  drained : Event
  drain_timed_out : Event

unfoldable pub listening : ℕ → Server
listening max_connections = record {
  permits = max_connections;
  handles = 0;
  serving = 0;
  refusing = 0;
  phase = Phase.accepting;
}

-- `try_acquire_owned`, and the drop of the permit.
unfoldable pub try_acquire : Server → Option Server
try_acquire s = if ltb 0 s.permits then some (record s { permits = s.permits - 1 }) else none

unfoldable pub drop_permit : Server → Server
drop_permit s = record s { permits = s.permits + 1 }

unfoldable pub spawn_handler : Server → Server
spawn_handler s = record s { handles = s.handles + 1; serving = s.serving + 1 }

unfoldable pub spawn_refusal : Server → Server
spawn_refusal s = record s { handles = s.handles + 1; refusing = s.refusing + 1 }

-- The two arms of an accepted connection. The task does not use `_permit`, so it is not moved into
-- the task, and is dropped at the end of the arm.
unfoldable pub accept_connection : Server → Server
unfolding try_acquire drop_permit spawn_handler spawn_refusal
accept_connection s = elim (try_acquire s) [
  | none ↦ spawn_refusal s
  | some acquired ↦ drop_permit (spawn_handler acquired)
]

-- An event of the loop of `main`, while it accepts.
unfoldable pub on_accepting : Event → Server → Server
unfolding accept_connection
on_accepting Event.accepted s = accept_connection s
on_accepting (Event.accept_failed e) s = record s { phase = Phase.failed e }
on_accepting Event.served s = record s { serving = s.serving - 1 }
on_accepting Event.refused s = record s { refusing = s.refusing - 1 }
on_accepting Event.interrupted s = record s { phase = Phase.draining }
on_accepting Event.drained s = s
on_accepting Event.drain_timed_out s = s

-- The drain ends when every task is joined, or when its time is over.
unfoldable pub on_draining : Event → Server → Server
on_draining Event.accepted s = s
on_draining (Event.accept_failed e) s = s
on_draining Event.served s = record s { serving = s.serving - 1 }
on_draining Event.refused s = record s { refusing = s.refusing - 1 }
on_draining Event.interrupted s = s
on_draining Event.drained s = record s { handles = 0; phase = Phase.finished }
on_draining Event.drain_timed_out s = record s { phase = Phase.finished }

unfoldable pub on_phase : Phase → Event → Server → Server
unfolding on_accepting on_draining
on_phase Phase.accepting e s = on_accepting e s
on_phase Phase.draining e s = on_draining e s
on_phase (Phase.failed x) e s = s
on_phase Phase.finished e s = s

unfoldable pub advance : Event → Server → Server
unfolding on_phase
advance e s = on_phase s.phase e s

unfoldable pub advance_all : List Event → Server → Server
unfolding advance
advance_all [] s = s
advance_all (e ∷ es) s = advance_all es (advance e s)

-- `ConnectionService::call`: the request with the address of its peer.
unfoldable pub with_peer : String → Request → Request
with_peer peer_addr req = record req { peer_addr = some peer_addr }

-- `handle_connection`, at one request: a connection whose address cannot be told is dropped.
unfoldable pub handle_connection :
    Result String String → (Request → Response) → Request → Option Response
unfolding with_peer
handle_connection (err e) service req = none
handle_connection (ok peer_addr) service req = some (service (with_peer peer_addr req))

-- `send_503`.
abbrev pub unavailable : Response
unavailable = record {
  status = 503;
  headers =
      ("content-type", HeaderValue.text "text/plain")
      ∷ ("connection", HeaderValue.text "close")
      ∷ [];
  body = "503 Service Unavailable\n";
}
