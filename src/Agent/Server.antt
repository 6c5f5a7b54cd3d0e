-- ===== src/Agent/Server.antt =====
-- services/crates/judge_core_agent/src/main.rs: what the agent does with one connection. The listener
-- and the drain are calls of tokio.
pub mod Exchange
mod Tests
use oj_monorepo.Base.{ℕ, String, List, ◌++◌, Option, none, some, Result, ok, err}
use oj_monorepo.Shared.Models.{Language, VerdictTask, VerdictTaskResult}
use oj_monorepo.Shared.Protocol.{FrameId, ProtocolError}
use oj_monorepo.Shared.Framing.{Codec, Received, send, receive}
use oj_monorepo.Agent.Verdict.{Judge, Handled, handle}

pub data AgentError : Type 0 where
  io : (error : String) → AgentError
  protocol : (error : ProtocolError) → AgentError

-- What the handler of a connection writes to it, and how it ends; an error is logged.
pub record Served : Type 0 where
  pub written : List ℕ
  pub result : Result (Unit {0}) AgentError

-- The judge of each language, the order in which its cases end, and their ids.
pub record Judges : Type 0 where
  pub cpp : Judge
  pub picks : ℕ → ℕ
  pub ids : ℕ → ℕ

abbrev pub judge_of : Judges → Language → Judge
judge_of judges Language.cpp = judges.cpp

module _ (judges : Judges) (tasks : Codec VerdictTask) (results : Codec VerdictTaskResult) where
  unfoldable pub send_answer : List ℕ → Option (Result (List ℕ) ProtocolError) → Option Served
  send_answer written none = none
  send_answer written (some (err e)) =
      some (record { written = written; result = err (AgentError.protocol e) })
  send_answer written (some (ok bytes)) =
      some (record { written = written ++ bytes; result = ok tt })

  unfoldable pub send_handled : List ℕ → FrameId → Option Handled → Option Served
  unfolding send_answer
  send_handled written id none = none
  send_handled written id (some h) = send_answer written (send results id h.result)

  unfoldable pub serve_received : Received VerdictTask → Option Served
  unfolding send_handled
  serve_received r = elim r.result [
    | err e ↦ some (record { written = r.written; result = err (AgentError.protocol e) })
    | ok none ↦ some (record { written = r.written; result = ok tt })
    | ok (some (id, task)) ↦
        send_handled r.written id
          (handle judges.picks (judge_of judges task.language) judges.ids task)
  ]

  -- The handler of a connection, on what is read from it; `none` is a panic of its task.
  unfoldable pub serve : List ℕ → Option Served
  unfolding serve_received
  serve stream = serve_received (receive tasks stream)
