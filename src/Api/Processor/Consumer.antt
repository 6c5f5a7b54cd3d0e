-- ===== src/Api/Processor/Consumer.antt =====
-- services/crates/submission_processor/src/main.rs: the start of `main` and its loop. The consumer of
-- lapin is the sequence of what it brings.
pub mod Settling
pub mod Loop
use oj_monorepo.Base.{
  String, List, [], ◌∷◌, ◌++◌, replicate, ◌==◌, Bool, true, false, Option, none, some, Result, ok,
  err, if◌then◌else◌,
}
use oj_monorepo.Shared.Wire.{Response, AcceptablezResponse}
use oj_monorepo.Sdk.{JudgeCoreError, JudgeCoreClient, acceptable}
use oj_monorepo.Api.Store.{Tables, ValueCodec, World}
use oj_monorepo.Api.Queue.{Json}
use oj_monorepo.Api.Processor.{JudgeCore, Processed, process_message}

-- A message, with the surroundings in which it is processed.
pub record Delivery (Bytes : Type 0) : Type 0 where
  pub body : Bytes
  pub world : World
  pub judge : JudgeCore
  -- What other connections do to the tables while the judge works.
  pub others : Tables → Tables

-- The branches of `tokio::select!`.
pub data Event (Bytes : Type 0) : Type 0 where
  delivered : (d : Delivery Bytes) → Event Bytes
  consumer_error : Event Bytes
  stream_ended : Event Bytes
  ctrl_c : Event Bytes

-- The latest message is first: the messages that `ack` has been called for, once for each call,
-- those that have been left without one, and the ids that are reported as finished.
pub record Consumer (Bytes : Type 0) : Type 0 where
  pub tables : Tables
  pub acked : List (Delivery Bytes)
  pub unacked : List (Delivery Bytes)
  pub finished : List String

-- Before the first message.
abbrev pub started : {Bytes : Type 0} → Tables → Consumer Bytes
started t = record { tables = t; acked = []; unacked = []; finished = [] }

abbrev pub reported : Option String → List String → List String
reported none ids = ids
reported (some id) ids = id ∷ ids

-- What `main` asks before it consumes: `none` is a panic of the client, and the answer that the
-- judge does not accept is no error.
unfoldable pub judge_available :
    JudgeCoreClient
    → Option (Response AcceptablezResponse)
    → Option (Result (Unit {0}) JudgeCoreError)
unfolding acceptable
judge_available client answer =
    if client.standalone_mode then some (ok tt) else elim (acceptable client answer) [
      | none ↦ none
      | some (err e) ↦ some (err e)
      | some (ok r) ↦ some (ok tt)
    ]

module _ {Bytes : Type 0} (codec : ValueCodec) (json : Json Bytes) where
  unfoldable pub settled : Delivery Bytes → Consumer Bytes → Processed → Consumer Bytes
  settled d s p = record {
    tables = p.tables;
    acked = replicate p.acks d ++ s.acked;
    unacked = if p.acks == 0 then d ∷ s.unacked else s.unacked;
    finished = reported p.result s.finished;
  }

  -- The branch of a delivery; `none` is a panic.
  unfoldable pub take_delivery : Delivery Bytes → Consumer Bytes → Option (Consumer Bytes)
  unfolding settled
  take_delivery d s =
      elim (process_message d.world codec d.judge json d.body s.tables (d.others s.tables)) [
        | none ↦ none
        | some p ↦ some (settled d s p)
      ]

  -- The loop, until a `break` or the end of what is known.
  unfoldable pub consume : List (Event Bytes) → Consumer Bytes → Option (Consumer Bytes)
  unfolding take_delivery
  consume [] s = some s
  consume (Event.delivered d ∷ es) s = elim (take_delivery d s) [
    | none ↦ none
    | some s' ↦ consume es s'
  ]
  consume (Event.consumer_error ∷ es) s = consume es s
  consume (Event.stream_ended ∷ es) s = some s
  consume (Event.ctrl_c ∷ es) s = some s
