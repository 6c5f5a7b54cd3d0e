-- ===== src/Api/Processor.antt =====
-- services/crates/submission_processor/src/: a message of the queue is judged, and its verdict is
-- stored.
pub mod Messages
pub mod Verdicts
pub mod Consumer
mod Tests
use oj_monorepo.Base.{
  ℕ, String, str_eq, List, [], ◌∷◌, Bool, true, false, Option, none, some, Result, ok, err,
  if◌then◌else◌,
}
use oj_monorepo.Shared.Models.{VerdictTask, VerdictTaskResult}
use oj_monorepo.Shared.Http.{VerdictResponse, result_to_response}
use oj_monorepo.Shared.Wire.{Response}
use oj_monorepo.Sdk.{JudgeCoreError, JudgeCoreClient, task_submit}
use oj_monorepo.Api.Store.{Tables, RepoError, ValueCodec, World}
use oj_monorepo.Api.Submissions.{mark_completed}
use oj_monorepo.Api.Queue.{Member, Fields, Json}

pub record SubmitMessage : Type 0 where
  pub submission_id : String
  pub task : VerdictTask

-- The member of an object with a name: a missing one and a repeated one are errors.
abbrev pub members : String → Fields → List Member
members name [] = []
members name ((n, f) ∷ fields) =
    let rest = members name fields in if str_eq n name then f ∷ rest else rest

unfoldable pub message_of : List Member → List Member → Option SubmitMessage
message_of (Member.text id ∷ []) (Member.task t ∷ []) =
    some (record { submission_id = id; task = t })
message_of ids tasks = none

-- `Deserialize for SubmitMessage`; the members keep the names of the fields, and others are ignored.
unfoldable pub deserialize : Fields → Option SubmitMessage
unfolding message_of
deserialize fields = message_of (members "submission_id" fields) (members "task" fields)

unfoldable pub from_slice : {Bytes : Type 0} → Json Bytes → Bytes → Option SubmitMessage
unfolding deserialize
from_slice json body = elim (json.from_slice body) [
  | none ↦ none
  | some fields ↦ deserialize fields
]

-- What a message leaves: the tables, how often `ack` is called, and the result. The answer
-- to `ack` is thrown away.
pub record Processed : Type 0 where
  pub tables : Tables
  pub acks : ℕ
  pub result : Option String

-- The surroundings of the processor: the judge's answer to a task, if one comes, and `parse_str` of
-- UUIDs.
pub record JudgeCore : Type 0 where
  pub client : JudgeCoreClient
  pub answer : VerdictTask → Option (Response VerdictResponse)
  pub parse_uuid : String → Option String

module _ (world : World) (codec : ValueCodec) (judge : JudgeCore) where
  unfoldable pub marked : String → Tables × Result (Unit {0}) RepoError → Processed
  marked id (t, err e) = record { tables = t; acks = 0; result = none }
  marked id (t, ok u) = record { tables = t; acks = 1; result = some id }

  unfoldable pub stored : String → VerdictTaskResult → Option String → Tables → Tables → Processed
  unfolding marked
  stored id task_result none seen t = record { tables = t; acks = 1; result = none }
  stored id task_result (some uuid) seen t =
      marked id (mark_completed world codec uuid (result_to_response task_result) seen t)

  -- `none` is the panic of the client on a code that it does not know.
  unfoldable pub judged :
      String → Option (Result VerdictTaskResult JudgeCoreError) → Tables → Tables → Option Processed
  unfolding stored
  judged id none seen t = none
  judged id (some (err e)) seen t = some (record { tables = t; acks = 0; result = none })
  judged id (some (ok task_result)) seen t =
      some (stored id task_result (judge.parse_uuid id) seen t)

  unfoldable pub processed : Option SubmitMessage → Tables → Tables → Option Processed
  unfolding judged
  processed none seen t = some (record { tables = t; acks = 1; result = none })
  processed (some m) seen t =
      judged m.submission_id (task_submit judge.client (judge.answer m.task)) seen t

  -- `process_message`.
  unfoldable pub process_message :
      {Bytes : Type 0} → Json Bytes → Bytes → Tables → Tables → Option Processed
  unfolding processed from_slice
  process_message json body seen t = processed (from_slice json body) seen t
