-- ===== src/Api/Queue.antt =====
-- services/crates/api_server_submission/src/: `post_handler` and `get_handler`, and the message that
-- a new submission puts into the queue. The queue (lapin) and the bytes of a JSON text (serde_json)
-- are parameters.
use oj_monorepo.Base.{
  ℕ, String, List, [], ◌∷◌, Bool, Option, none, some, Result, ok, err, if◌then◌else◌,
}
use oj_monorepo.Shared.Models.{VerdictTask}
use oj_monorepo.Api.Store.{AcceptableLanguage, Tables, RepoError, ValueCodec, World}
use oj_monorepo.Api.Submissions.{SubmissionResult, create_pending, get}

-- A member of a JSON object, as far as a message has such.
pub data Member : Type 0 where
  text : (s : String) → Member
  task : (t : VerdictTask) → Member

abbrev pub Fields : Type 0
Fields = List (String × Member)

-- `serde_json::to_vec` and `from_slice` on some type of bytes; `none` is an error.
pub record Json (Bytes : Type 0) : Type 0 where
  pub to_vec : Fields → Option Bytes
  pub from_slice : Bytes → Option Fields

pub record PostSubmissionRequest : Type 0 where
  pub source_code : String
  pub problem_id : String
  pub language : AcceptableLanguage

-- `SubmitMessage` and its serialization, which is in camel case.
unfoldable pub submit_message : String → VerdictTask → Fields
submit_message submission_id t =
    ("submissionId", Member.text submission_id) ∷ ("task", Member.task t) ∷ []

-- What a handler leaves: the tables, what is in the queue of it, and its answer.
pub record Posted (Bytes : Type 0) : Type 0 where
  pub tables : Tables
  pub published : Option Bytes
  pub answer : Result String ℕ

module _ {Bytes : Type 0} (world : World) (json : Json Bytes) where
  unfoldable pub publish : Tables → Bool → String → Option Bytes → Posted Bytes
  publish t reachable id none = record { tables = t; published = none; answer = err 500 }
  publish t reachable id (some payload) =
      if reachable
      then record { tables = t; published = some payload; answer = ok id }
      else record { tables = t; published = none; answer = err 500 }

  unfoldable pub post_created :
      Bool → Tables × Result (String × VerdictTask) RepoError → Posted Bytes
  unfolding publish submit_message
  post_created reachable (t, err e) = record { tables = t; published = none; answer = err 500 }
  post_created reachable (t, ok (id, verdict_task)) =
      publish t reachable id (json.to_vec (submit_message id verdict_task))

  -- `reachable` says whether `basic_publish` succeeds.
  unfoldable pub post_handler :
      String → PostSubmissionRequest → Bool → Tables → Tables → Posted Bytes
  unfolding post_created
  post_handler user_id req reachable seen t =
      post_created reachable
        (create_pending world req.problem_id user_id req.source_code req.language seen t)

unfoldable pub get_answer : Result (Option SubmissionResult) RepoError → Result SubmissionResult ℕ
get_answer (err e) = err 500
get_answer (ok none) = err 404
get_answer (ok (some r)) = ok r

unfoldable pub get_handler :
    ValueCodec → World → String → String → Tables → Result SubmissionResult ℕ
unfolding get_answer
get_handler codec world user_id id t = get_answer (get codec world user_id id t)
