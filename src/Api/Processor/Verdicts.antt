-- ===== src/Api/Processor/Verdicts.antt =====
-- services/crates/submission_processor/src/main.rs: a message whose members have the names that the
-- processor expects, from the judge's answer to what the owner of the submission reads.
use oj_monorepo.Base.{
  ◌≡◌, refl, ap, ◌∙◌, subst, inl, inr, String, str_eq, str_eq_iff, List, [], ◌∷◌, true, false,
  Bool-cases, none, some, Result, ok, err,
}
use oj_monorepo.Shared.Models.{VerdictTask, VerdictTaskResult}
use oj_monorepo.Shared.Http.{VerdictResponse, result_to_response}
use oj_monorepo.Sdk.{JudgeCoreError, task_submit}
use oj_monorepo.Api.Store.{Submission, Tables, RepoError, Statement, ValueCodec, World, written}
use oj_monorepo.Api.Submissions.{
  SubmissionResult, submission_at, update_submission, with_submissions, completion, complete_row,
  complete_found, mark_completed,
}
use oj_monorepo.Api.Submissions.Rows.{is_stored, submission_at-update}
use oj_monorepo.Api.Submissions.Simulation.{IsFaithful, IsValid, mark_completed-Simulates}
use oj_monorepo.Api.Submissions.Refinement.{get-read}
use oj_monorepo.Api.Queue.{Member, Fields, Json, get_answer, get_handler}
use oj_monorepo.Api.Processor.{
  JudgeCore, deserialize, from_slice, message_of, marked, stored, judged, process_message,
  processed,
}

stored_of :
    (rows : List Submission) (id : String) (s : Submission)
    → submission_at id rows ≡ some s
    → is_stored id rows ≡ true
stored_of [] id s h = absurd (cc)
stored_of (r ∷ rs) id s h = elim (Bool-cases (str_eq r.id id)) [
  | inl b ↦ rw b refl
  | inr b ↦ rw b (stored_of rs id s (rw b at h))
]

-- The members of a message as the processor expects them.
abbrev pub well_named : String → VerdictTask → Fields
well_named id k = ("submission_id", Member.text id) ∷ ("task", Member.task k) ∷ []

deserialize_named :
    (id : String) (k : VerdictTask)
    → deserialize (well_named id k) ≡ some (record { submission_id = id; task = k })
unfolding deserialize message_of
deserialize_named id k = refl

read_named :
    {Bytes : Type 0} (json : Json Bytes) (body : Bytes) (id : String) (k : VerdictTask)
    → json.from_slice body ≡ some (well_named id k)
    → from_slice json body ≡ some (record { submission_id = id; task = k })
unfolding from_slice
read_named json body id k r = rw (r, from_slice) (deserialize_named id k)

module _ (world : World) (codec : ValueCodec) where
  abbrev completed_tables : String → String → Tables → Tables
  completed_tables id text t =
      with_submissions t (update_submission id (completion world.now text) t.submissions)

  mark_completed-writes :
      (id text : String) (v : VerdictResponse) (seen t : Tables) (s s' : Submission)
      → codec.to_value v ≡ some text
      → world.faulty Statement.find_submission ≡ false
      → world.faulty Statement.update_submission ≡ false
      → submission_at id seen.submissions ≡ some s'
      → submission_at id t.submissions ≡ some s
      → mark_completed world codec id v seen t ≡ (completed_tables id text t, ok tt)
  unfolding mark_completed complete_found complete_row written
  mark_completed-writes id text v seen t s s' e f g there here =
      rw (f, there, e, stored_of t.submissions id s here, g) refl

  completed-read :
      (reader : World) (id text : String) (v : VerdictResponse) (t : Tables) (s : Submission)
      → codec.from_value text ≡ some v
      → IsValid codec (completed_tables id text t)
      → reader.faulty Statement.find_submission ≡ false
      → submission_at id t.submissions ≡ some s
      → get_handler codec reader s.user_id id (completed_tables id text t)
        ≡ ok (SubmissionResult.completed v)
  unfolding get_handler get_answer completion
  completed-read reader id text v t s d valid f here =
      let same = (str_eq_iff id id).1 refl in
      let mine = (str_eq_iff s.user_id s.user_id).1 refl in
      let row : submission_at id (completed_tables id text t).submissions
          ≡ some (completion world.now text s) =
        submission_at-update (completion world.now text) (λ _. refl) t.submissions id id
        ∙ rw (same, here) refl in
      ap get_answer (get-read codec reader s.user_id id (completed_tables id text t) valid f)
      ∙ rw (row, d, mine) refl

-- The verdict of a result can be written as JSON.
abbrev pub Serializes : ValueCodec → Result VerdictTaskResult JudgeCoreError → Type 0
Serializes codec (err e) = Unit
Serializes codec (ok result) =
    (text : String) × (codec.to_value (result_to_response result) ≡ some text)

module _ {Bytes : Type 0} (world reader : World) (codec : ValueCodec) (judge : JudgeCore)
    (json : Json Bytes) (body : Bytes) (id uuid : String) (seen t : Tables) (s : Submission) where
  -- What becomes of a message, by what the judge's client reports.
  abbrev pub Settled : Result VerdictTaskResult JudgeCoreError → Type 0
  Settled (err e) =
      process_message world codec judge json body seen t
      ≡ some (record { tables = t; acks = 0; result = none })
  Settled (ok result) =
      (t' : Tables) × (process_message world codec judge json body seen t
        ≡ some (record { tables = t'; acks = 1; result = some id }))
      × (get_handler codec reader s.user_id uuid t'
          ≡ ok (SubmissionResult.completed (result_to_response result)))

-- A message that names its members as the processor expects, of a submission that is stored, is judged
-- and done with: where the judge answers with a result, the message is acknowledged and the owner of the
-- submission reads the verdict of that result; where the judge's client reports an error, the message is
-- not acknowledged and nothing changes. No query fails, the table has unique ids and readable results,
-- and the JSON library writes the verdict and reads back what it has written.
pub process-get_verdict :
    {Bytes : Type 0} (world reader : World) (codec : ValueCodec) (judge : JudgeCore)
    (json : Json Bytes) (body : Bytes) (id uuid : String) (k : VerdictTask) (seen t : Tables)
    (s s' : Submission) (answer : Result VerdictTaskResult JudgeCoreError)
    → json.from_slice body ≡ some (well_named id k)
    → Serializes codec answer
    → IsFaithful codec
    → IsValid codec t
    → submission_at uuid seen.submissions ≡ some s'
    → submission_at uuid t.submissions ≡ some s
    → judge.parse_uuid id ≡ some uuid
    → world.faulty Statement.find_submission ≡ false
    → world.faulty Statement.update_submission ≡ false
    → reader.faulty Statement.find_submission ≡ false
    → task_submit judge.client (judge.answer k) ≡ some answer
    → Settled world reader codec judge json body id uuid seen t s answer
unfolding process_message processed judged stored marked
process-get_verdict world reader codec judge json body id uuid k seen t s s' (err e) r z c v there
      here u f g q h =
    ap (λ o. processed world codec judge o seen t) (read_named json body id k r)
    ∙ ap (λ o. judged world codec judge id o seen t) h
process-get_verdict world reader codec judge json body id uuid k seen t s s' (ok result) r z c v
      there here u f g q h =
    let verdict = result_to_response result in
    let (text, e) = z in
    let w = mark_completed-writes world codec uuid text verdict seen t s s' e f g there here in
    let valid : IsValid codec (completed_tables world codec uuid text t) =
      subst (λ (o : Tables × Result (Unit {0}) RepoError). IsValid codec o.0) w
        (mark_completed-Simulates codec world uuid verdict seen t c v).0 in
    (
      completed_tables world codec uuid text t,
      ap (λ o. processed world codec judge o seen t) (read_named json body id k r)
          ∙ ap (λ o. judged world codec judge id o seen t) h
          ∙ ap (λ o. some (stored world codec judge id result o seen t)) u
          ∙ ap (λ o. some (marked world codec judge id o)) w,
      completed-read world codec reader uuid text verdict t s (c verdict text e) valid q here,
    )
