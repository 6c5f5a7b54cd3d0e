-- ===== src/Api/Processor/Messages.antt =====
-- services/crates/submission_processor/src/ and api_server_submission/src/: what becomes of a message,
-- from the post of a submission to the answer that its owner gets.
use oj_monorepo.Base.{
  ◌≡◌, refl, ap, sym, ◌∙◌, subst, inl, inr, arith, String, str_eq_iff, [], ◌∷◌, ◌++◌, Bool, true,
  false, Bool-cases, Option, none, some, Result, ok, err,
}
use oj_monorepo.Shared.Models.{VerdictTask}
use oj_monorepo.Api.Store.{
  AcceptableLanguage, Problem, Submission, Tables, RepoError, Statement, ValueCodec, World,
  found_problem, written,
}
use oj_monorepo.Api.Cases.{cases_of}
use oj_monorepo.Api.Submissions.{
  SubmissionResult, submission_at, with_submissions, verdict_task, new_submission,
  insert_submission, create_found, create_pending,
}
use oj_monorepo.Api.Submissions.Rows.{is_stored, submission_at-append}
use oj_monorepo.Api.Submissions.Simulation.{IsValid, create_found-Simulates}
use oj_monorepo.Api.Submissions.Refinement.{get-read}
use oj_monorepo.Api.Queue.{
  Fields, Json, PostSubmissionRequest, submit_message, publish, post_created, post_handler,
  get_answer, get_handler,
}
use oj_monorepo.Api.Processor.{
  JudgeCore, deserialize, from_slice, message_of, process_message, processed,
}

-- The text of an object is read back as the object.
abbrev pub ReadsBack : {Bytes : Type 0} → Json Bytes → Type 0
ReadsBack {Bytes} json =
    (f : Fields) (b : Bytes) → json.to_vec f ≡ some b → json.from_slice b ≡ some f

deserialize_posted : (id : String) (t : VerdictTask) → deserialize (submit_message id t) ≡ none
unfolding deserialize submit_message message_of
deserialize_posted id t = refl

module _ {Bytes : Type 0} (world : World) (json : Json Bytes) where
  -- A message that is published is the one of a submission that was created.
  record Published (reachable : Bool) (out : Tables × Result (String × VerdictTask) RepoError)
      (body : Bytes) : Type 0 where
    id : String
    task : VerdictTask
    created : out ≡ ((post_created world json reachable out).tables, ok (id, task))
    payload : json.to_vec (submit_message id task) ≡ some body
    answered : (post_created world json reachable out).answer ≡ ok id

  publish-Published :
      (reachable : Bool) (t : Tables) (id : String) (task : VerdictTask) (o : Option Bytes)
      (body : Bytes)
      → json.to_vec (submit_message id task) ≡ o
      → (publish world json t reachable id o).published ≡ some body
      → ((publish world json t reachable id o).tables ≡ t)
        × (o ≡ some body)
        × ((publish world json t reachable id o).answer ≡ ok id)
  unfolding publish
  publish-Published reachable t id task none body e h = absurd (cc)
  publish-Published true t id task (some b) body e h = (refl, h, refl)
  publish-Published false t id task (some b) body e h = absurd (cc)

  post_created-Published :
      (reachable : Bool) (out : Tables × Result (String × VerdictTask) RepoError) (body : Bytes)
      → (post_created world json reachable out).published ≡ some body
      → Published reachable out body
  unfolding post_created
  post_created-Published reachable (t, err e) body h = absurd (cc)
  post_created-Published reachable (t, ok (i, k)) body h =
      let (a, b, c) =
        publish-Published reachable t i k (json.to_vec (submit_message i k)) body refl h in
      record { id = i; task = k; created = λ j. (sym a j, ok (i, k)); payload = b; answered = c }

module _ (world : World) where
  insert_submission-ok :
      (s : Submission) (task : VerdictTask) (t t' : Tables) (id : String) (k : VerdictTask)
      → insert_submission world s task t ≡ (t', ok (id, k))
      → (is_stored s.id t.submissions ≡ false)
        × (t' ≡ with_submissions t (t.submissions ++ (s ∷ [])))
        × (id ≡ s.id)
  unfolding insert_submission written
  insert_submission-ok s task t t' id k h = ground arith

  -- The row that a post has added.
  create_found-ok :
      (problem_id user_id source_code : String) (language : AcceptableLanguage) (t t' : Tables)
      (r : Result Problem RepoError) (id : String) (k : VerdictTask)
      → create_found world problem_id user_id source_code language t r ≡ (t', ok (id, k))
      → let s = new_submission world problem_id user_id source_code language in
        (is_stored s.id t.submissions ≡ false)
        × (t' ≡ with_submissions t (t.submissions ++ (s ∷ [])))
        × (id ≡ s.id)
  unfolding create_found
  create_found-ok problem_id user_id source_code language t t' (err e) id k h =
      absurd (ground arith)
  create_found-ok problem_id user_id source_code language t t' (ok p) id k h =
      elim (Bool-cases (world.faulty Statement.find_cases)) [
        | inl b ↦ absurd (ground arith)
        | inr b ↦
            insert_submission-ok (new_submission world problem_id user_id source_code language)
              (verdict_task p (cases_of problem_id (world.case_rows t.test_cases)) source_code
                language)
              t t' id k (rw b at h)
      ]

-- The posted submission reads as one that waits for its verdict.
posted_pending :
    (world reader : World) (codec : ValueCodec) (user_id : String) (req : PostSubmissionRequest)
    (seen t t' : Tables) (id : String) (k : VerdictTask)
    → IsValid codec t
    → reader.faulty Statement.find_submission ≡ false
    → create_pending world req.problem_id user_id req.source_code req.language seen t
      ≡ (t', ok (id, k))
    → get_handler codec reader user_id id t' ≡ ok SubmissionResult.pending
unfolding create_pending get_handler get_answer
posted_pending world reader codec user_id req seen t t' id k v f h =
    let s = new_submission world req.problem_id user_id req.source_code req.language in
    let r = found_problem world req.problem_id seen in
    let (fresh, e, i) =
      create_found-ok world req.problem_id user_id req.source_code req.language t t' r id k h in
    let valid : IsValid codec t' =
      subst (λ (o : Tables × Result (String × VerdictTask) RepoError). IsValid codec o.0) h
        (create_found-Simulates codec world req.problem_id user_id req.source_code req.language t r
          v).0 in
    let row : submission_at id t'.submissions ≡ some s =
      ap (λ (u : Tables). submission_at id u.submissions) e
      ∙ submission_at-append t.submissions s id fresh
      ∙ rw (i, (str_eq_iff s.id s.id).1 refl) refl in
    let mine = (str_eq_iff user_id user_id).1 refl in
    ap get_answer (get-read codec reader user_id id t' valid f) ∙ rw (row, mine) refl

-- A submission that the HTTP interface has accepted and published is discarded by the processor:
-- whatever its tables then are and whatever the judge would say, the message is acknowledged, nothing is
-- stored, and no task is judged; its owner, who has been given its id, reads that it is pending. So it is
-- because the one names the member `submissionId` and the other `submission_id`; the JSON library must
-- read back what it has written.
pub post-process_discards :
    {Bytes : Type 0} (world reader : World) (json : Json Bytes) (codec : ValueCodec)
    (user_id : String) (req : PostSubmissionRequest) (reachable : Bool) (seen t : Tables)
    (body : Bytes)
    → ReadsBack json
    → IsValid codec t
    → reader.faulty Statement.find_submission ≡ false
    → (post_handler world json user_id req reachable seen t).published ≡ some body
    → ((world' : World) (codec' : ValueCodec) (judge : JudgeCore) (seen' t' : Tables)
        → process_message world' codec' judge json body seen' t'
          ≡ some (record { tables = t'; acks = 1; result = none }))
      × ((id : String) × ((post_handler world json user_id req reachable seen t).answer ≡ ok id)
          × (get_handler codec reader user_id id
                (post_handler world json user_id req reachable seen t).tables
              ≡ ok SubmissionResult.pending))
unfolding post_handler process_message processed from_slice
post-process_discards world reader json codec user_id req reachable seen t body back v f h =
    let out = create_pending world req.problem_id user_id req.source_code req.language seen t in
    let p = post_created-Published world json reachable out body h in
    let gone : from_slice json body ≡ none =
      rw (back (submit_message p.id p.task) body p.payload, from_slice)
        (deserialize_posted p.id p.task) in
    (
      (λ world' codec' judge seen' t'. ap (λ o. processed world' codec' judge o seen' t') gone),
      (
        p.id,
        p.answered,
        posted_pending world reader codec user_id req seen t _ p.id p.task v f p.created,
      ),
    )
