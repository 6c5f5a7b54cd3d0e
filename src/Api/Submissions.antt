-- ===== src/Api/Submissions.antt =====
-- services/crates/api_server_db/src/repositories/submissions.rs. `seen` are the tables at the first
-- query, and `t` those at the later ones.
pub mod Rows
pub mod Spec
pub mod Simulation
pub mod Refinement
use oj_monorepo.Base.{
  ℕ, String, str_eq, List, [], ◌∷◌, ◌++◌, map, any, find, ◌&&◌, true, Option, none, some, Result,
  ok, err, and_then, if◌then◌else◌,
}
use oj_monorepo.Shared.Models.{Case, Language, VerdictTask}
use oj_monorepo.Shared.Http.{VerdictResponse}
use oj_monorepo.Api.Store.{
  SubmissionStatus, AcceptableLanguage, Problem, TestCase, Submission, Tables, RepoError, Statement,
  ValueCodec, World, found_problem, written,
}
use oj_monorepo.Api.Cases.{cases_of}

pub data SubmissionResult : Type 0 where
  pending : SubmissionResult
  completed : (verdict : VerdictResponse) → SubmissionResult

-- `From<AcceptableLanguage> for Language`.
abbrev pub language_of : AcceptableLanguage → Language
language_of AcceptableLanguage.cpp = Language.cpp

abbrev pub submission_at : String → List Submission → Option Submission
submission_at id rows = find (λ (s : Submission). str_eq s.id id) rows

-- An UPDATE of the row with a primary key.
abbrev pub update_submission :
    String → (Submission → Submission) → List Submission → List Submission
update_submission id f [] = []
update_submission id f (s ∷ ss) = (if str_eq s.id id then f s else s) ∷ update_submission id f ss

abbrev pub with_submissions : Tables → List Submission → Tables
with_submissions t rows = record t { submissions = rows }

abbrev pub task_case : TestCase → Case
task_case c = record { input = c.input; output = c.output }

unfoldable pub verdict_task : Problem → List TestCase → String → AcceptableLanguage → VerdictTask
verdict_task problem cases source_code language = record {
  source = source_code;
  language = language_of language;
  cases = map task_case cases;
  limits = record {
    cpu_time_ms = problem.limit_cpu_time_ms;
    wall_time_ms = problem.limit_wall_time_ms;
    memory_bytes = problem.limit_memory_bytes;
    output_bytes = problem.limit_output_bytes;
  };
  stop_on_first_error = true;
}

-- What `mark_completed` sets.
unfoldable pub completion : ℕ → String → Submission → Submission
completion now json s = record s {
  status = SubmissionStatus.completed;
  result = some json;
  completed_at = some now;
}

module _ (world : World) where
  open world use {now, new_id, faulty}

  abbrev pub new_submission : String → String → String → AcceptableLanguage → Submission
  new_submission problem_id user_id source_code language = record {
    id = new_id 0;
    problem_id = problem_id;
    user_id = user_id;
    source_code = source_code;
    status = SubmissionStatus.pending;
    result = none;
    language = language;
    submitted_at = now;
    completed_at = none;
  }

  unfoldable pub insert_submission :
      Submission → VerdictTask → Tables → Tables × Result (String × VerdictTask) RepoError
  insert_submission s task t =
      if any (λ (r : Submission). str_eq r.id s.id) t.submissions
      then (t, err RepoError.internal)
      else written world Statement.insert_submission t
          (with_submissions t (t.submissions ++ (s ∷ []))) (s.id, task)

  unfoldable pub create_found :
      String
      → String
      → String
      → AcceptableLanguage
      → Tables
      → Result Problem RepoError
      → Tables × Result (String × VerdictTask) RepoError
  unfolding insert_submission verdict_task
  create_found problem_id user_id source_code language t (err e) = (t, err e)
  create_found problem_id user_id source_code language t (ok problem) =
      if faulty Statement.find_cases
      then (t, err RepoError.internal)
      else insert_submission (new_submission problem_id user_id source_code language)
          (verdict_task problem (cases_of problem_id (world.case_rows t.test_cases)) source_code
            language)
          t

  unfoldable pub create_pending :
      String
      → String
      → String
      → AcceptableLanguage
      → Tables
      → Tables
      → Tables × Result (String × VerdictTask) RepoError
  unfolding create_found
  create_pending problem_id user_id source_code language seen t =
      create_found problem_id user_id source_code language t (found_problem world problem_id seen)

  -- A row that is gone by the time of its update is an error.
  unfoldable pub complete_row :
      String → Option String → Tables → Tables × Result (Unit {0}) RepoError
  unfolding completion
  complete_row id none t = (t, err RepoError.internal)
  complete_row id (some json) t =
      if any (λ (s : Submission). str_eq s.id id) t.submissions
      then written world Statement.update_submission t
          (with_submissions t (update_submission id (completion now json) t.submissions)) tt
      else (t, err RepoError.internal)

  unfoldable pub complete_found :
      ValueCodec
      → String
      → VerdictResponse
      → Tables
      → Option Submission
      → Tables × Result (Unit {0}) RepoError
  unfolding complete_row
  complete_found codec id verdict t none = (t, err RepoError.not_found)
  complete_found codec id verdict t (some s) = complete_row id (codec.to_value verdict) t

  unfoldable pub mark_completed :
      ValueCodec → String → VerdictResponse → Tables → Tables → Tables × Result (Unit {0}) RepoError
  unfolding complete_found
  mark_completed codec id verdict seen t =
      if faulty Statement.find_submission
      then (t, err RepoError.internal)
      else complete_found codec id verdict t (submission_at id seen.submissions)

module _ (codec : ValueCodec) where
  open codec use {from_value}

  -- What a row says; a completed one must have a result that can be read.
  unfoldable pub result_of : SubmissionStatus → Option String → Result SubmissionResult RepoError
  result_of SubmissionStatus.pending result = ok SubmissionResult.pending
  result_of SubmissionStatus.completed none = err RepoError.internal
  result_of SubmissionStatus.completed (some json) = elim (from_value json) [
    | none ↦ err RepoError.internal
    | some verdict ↦ ok (SubmissionResult.completed verdict)
  ]

  unfoldable pub get_found : Option Submission → Result (Option SubmissionResult) RepoError
  unfolding result_of
  get_found none = ok none
  get_found (some s) = and_then (result_of s.status s.result) (λ r. ok (some r))

  unfoldable pub get : World → String → String → Tables → Result (Option SubmissionResult) RepoError
  unfolding get_found
  get world user_id id t =
      if world.faulty Statement.find_submission
      then err RepoError.internal
      else get_found
          (find (λ (s : Submission). str_eq s.id id && str_eq s.user_id user_id) t.submissions)
