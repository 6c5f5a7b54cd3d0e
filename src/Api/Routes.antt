-- ===== src/Api/Routes.antt =====
-- services/crates/api_server/src/routers/problems.rs: the handlers of the problems, from the user
-- that the request speaks for to the status of the answer. Reading the body, the path and the query
-- of a request is axum's.
pub mod Authority
use oj_monorepo.Base.{ℕ, String, str_eq, List, Bool, Result, ok, err, and_then, if◌then◌else◌}
use oj_monorepo.Shared.Headers.{Headers}
use oj_monorepo.Auth.Token.{Jwt}
use oj_monorepo.Auth.Extractor.{user_id}
use oj_monorepo.Api.Store.{Tables, RepoError, World}
use oj_monorepo.Api.Problems.{
  CreateProblemRequest, ProblemDetailResponse, UpdateProblemRequest, create, get_stat, get_by_id,
  update, delete,
}
use oj_monorepo.Api.Problems.Listing.{ListProblemQueries, ListProblemResponse, list}
use oj_monorepo.Api.Cases.{TestCaseSuccessfulResponse, TestCaseInput, get_by_problem_id, replace}

pub data ProblemApiError : Type 0 where
  not_found : ProblemApiError
  forbidden : ProblemApiError
  internal : (error : RepoError) → ProblemApiError

-- `From<RepoError>`.
unfoldable pub from_repo_error : RepoError → ProblemApiError
from_repo_error RepoError.not_found = ProblemApiError.not_found
from_repo_error RepoError.forbidden = ProblemApiError.forbidden
from_repo_error RepoError.internal = ProblemApiError.internal RepoError.internal

-- `into_response`: the status and the body.
unfoldable pub into_response : ProblemApiError → ℕ × String
into_response ProblemApiError.not_found = (404, "not found")
into_response ProblemApiError.forbidden = (403, "forbidden")
into_response (ProblemApiError.internal e) = (500, "internal server error")

-- The `?` of the handlers, and their status of success.
unfoldable pub answered : {A : Type 0} → ℕ → Result A RepoError → Result (ℕ × A) ProblemApiError
unfolding from_repo_error
answered status (ok a) = ok (status, a)
answered status (err e) = err (from_repo_error e)

unfoldable pub answered_after :
    {A : Type 0} → ℕ → Tables × Result A RepoError → Tables × Result (ℕ × A) ProblemApiError
unfolding answered
answered_after status (t, r) = (t, answered status r)

module _ (world : World) where
  unfoldable pub list_problems :
      ListProblemQueries
      → Tables
      → Tables
      → Tables
      → Tables
      → Result (ℕ × ListProblemResponse) ProblemApiError
  unfolding answered
  list_problems params filtered counted paged t =
      answered 200 (list world params filtered counted paged t)

  unfoldable pub create_problem :
      String → CreateProblemRequest → Tables → Tables × Result (ℕ × String) ProblemApiError
  unfolding answered_after
  create_problem identity req t = answered_after 201 (create world req identity t)

  unfoldable pub stat : Tables → Result (ℕ × ℕ) ProblemApiError
  unfolding answered
  stat t = answered 200 (get_stat world t)

  unfoldable pub get_problem :
      String → Tables → Tables → Result (ℕ × ProblemDetailResponse) ProblemApiError
  unfolding answered
  get_problem id seen t = answered 200 (get_by_id world id seen t)

  unfoldable pub update_problem :
      String
      → String
      → UpdateProblemRequest
      → Tables
      → Tables
      → Tables × Result (ℕ × Unit {0}) ProblemApiError
  unfolding answered_after
  update_problem identity id req seen t = answered_after 204 (update world id identity req seen t)

  unfoldable pub delete_problem :
      String → String → Tables → Tables → Tables × Result (ℕ × Unit {0}) ProblemApiError
  unfolding answered_after
  delete_problem identity id seen t = answered_after 204 (delete world id identity seen t)

  unfoldable pub get_test_cases :
      String
      → String
      → Tables
      → Tables
      → Result (ℕ × List TestCaseSuccessfulResponse) ProblemApiError
  unfolding answered
  get_test_cases identity id seen t = answered 200 (get_by_problem_id world id identity seen t)

  unfoldable pub replace_checked :
      String
      → String
      → List TestCaseInput
      → Tables
      → Tables
      → Result ProblemDetailResponse RepoError
      → Tables × Result (ℕ × Unit {0}) ProblemApiError
  unfolding answered_after from_repo_error
  replace_checked identity id cases seen t (err e) = (t, err (from_repo_error e))
  replace_checked identity id cases seen t (ok problem) =
      if str_eq problem.author_id identity
      then answered_after 204 (replace world id cases seen t)
      else (t, err ProblemApiError.forbidden)

  -- `first` are the tables at the check of the author, `seen` at the first query of `replace`, and
  -- `t` at its writes.
  unfoldable pub replace_test_cases :
      String
      → String
      → List TestCaseInput
      → Tables
      → Tables
      → Tables
      → Tables × Result (ℕ × Unit {0}) ProblemApiError
  unfolding replace_checked
  replace_test_cases identity id cases first seen t =
      replace_checked identity id cases seen t (get_by_id world id first first)

  -- `UserId<Identity>` comes before the handler; its error is a status of its own.
  unfoldable pub identified : {A : Type 0} → Jwt → Headers → (String → A) → Result A ℕ
  identified jwt headers handler =
      and_then (user_id jwt headers) (λ identity. ok (handler identity))
