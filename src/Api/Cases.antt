-- ===== src/Api/Cases.antt =====
-- services/crates/api_server_db/src/repositories/test_cases.rs. `seen` are the tables at the first
-- query, and `t` those at the later ones.
use oj_monorepo.Base.{
  ℕ, ◌+◌, String, str_eq, List, [], ◌∷◌, ◌++◌, map, any, keep, not, ◌&&◌, ◌||◌, Bool, Result, ok,
  err, and_then, if◌then◌else◌,
}
use oj_monorepo.Api.Store.{
  CaseType, is_example, Problem, TestCase, Tables, RepoError, Statement, World, found_problem,
  in_transaction,
}

pub record TestCaseSuccessfulResponse : Type 0 where
  pub id : String
  pub input : String
  pub output : String
  pub case_type : CaseType

pub record TestCaseInput : Type 0 where
  pub input : String
  pub output : String
  pub case_type : CaseType

abbrev pub cases_of : String → List TestCase → List TestCase
cases_of problem_id rows = keep (λ (c : TestCase). str_eq c.problem_id problem_id) rows

abbrev pub without_cases_of : String → List TestCase → List TestCase
without_cases_of problem_id rows =
    keep (λ (c : TestCase). not (str_eq c.problem_id problem_id)) rows

abbrev pub shown_case : TestCase → TestCaseSuccessfulResponse
shown_case c = record { id = c.id; input = c.input; output = c.output; case_type = c.case_type }

-- Everything for the author, and the examples for anybody else.
unfoldable pub visible_cases : Bool → String → List TestCase → List TestCase
visible_cases is_author problem_id rows =
    if is_author
    then cases_of problem_id rows
    else keep (λ (c : TestCase). str_eq c.problem_id problem_id && is_example c.case_type) rows

module _ (world : World) where
  open world use {new_id, faulty, case_rows}

  unfoldable pub get_by_problem_id :
      String → String → Tables → Tables → Result (List TestCaseSuccessfulResponse) RepoError
  unfolding visible_cases
  get_by_problem_id problem_id user_id seen t =
      and_then (found_problem world problem_id seen) (λ problem.
        if faulty Statement.find_cases
        then err RepoError.internal
        else ok (
            map shown_case (
              visible_cases (str_eq problem.author_id user_id) problem_id
                (case_rows t.test_cases))))

  -- The n-th row that a replacement inserts.
  abbrev pub new_case : String → ℕ → TestCaseInput → TestCase
  new_case problem_id n c = record {
    id = new_id n;
    problem_id = problem_id;
    input = c.input;
    output = c.output;
    case_type = c.case_type;
  }

  unfoldable pub insert_case : TestCase → ℕ → Tables → Result Tables RepoError
  insert_case c n t =
      if faulty (Statement.insert_case n) || any (λ (d : TestCase). str_eq d.id c.id) t.test_cases
      then err RepoError.internal
      else ok (record t { test_cases = t.test_cases ++ (c ∷ []) })

  unfoldable pub insert_cases : String → ℕ → List TestCaseInput → Tables → Result Tables RepoError
  unfolding insert_case
  insert_cases problem_id n [] t = ok t
  insert_cases problem_id n (c ∷ cs) t =
      and_then (insert_case (new_case problem_id n c) n t)
        (λ t'. insert_cases problem_id (n + 1) cs t')

  unfoldable pub replace_cases : String → List TestCaseInput → Tables → Result Tables RepoError
  unfolding insert_cases
  replace_cases problem_id cases t =
      if faulty Statement.delete_cases
      then err RepoError.internal
      else insert_cases problem_id 0 cases
          (record t { test_cases = without_cases_of problem_id t.test_cases })

  unfoldable pub replace_found :
      String
      → List TestCaseInput
      → Tables
      → Result Problem RepoError
      → Tables × Result (Unit {0}) RepoError
  unfolding replace_cases
  replace_found problem_id cases t (err e) = (t, err e)
  replace_found problem_id cases t (ok problem) =
      in_transaction world t (replace_cases problem_id cases t) tt

  -- `replace`.
  unfoldable pub replace :
      String → List TestCaseInput → Tables → Tables → Tables × Result (Unit {0}) RepoError
  unfolding replace_found
  replace problem_id cases seen t =
      replace_found problem_id cases t (found_problem world problem_id seen)
