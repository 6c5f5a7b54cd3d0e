-- ===== src/Api/Store.antt =====
-- services/crates/api_server_db/src/models/ and repositories/mod.rs: the tables of the service,
-- what its HTTP interface exchanges, and what a request gets from the database and its libraries.
-- A UUID is its text, a time is a number, and a JSON value of the column `result` is its text.
pub mod Outcomes
use oj_monorepo.Base.{
  tally, ◌≡◌, ℕ, String, str_eq, if◌then◌else◌, List, any, find, keep, map, ◌&&◌, Bool, true, false,
  Option, none, some, Result, ok, err,
}
use oj_monorepo.Shared.Http.{VerdictResponse}

pub data Difficulty : Type 0 where
  beginner : Difficulty
  popularize_minus : Difficulty
  popularize_improve : Difficulty
  popularize_plus : Difficulty
  improve_plus : Difficulty
  provincial : Difficulty
  noi : Difficulty

-- The number that stands for a difficulty in the database.
abbrev pub difficulty_code : Difficulty → ℕ
difficulty_code Difficulty.beginner = 0
difficulty_code Difficulty.popularize_minus = 1
difficulty_code Difficulty.popularize_improve = 2
difficulty_code Difficulty.popularize_plus = 3
difficulty_code Difficulty.improve_plus = 4
difficulty_code Difficulty.provincial = 5
difficulty_code Difficulty.noi = 6

pub data CaseType : Type 0 where
  hidden : CaseType
  example : CaseType

abbrev pub is_example : CaseType → Bool
is_example CaseType.hidden = false
is_example CaseType.example = true

pub data SubmissionStatus : Type 0 where
  pending : SubmissionStatus
  completed : SubmissionStatus

pub data AcceptableLanguage : Type 0 where
  cpp : AcceptableLanguage

-- The table problems.
pub record Problem : Type 0 where
  pub id : String
  pub title : String
  pub description : String
  pub difficulty : Difficulty
  pub author_id : String
  pub created_at : ℕ
  pub updated_at : ℕ
  pub deleted_at : Option ℕ
  pub limit_cpu_time_ms : ℕ
  pub limit_wall_time_ms : ℕ
  pub limit_memory_bytes : ℕ
  pub limit_output_bytes : ℕ

-- The table problems_tags; both columns are its key.
pub record ProblemTag : Type 0 where
  pub problem_id : String
  pub tag_id : String

-- The table test_cases.
pub record TestCase : Type 0 where
  pub id : String
  pub problem_id : String
  pub input : String
  pub output : String
  pub case_type : CaseType

-- The table submissions.
pub record Submission : Type 0 where
  pub id : String
  pub problem_id : String
  pub user_id : String
  pub source_code : String
  pub status : SubmissionStatus
  pub result : Option String
  pub language : AcceptableLanguage
  pub submitted_at : ℕ
  pub completed_at : Option ℕ

-- The rows of each table, in the order in which they were inserted. Of the table tags only the
-- ids are used.
pub record Tables : Type 0 where
  pub problems : List Problem
  pub problems_tags : List ProblemTag
  pub tags : List String
  pub test_cases : List TestCase
  pub submissions : List Submission

pub data RepoError : Type 0 where
  not_found : RepoError
  forbidden : RepoError
  internal : RepoError

-- The queries, by where they stand; those of a loop are numbered.
pub data Statement : Type 0 where
  find_problem : Statement
  find_tags : Statement
  find_cases : Statement
  find_submission : Statement
  filter_by_tags : Statement
  count_problems : Statement
  fetch_page : Statement
  begin : Statement
  commit : Statement
  insert_problem : Statement
  insert_tag : (n : ℕ) → Statement
  delete_tags : Statement
  update_problem : Statement
  delete_cases : Statement
  insert_case : (n : ℕ) → Statement
  insert_submission : Statement
  update_submission : Statement

-- What one request gets from its surroundings.
pub record World : Type 0 where
  -- `Utc::now()`.
  pub now : ℕ
  -- `Uuid::now_v7()`, the n-th of the request.
  pub new_id : ℕ → String
  -- Whether a statement fails, and whether the last write took place though its answer was an error.
  pub faulty : Statement → Bool
  pub kept : Bool
  -- `Column::contains`, that is `LIKE '%..%'`: the text, and the pattern.
  pub contains : String → String → Bool
  -- The order in which a SELECT without ORDER BY gives the rows.
  pub problem_rows : List Problem → List Problem
  pub tag_rows : List ProblemTag → List ProblemTag
  pub case_rows : List TestCase → List TestCase

-- `serde_json::to_value` and `from_value` at `VerdictResponse`; `none` is an error.
pub record ValueCodec : Type 0 where
  pub to_value : VerdictResponse → Option String
  pub from_value : String → Option VerdictResponse

-- Every row comes as often as it is there.
abbrev pub Rearranges : {A : Type 0} → (List A → List A) → Type 0
Rearranges {A} f = (q : A → Bool) (xs : List A) → tally q (f xs) ≡ tally q xs

abbrev pub is_live : Problem → Bool
is_live p = elim p.deleted_at [ none ↦ true | some _ ↦ false ]

-- `find_by_id(id).filter(DeletedAt.is_null())`.
abbrev pub is_live_at : String → Problem → Bool
is_live_at id p = str_eq p.id id && is_live p

abbrev pub live_problem : String → Tables → Option Problem
live_problem id t = find (is_live_at id) t.problems

abbrev pub has_tag : String → String → List ProblemTag → Bool
has_tag problem_id tag_id rows =
    any (λ (r : ProblemTag). str_eq r.problem_id problem_id && str_eq r.tag_id tag_id) rows

-- The tags of a problem, in the order of their rows.
abbrev pub tags_of : String → List ProblemTag → List String
tags_of problem_id rows =
    map (λ (r : ProblemTag). r.tag_id)
      (keep (λ (r : ProblemTag). str_eq r.problem_id problem_id) rows)

module _ (world : World) where
  open world use {faulty, kept}

  -- The first query of most operations, with `ok_or(NotFound)`.
  unfoldable pub found_problem : String → Tables → Result Problem RepoError
  found_problem id t =
      if faulty Statement.find_problem
      then err RepoError.internal
      else elim (live_problem id t) [ none ↦ err RepoError.not_found | some p ↦ ok p ]

  -- A write whose answer may be an error; then it has taken place or not.
  unfoldable pub written :
      {A : Type 0} → Statement → Tables → Tables → A → Tables × Result A RepoError
  written s before after a =
      if faulty s then (if kept then after else before, err RepoError.internal) else (after, ok a)

  unfoldable pub committed :
      {A : Type 0} → Tables → Result Tables RepoError → A → Tables × Result A RepoError
  unfolding written
  committed before (err e) a = (before, err e)
  committed before (ok after) a = written Statement.commit before after a

  -- A transaction: its statements, and then the commit; an error leaves the tables as they were.
  unfoldable pub in_transaction :
      {A : Type 0} → Tables → Result Tables RepoError → A → Tables × Result A RepoError
  unfolding committed
  in_transaction before body a =
      if faulty Statement.begin then (before, err RepoError.internal) else committed before body a
