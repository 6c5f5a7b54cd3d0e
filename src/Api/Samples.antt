-- ===== src/Api/Samples.antt =====
-- Small tables, and a world in which nothing fails.
use oj_monorepo.Base.{ℕ, String, starts_with, [], ◌∷◌, false, Option, none, some}
use oj_monorepo.Api.Store.{
  Difficulty, CaseType, SubmissionStatus, AcceptableLanguage, Problem, ProblemTag, TestCase,
  Submission, Tables, World,
}

abbrev pub world : World
world = record {
  now = 70;
  new_id = λ n. "n";
  faulty = λ s. false;
  kept = false;
  problem_rows = λ ps. ps;
  tag_rows = λ rs. rs;
  case_rows = λ cs. cs;
  contains = λ text pattern. starts_with text pattern;
}

abbrev pub problem : String → String → ℕ → Option ℕ → Problem
problem id title created_at deleted_at = record {
  id = id;
  title = title;
  description = "";
  difficulty = Difficulty.noi;
  author_id = "ann";
  created_at = created_at;
  updated_at = created_at;
  deleted_at = deleted_at;
  limit_cpu_time_ms = 1;
  limit_wall_time_ms = 2;
  limit_memory_bytes = 3;
  limit_output_bytes = 4;
}

abbrev pub tagged : String → String → ProblemTag
tagged problem_id tag_id = record { problem_id = problem_id; tag_id = tag_id }

abbrev pub a_case : String → CaseType → TestCase
a_case id typ = record { id = id; problem_id = "p1"; input = "1"; output = "2"; case_type = typ }

abbrev pub a_submission : String → Submission
a_submission id = record {
  id = id;
  problem_id = "p1";
  user_id = "bob";
  source_code = "int main() {}";
  status = SubmissionStatus.pending;
  result = none;
  language = AcceptableLanguage.cpp;
  submitted_at = 60;
  completed_at = none;
}

abbrev pub tables : Tables
tables = record {
  problems =
      problem "p2" "later" 20 none
      ∷ problem "p1" "first" 10 none
      ∷ problem "p3" "gone" 30 (some 40)
      ∷ [];
  problems_tags = tagged "p1" "x" ∷ tagged "p1" "y" ∷ tagged "p2" "x" ∷ tagged "p3" "x" ∷ [];
  tags = "x" ∷ "y" ∷ [];
  test_cases = a_case "c1" CaseType.example ∷ a_case "c2" CaseType.hidden ∷ [];
  submissions = a_submission "s1" ∷ [];
}
