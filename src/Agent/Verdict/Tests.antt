-- ===== src/Agent/Verdict/Tests.antt =====
-- `handle` on three cases that end in another order than they start.
use oj_monorepo.Base.{ℕ, ℤ, ◌-◌, ◌+◌, ◌≡◌, refl, true, false, [], ◌∷◌, some, ok, ltb, if◌then◌else◌}
use oj_monorepo.Shared.Models.{
  Case, CaseVerdict, Language, ResourcesLimit, VerdictTask, VerdictTaskResult,
}
use oj_monorepo.Agent.Verdict.{Judge, CompileResult, Ended, Handled, judge_cases, handle}
use oj_monorepo.Agent.Verdict.Answers.{CleanedUp, IsCollection, IsStop}
use oj_monorepo.Agent.Verdict.Collecting.{judge_cases-IsCollection}
use oj_monorepo.Agent.Verdict.Stopping.{judge_cases-IsStop}
use oj_monorepo.Agent.Verdict.Handling.{IsHandled, handle-IsHandled}

abbrev case : Case
case = record { input = "1 2"; output = "3" }

abbrev limits : ResourcesLimit
limits = record {
  cpu_time_ms = 1000;
  wall_time_ms = 2000;
  memory_bytes = 1000000;
  output_bytes = 100;
}

abbrev task : VerdictTask
task = record {
  source = "int main() {}";
  cases = case ∷ case ∷ case ∷ [];
  limits = limits;
  language = Language.cpp;
  stop_on_first_error = true;
}

-- Later cases take more time; a fourth one would crash.
abbrev judge : Judge
judge = record {
  prepare = ok tt;
  compile = λ source. ok CompileResult.success;
  verdict = λ c l id. Ended.returned (
      ok (
        if ltb id 3
        then CaseVerdict.accepted
            (record { cpu_time_ms = 10 + id; wall_time_ms = 20 - id; memory_bytes = 5 })
        else CaseVerdict.runtime_error "" (ℤ.pos 1)));
}

abbrev picks : ℕ → ℕ
picks k = 2 - k

abbrev ids : ℕ → ℕ
ids i = i

all_passed :
    handle picks judge ids task
    ≡ some (record {
      result =
          VerdictTaskResult.all_passed
            (record { cpu_time_ms = 12; wall_time_ms = 20; memory_bytes = 5 });
      cleanups = 1;
    })
unfolding handle
all_passed = refl

judge_cases-IsCollection_example :
    (h : Handled) × (judge_cases picks judge ids false limits (case ∷ case ∷ []) ≡ some h)
    × CleanedUp (IsCollection judge limits ids (case ∷ case ∷ [])) h
judge_cases-IsCollection_example = judge_cases-IsCollection picks judge ids limits case (case ∷ [])

judge_cases-IsStop_example :
    (h : Handled) × (judge_cases picks judge ids true limits (case ∷ case ∷ []) ≡ some h)
    × CleanedUp (IsStop judge limits ids (case ∷ case ∷ [])) h
judge_cases-IsStop_example = judge_cases-IsStop picks judge ids limits case (case ∷ [])

handle-IsHandled_example :
    (h : Handled) × (handle picks judge ids task ≡ some h) × IsHandled judge ids task (ok tt) h
handle-IsHandled_example = handle-IsHandled judge ids picks task
