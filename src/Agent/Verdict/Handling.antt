-- ===== src/Agent/Verdict/Handling.antt =====
-- `handle` as a whole: it always returns, and cleans up what it has prepared.
use oj_monorepo.Base.{ℕ, ◌≡◌, refl, Bool, true, false, String, List, [], ◌∷◌, some, Result, ok, err}
use oj_monorepo.Shared.Models.{Case, ResourcesLimit, VerdictTask, VerdictTaskResult}
use oj_monorepo.Agent.Verdict.{
  Judge, CompileResult, Handled, judge_cases, compiled, handle, no_usage,
}
use oj_monorepo.Agent.Verdict.Answers.{CleanedUp, IsCollection, IsStop}
use oj_monorepo.Agent.Verdict.Collecting.{judge_cases-IsCollection}
use oj_monorepo.Agent.Verdict.Stopping.{judge_cases-IsStop}

module _ (judge : Judge) (ids : ℕ → ℕ) where
  -- What the result of judging may be, from the cases and the way of stopping.
  abbrev pub IsJudged : Bool → ResourcesLimit → List Case → VerdictTaskResult → Type 0
  IsJudged stop limits [] r = r ≡ VerdictTaskResult.all_passed no_usage
  IsJudged true limits (c ∷ cs) r = IsStop judge limits ids (c ∷ cs) r
  IsJudged false limits (c ∷ cs) r = IsCollection judge limits ids (c ∷ cs) r

  abbrev pub IsCompiled : VerdictTask → Result CompileResult String → VerdictTaskResult → Type 0
  IsCompiled task (err e) r = r ≡ VerdictTaskResult.internal e
  IsCompiled task (ok (CompileResult.compilation_error m)) r =
      r ≡ VerdictTaskResult.compilation_error m
  IsCompiled task (ok CompileResult.timeout) r = r ≡ VerdictTaskResult.compilation_error "Timeout"
  IsCompiled task (ok CompileResult.success) r =
      IsJudged task.stop_on_first_error task.limits task.cases r

  abbrev pub IsHandled : VerdictTask → Result {0, 0} Unit String → Handled → Type 0
  IsHandled task (err e) h = (h.result ≡ VerdictTaskResult.internal e) × (h.cleanups ≡ 0)
  IsHandled task (ok u) h = IsCompiled task (judge.compile task.source) h.result × (h.cleanups ≡ 1)

  judge_cases-IsJudged :
      (picks : ℕ → ℕ) (stop : Bool) (limits : ResourcesLimit) (cases : List Case)
      → (h : Handled) × (judge_cases picks judge ids stop limits cases ≡ some h)
        × CleanedUp (IsJudged stop limits cases) h
  unfolding judge_cases
  judge_cases-IsJudged picks stop limits [] =
      (record { result = VerdictTaskResult.all_passed no_usage; cleanups = 1 }, refl, (refl, refl))
  judge_cases-IsJudged picks true limits (c ∷ cs) = judge_cases-IsStop picks judge ids limits c cs
  judge_cases-IsJudged picks false limits (c ∷ cs) =
      judge_cases-IsCollection picks judge ids limits c cs

  compiled-IsCompiled :
      (picks : ℕ → ℕ) (task : VerdictTask) (c : Result CompileResult String)
      → (h : Handled) × (compiled picks judge ids task c ≡ some h)
        × (IsCompiled task c h.result × (h.cleanups ≡ 1))
  unfolding compiled
  compiled-IsCompiled picks task (err e) =
      (record { result = VerdictTaskResult.internal e; cleanups = 1 }, refl, (refl, refl))
  compiled-IsCompiled picks task (ok (CompileResult.compilation_error m)) =
      (record { result = VerdictTaskResult.compilation_error m; cleanups = 1 }, refl, (refl, refl))
  compiled-IsCompiled picks task (ok CompileResult.timeout) = (
    record { result = VerdictTaskResult.compilation_error "Timeout"; cleanups = 1 },
    refl,
    (refl, refl),
  )
  compiled-IsCompiled picks task (ok CompileResult.success) =
      judge_cases-IsJudged picks task.stop_on_first_error task.limits task.cases

  -- Judging a task never panics. A task that cannot be prepared gets an internal error and is not
  -- cleaned up; any other is cleaned up exactly once, on every branch: where compiling fails, takes
  -- too long or is refused, the answer is the error of that, and where it succeeds, the answer is
  -- what the verdicts of the cases call for, in whatever order they come.
  pub handle-IsHandled :
      (picks : ℕ → ℕ) (task : VerdictTask)
      → (h : Handled) × (handle picks judge ids task ≡ some h) × IsHandled task judge.prepare h
  unfolding handle
  handle-IsHandled picks task =
      elim judge.prepare
        as (λ p.
          (h : Handled) × ((elim p [
            | err e ↦ some (record { result = VerdictTaskResult.internal e; cleanups = 0 })
            | ok u ↦ compiled picks judge ids task (judge.compile task.source)
          ])
            ≡ some h)
          × IsHandled task p h) [
            | err e ↦
                (record { result = VerdictTaskResult.internal e; cleanups = 0 }, refl, (refl, refl))
            | ok u ↦ compiled-IsCompiled picks task (judge.compile task.source)
          ]
