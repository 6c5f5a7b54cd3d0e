-- ===== src/Agent/Verdict.antt =====
-- services/crates/judge_core_agent/src/verdict/mod.rs: `handle`, the judging of one task.
-- The `Verdict` implementation is a parameter. The order in which the `JoinSet` yields the cases
-- of a batch is free: `picks k` says which of the cases still running ends at the k-th join.
-- Errors are carried by their message.
pub mod Joins
pub mod Batches
pub mod Answers
pub mod Collecting
pub mod Stopping
pub mod Handling
mod Tests
use oj_monorepo.Base.{
  ℕ, zero, suc, ◌+◌, ◌%◌, min, max, String, List, [], ◌∷◌, Bool, true, false, Option, none, some,
  Result, ok, err, length, get_elem?, set, erase_at, take, drop, replicate, if◌then◌else◌,
}
use oj_monorepo.Shared.Models.{
  Case, CaseVerdict, ResourcesLimit, ResourcesUsage, VerdictTask, VerdictTaskResult,
}

pub data CompileResult : Type 0 where
  success : CompileResult
  timeout : CompileResult
  compilation_error : (message : String) → CompileResult

-- How a spawned `verdict` ends: with its result, or by a panic.
pub data Ended : Type 0 where
  returned : Result CaseVerdict String → Ended
  panicked : String → Ended

pub record Running : Type 0 where
  pub index : ℕ
  pub ended : Ended

-- The local variables of the loops. `joins` counts the joins that have been made, and `cleanups` the
-- calls of `cleanup`.
pub record Progress : Type 0 where
  pub collected : List (Option CaseVerdict)
  pub max_usage : Option ResourcesUsage
  pub joins : ℕ
  pub cleanups : ℕ

-- The implementation of `Verdict`, as `handle` sees it.
pub record Judge : Type 0 where
  pub prepare : Result {0, 0} Unit String
  pub compile : String → Result CompileResult String
  pub verdict : Case → ResourcesLimit → ℕ → Ended

-- The result of `handle`, and how often it has called `cleanup`.
pub record Handled : Type 0 where
  pub result : VerdictTaskResult
  pub cleanups : ℕ

abbrev pub batch_max : ℕ
batch_max = 8

unfoldable pub raise_usage : Option ResourcesUsage → ResourcesUsage → ResourcesUsage
raise_usage none usage = usage
raise_usage (some m) usage = record {
  cpu_time_ms = max m.cpu_time_ms usage.cpu_time_ms;
  wall_time_ms = max m.wall_time_ms usage.wall_time_ms;
  memory_bytes = max m.memory_bytes usage.memory_bytes;
}

-- A verdict, where the first one that is not accepted ends the task.
unfoldable pub accept : CaseVerdict → Progress → Result Progress Handled
unfolding raise_usage
accept (CaseVerdict.accepted usage) p =
    ok (record p { max_usage = some (raise_usage p.max_usage usage) })
accept (CaseVerdict.wrong_answer wrong_case received stderr) p = err (record {
  result = VerdictTaskResult.stopped (CaseVerdict.wrong_answer wrong_case received stderr);
  cleanups = p.cleanups + 1;
})
accept (CaseVerdict.killed reason stdout stderr) p = err (record {
  result = VerdictTaskResult.stopped (CaseVerdict.killed reason stdout stderr);
  cleanups = p.cleanups + 1;
})
accept (CaseVerdict.runtime_error stderr exit_code) p = err (record {
  result = VerdictTaskResult.stopped (CaseVerdict.runtime_error stderr exit_code);
  cleanups = p.cleanups + 1;
})

-- What `join_next` has yielded. An error leaves both loops with what `handle` returns.
unfoldable pub joined : Bool → ℕ → Ended → Progress → Result Progress Handled
unfolding accept
joined true index (Ended.returned (ok verdict)) p = accept verdict p
joined false index (Ended.returned (ok verdict)) p =
    ok (record p { collected = set p.collected index (some verdict) })
joined stop index (Ended.returned (err e)) p =
    err (record { result = VerdictTaskResult.internal e; cleanups = p.cleanups + 1 })
joined stop index (Ended.panicked e) p =
    err (record { result = VerdictTaskResult.internal e; cleanups = p.cleanups + 1 })

-- `into_iter().map(Option::unwrap)`; `none` is the panic.
unfoldable pub unwrap_all : List (Option CaseVerdict) → Option (List CaseVerdict)
unwrap_all [] = some []
unwrap_all (none ∷ vs) = none
unwrap_all (some v ∷ vs) = elim (unwrap_all vs) [ none ↦ none | some rest ↦ some (v ∷ rest) ]

module _ (picks : ℕ → ℕ) (stop : Bool) where
  -- The inner loop, on the number of cases that are still running.
  unfoldable pub join_all : ℕ → List Running → Progress → Result Progress Handled
  unfolding joined
  join_all zero running p = ok p
  join_all (suc n) running p =
      let i = picks p.joins % length running in
      elim (get_elem? running i) [
        | none ↦ ok p
        | some r ↦ elim (joined stop r.index r.ended (record p { joins = suc p.joins })) [
          | ok p' ↦ join_all n (erase_at running i) p'
          | err result ↦ err result
        ]
      ]

  module _ (judge : Judge) (limits : ResourcesLimit) (ids : ℕ → ℕ) where
    -- The cases of a batch, spawned; `ids` is what `VERDICT_ID`, which all tasks share, yields.
    unfoldable pub spawned : ℕ → List Case → List Running
    spawned case_idx [] = []
    spawned case_idx (case ∷ cases) =
        record { index = case_idx; ended = judge.verdict case limits (ids case_idx) }
        ∷ spawned (suc case_idx) cases

    -- The outer loop, on fuel: each round takes at least one case.
    unfoldable pub run_batches : ℕ → ℕ → List Case → Progress → Result Progress Handled
    unfolding spawned join_all
    run_batches zero case_idx cases p = ok p
    run_batches (suc fuel) case_idx [] p = ok p
    run_batches (suc fuel) case_idx (case ∷ cases) p =
        let size = min batch_max (length (case ∷ cases)) in
        elim (join_all size (spawned case_idx (take size (case ∷ cases))) p) [
          | ok p' ↦ run_batches fuel (case_idx + size) (drop size (case ∷ cases)) p'
          | err result ↦ err result
        ]

-- The last call of `cleanup`, after the loops.
unfoldable pub cleaned : Progress → Progress
cleaned p = record p { cleanups = p.cleanups + 1 }

-- What is returned then; `none` is a panic of `unwrap`.
unfoldable pub final_result : Bool → Progress → Option Handled
unfolding unwrap_all
final_result true p = elim p.max_usage [
  | none ↦ none
  | some usage ↦
      some (record { result = VerdictTaskResult.all_passed usage; cleanups = p.cleanups })
]
final_result false p = elim (unwrap_all p.collected) [
  | none ↦ none
  | some cases ↦ some (record { result = VerdictTaskResult.collected cases; cleanups = p.cleanups })
]

unfoldable pub conclude : Bool → Result Progress Handled → Option Handled
unfolding cleaned final_result
conclude stop (err exit) = some exit
conclude stop (ok p) = final_result stop (cleaned p)

abbrev pub no_usage : ResourcesUsage
no_usage = record { cpu_time_ms = 0; wall_time_ms = 0; memory_bytes = 0 }

-- What follows a successful compilation.
unfoldable pub judge_cases :
    (ℕ → ℕ) → Judge → (ℕ → ℕ) → Bool → ResourcesLimit → List Case → Option Handled
unfolding run_batches conclude
judge_cases picks judge ids stop limits [] =
    some (record { result = VerdictTaskResult.all_passed no_usage; cleanups = 1 })
judge_cases picks judge ids stop limits (c ∷ cs) = conclude stop (
    run_batches picks stop judge limits ids (length (c ∷ cs)) 0 (c ∷ cs) (record {
      collected = (if stop then [] else replicate (length (c ∷ cs)) none);
      max_usage = none;
      joins = 0;
      cleanups = 0;
    }))

unfoldable pub compiled :
    (ℕ → ℕ) → Judge → (ℕ → ℕ) → VerdictTask → Result CompileResult String → Option Handled
unfolding judge_cases
compiled picks judge ids task (err e) =
    some (record { result = VerdictTaskResult.internal e; cleanups = 1 })
compiled picks judge ids task (ok (CompileResult.compilation_error message)) =
    some (record { result = VerdictTaskResult.compilation_error message; cleanups = 1 })
compiled picks judge ids task (ok CompileResult.timeout) =
    some (record { result = VerdictTaskResult.compilation_error "Timeout"; cleanups = 1 })
compiled picks judge ids task (ok CompileResult.success) =
    judge_cases picks judge ids task.stop_on_first_error task.limits task.cases

-- The whole of `handle`; `none` is a panic.
unfoldable pub handle : (ℕ → ℕ) → Judge → (ℕ → ℕ) → VerdictTask → Option Handled
unfolding compiled
handle picks judge ids task = elim judge.prepare [
  | err e ↦ some (record { result = VerdictTaskResult.internal e; cleanups = 0 })
  | ok u ↦ compiled picks judge ids task (judge.compile task.source)
]
