-- ===== src/Agent/Verdict/Answers.antt =====
-- What a judged task promises, said of the verdicts alone and not of the loops.
use oj_monorepo.Base.{ℕ, ◌≤◌, ◌<◌, ◌≡◌, ◌⊎◌, String, List, some, ok, err, length, get_elem?}
use oj_monorepo.Shared.Models.{Case, CaseVerdict, ResourcesLimit, ResourcesUsage, VerdictTaskResult}
use oj_monorepo.Agent.Verdict.{Judge, Ended, Handled}

-- A result of this kind, with `cleanup` called exactly once on the way to it.
abbrev pub CleanedUp : (VerdictTaskResult → Type 0) → Handled → Type 0
CleanedUp IsResult h = IsResult h.result × (h.cleanups ≡ 1)

module _ (judge : Judge) (limits : ResourcesLimit) (ids : ℕ → ℕ) (all : List Case) where
  -- The case at an index has this end.
  abbrev pub EndsAs : ℕ → Ended → Type 0
  EndsAs i e = (c : Case) × (get_elem? all i ≡ some c) × (judge.verdict c limits (ids i) ≡ e)

  abbrev pub HasVerdict : ℕ → CaseVerdict → Type 0
  HasVerdict i v = EndsAs i (Ended.returned (ok v))

  -- A case has failed to give a verdict, with this message.
  abbrev pub IsFault : String → Type 0
  IsFault m = (i : ℕ) × (EndsAs i (Ended.returned (err m)) ⊎ EndsAs i (Ended.panicked m))

  abbrev pub IsWithin : ResourcesUsage → ResourcesUsage → Type 0
  IsWithin u m =
      (u.cpu_time_ms ≤ m.cpu_time_ms)
      × (u.wall_time_ms ≤ m.wall_time_ms)
      × (u.memory_bytes ≤ m.memory_bytes)

  -- The case at an index is accepted within `m`.
  abbrev pub IsAcceptedWithin : ResourcesUsage → ℕ → Type 0
  IsAcceptedWithin m i = (u : ResourcesUsage) × HasVerdict i (CaseVerdict.accepted u) × IsWithin u m

  -- An accepted case has a usage with this property.
  abbrev pub IsAttained : (ResourcesUsage → Type 0) → Type 0
  IsAttained P = (i : ℕ) × (u : ResourcesUsage) × HasVerdict i (CaseVerdict.accepted u) × P u

  abbrev pub IsLeast : ResourcesUsage → Type 0
  IsLeast m =
      IsAttained (λ (u : ResourcesUsage). u.cpu_time_ms ≡ m.cpu_time_ms)
      × IsAttained (λ (u : ResourcesUsage). u.wall_time_ms ≡ m.wall_time_ms)
      × IsAttained (λ (u : ResourcesUsage). u.memory_bytes ≡ m.memory_bytes)

  abbrev pub IsRejection : CaseVerdict → Type 0
  IsRejection (CaseVerdict.accepted u) = ⊥
  IsRejection (CaseVerdict.wrong_answer c r e) = Unit
  IsRejection (CaseVerdict.killed k o e) = Unit
  IsRejection (CaseVerdict.runtime_error e c) = Unit

  -- With every verdict asked for: one for each case, in the order of the cases, or a fault.
  abbrev pub IsCollection : VerdictTaskResult → Type 0
  IsCollection (VerdictTaskResult.collected vs) =
      (length vs ≡ length all)
      × ((i : ℕ) → i < length all → (v : CaseVerdict) × (get_elem? vs i ≡ some v) × HasVerdict i v)
  IsCollection (VerdictTaskResult.internal m) = IsFault m
  IsCollection (VerdictTaskResult.all_passed u) = ⊥
  IsCollection (VerdictTaskResult.stopped v) = ⊥
  IsCollection (VerdictTaskResult.compilation_error m) = ⊥

  -- Stopping on the first error: every case accepted and the largest usage of each kind, or one
  -- of the rejections, or a fault.
  abbrev pub IsStop : VerdictTaskResult → Type 0
  IsStop (VerdictTaskResult.all_passed m) =
      ((i : ℕ) → i < length all → IsAcceptedWithin m i) × IsLeast m
  IsStop (VerdictTaskResult.stopped v) = IsRejection v × ((i : ℕ) × HasVerdict i v)
  IsStop (VerdictTaskResult.internal m) = IsFault m
  IsStop (VerdictTaskResult.collected vs) = ⊥
  IsStop (VerdictTaskResult.compilation_error m) = ⊥
