-- ===== src/Shared/Models.antt =====
-- services/crates/judge_core_shared/src/models/mod.rs: tasks, limits and verdicts.
-- Numbers of the source's unsigned types are natural numbers below the type's size.
use oj_monorepo.Base.{ℕ, ℤ, String, List, Bool}

pub record ResourcesLimit : Type 0 where
  pub cpu_time_ms : ℕ
  pub wall_time_ms : ℕ
  pub memory_bytes : ℕ
  pub output_bytes : ℕ

pub record ResourcesUsage : Type 0 where
  pub cpu_time_ms : ℕ
  pub wall_time_ms : ℕ
  pub memory_bytes : ℕ

pub record Case : Type 0 where
  pub input : String
  pub output : String

pub data Language : Type 0 where
  cpp : Language

pub record VerdictTask : Type 0 where
  pub source : String
  pub cases : List Case
  pub limits : ResourcesLimit
  pub language : Language
  pub stop_on_first_error : Bool

pub data KilledReason : Type 0 where
  memory_limit_exceeded : KilledReason
  wall_time_limit_exceeded : KilledReason
  cpu_time_limit_exceeded : KilledReason
  output_limit_exceeded : KilledReason
  signaled : (signal : ℤ) → KilledReason

pub data CaseVerdict : Type 0 where
  accepted : (usage : ResourcesUsage) → CaseVerdict
  wrong_answer : (wrong_case : Case) (received stderr : String) → CaseVerdict
  killed : (reason : KilledReason) (stdout stderr : String) → CaseVerdict
  runtime_error : (stderr : String) (exit_code : ℤ) → CaseVerdict

pub data VerdictTaskResult : Type 0 where
  stopped : (verdict : CaseVerdict) → VerdictTaskResult
  all_passed : (max_usage : ResourcesUsage) → VerdictTaskResult
  collected : (cases : List CaseVerdict) → VerdictTaskResult
  internal : (message : String) → VerdictTaskResult
  compilation_error : (message : String) → VerdictTaskResult
