-- ===== src/Agent/Cpp.antt =====
-- services/crates/judge_core_agent/src/verdict/cpp.rs: compiling and running C++.
-- What the operating system answers to each call is a parameter, as is the moment that
-- `tokio::select!` reacts to. Errors are carried by their message.
pub mod Output
pub mod Acceptance
pub mod Compiling
mod Tests
use oj_monorepo.Base.{
  ℕ, ℤ, ◌+◌, ◌%◌, ltb, leb, ◌||◌, String, str_eq, len, slice, is_char_boundary, Bool, true, false,
  Option, none, some, Result, ok, err, and_then, if◌then◌else◌, u64_mod,
}
use oj_monorepo.Shared.Models.{Case, CaseVerdict, KilledReason, ResourcesLimit, ResourcesUsage}
use oj_monorepo.Agent.Verdict.{CompileResult}

-- `ExitStatus`: an exit code, the signal that ended the process, or neither.
pub data ExitStatus : Type 0 where
  exited : (code : ℤ) → ExitStatus
  signaled : (signal : ℤ) → ExitStatus
  unknown : ExitStatus

abbrev pub is_success : ExitStatus → Bool
is_success (ExitStatus.exited (ℤ.pos n)) = leb n 0
is_success (ExitStatus.exited (ℤ.negsuc n)) = false
is_success (ExitStatus.signaled signal) = false
is_success ExitStatus.unknown = false

-- `timeout(.., child.wait())`, with what `kill` answers where the time is over.
pub data Waited : Type 0 where
  ended : Result ExitStatus String → Waited
  elapsed : Result {0, 0} Unit String → Waited

-- One run of a tool.
pub record Tool : Type 0 where
  pub spawn : Result {0, 0} Unit String
  pub waited : Waited
  pub stderr : Result String String

unfoldable pub failure_message : Tool → Result CompileResult String
failure_message tool =
    and_then tool.stderr (λ message. ok (CompileResult.compilation_error message))

unfoldable pub finished :
    Tool → ExitStatus → Result CompileResult String → Result CompileResult String
unfolding failure_message
finished tool status next = if is_success status then next else failure_message tool

unfoldable pub waited_for :
    Tool → Waited → Result CompileResult String → Result CompileResult String
unfolding finished
waited_for tool (Waited.ended status) next = and_then status (λ s. finished tool s next)
waited_for tool (Waited.elapsed killed) next = and_then killed (λ u. ok CompileResult.timeout)

-- A tool, and what is done where it succeeds.
unfoldable pub run_tool : Tool → Result CompileResult String → Result CompileResult String
unfolding waited_for
run_tool tool next = and_then tool.spawn (λ u. waited_for tool tool.waited next)

-- `compile`: the source is written, compiled by `ccache g++ -c` and linked by `g++`.
unfoldable pub compile : Result {0, 0} Unit String → Tool → Tool → Result CompileResult String
unfolding run_tool
compile write cc ld = and_then write (λ u. run_tool cc (run_tool ld (ok CompileResult.success)))

pub data StdinWrite : Type 0 where
  written : StdinWrite
  broken_pipe : StdinWrite
  failed : String → StdinWrite

-- The branch of `tokio::select!` that is taken, with what `wait` or `kill` answers.
pub data Selected : Type 0 where
  child_ended : Result ExitStatus String → Selected
  output_notified : Result {0, 0} Unit String → Selected
  slept : Result {0, 0} Unit String → Selected

pub data ChildOutcome : Type 0 where
  exited : ExitStatus → ChildOutcome
  output_exceeded : ChildOutcome
  wall_timeout : ChildOutcome

-- A run of the compiled program: `stdout` and `stderr` are all that it writes, or the error of
-- reading it.
pub record Run : Type 0 where
  pub cgroup : Result {0, 0} Unit String
  pub spawn : Result {0, 0} Unit String
  pub add_task : Result {0, 0} Unit String
  pub stdin : StdinWrite
  pub selected : Selected
  pub stdout : Result String String
  pub stderr : Result String String
  pub usage : ResourcesUsage
  pub was_oom_killed : Bool

unfoldable pub stdin_written : StdinWrite → Result {0, 0} Unit String
stdin_written StdinWrite.written = ok tt
stdin_written StdinWrite.broken_pipe = ok tt
stdin_written (StdinWrite.failed e) = err e

unfoldable pub outcome_of : Selected → Result ChildOutcome String
outcome_of (Selected.child_ended status) = and_then status (λ s. ok (ChildOutcome.exited s))
outcome_of (Selected.output_notified killed) =
    and_then killed (λ u. ok ChildOutcome.output_exceeded)
outcome_of (Selected.slept killed) = and_then killed (λ u. ok ChildOutcome.wall_timeout)

-- `take(n)` and `read_to_string`: a text that is cut inside a character is an error.
unfoldable pub capped : ℕ → String → Result String String
capped n s =
    if leb (len s) n
    then ok s
    else if is_char_boundary s n
    then ok (slice s 0 n)
    else err "stream did not contain valid UTF-8"

unfoldable pub read_capped : ℕ → Result String String → Result String String
unfolding capped
read_capped output_limit output = and_then output (capped ((output_limit + 1) % u64_mod))

-- The end of a program that has not succeeded, and was not stopped by the judge.
unfoldable pub broken : Run → String → String → ExitStatus → CaseVerdict
broken run stdout stderr (ExitStatus.exited code) = CaseVerdict.runtime_error stderr code
broken run stdout stderr (ExitStatus.signaled signal) =
    CaseVerdict.killed
      (if run.was_oom_killed
        then KilledReason.memory_limit_exceeded
        else KilledReason.signaled signal)
      stdout stderr
broken run stdout stderr ExitStatus.unknown =
    CaseVerdict.killed
      (if run.was_oom_killed
        then KilledReason.memory_limit_exceeded
        else KilledReason.signaled (ℤ.pos 0))
      stdout stderr

unfoldable pub checked : Run → Case → ResourcesLimit → String → String → CaseVerdict
checked run case limit stdout stderr =
    if ltb limit.cpu_time_ms run.usage.cpu_time_ms
    then CaseVerdict.killed KilledReason.cpu_time_limit_exceeded stdout stderr
    else if ltb limit.output_bytes (len stdout) || ltb limit.output_bytes (len stderr)
    then CaseVerdict.killed KilledReason.output_limit_exceeded stdout stderr
    else if str_eq case.output stdout
    then CaseVerdict.accepted run.usage
    else CaseVerdict.wrong_answer case stdout stderr

unfoldable pub decided : Run → Case → ResourcesLimit → String → String → ChildOutcome → CaseVerdict
unfolding checked broken
decided run case limit stdout stderr ChildOutcome.output_exceeded =
    CaseVerdict.killed KilledReason.output_limit_exceeded stdout stderr
decided run case limit stdout stderr ChildOutcome.wall_timeout =
    CaseVerdict.killed KilledReason.wall_time_limit_exceeded stdout stderr
decided run case limit stdout stderr (ChildOutcome.exited status) =
    if is_success status
    then checked run case limit stdout stderr
    else broken run stdout stderr status

-- `verdict`, from the first call to the last.
unfoldable pub verdict : Run → Case → ResourcesLimit → Result CaseVerdict String
unfolding stdin_written outcome_of read_capped decided
verdict run case limit = and_then run.cgroup (λ u. and_then run.spawn (λ u.
    and_then run.add_task (λ u. and_then (stdin_written run.stdin) (λ u.
      and_then (outcome_of run.selected) (λ outcome.
        and_then (read_capped limit.output_bytes run.stdout) (λ stdout.
          and_then (read_capped limit.output_bytes run.stderr)
            (λ stderr. ok (decided run case limit stdout stderr outcome))))))))
