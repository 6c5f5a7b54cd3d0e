-- ===== src/Agent/Cpp/Tests.antt =====
-- A run and a compilation at concrete answers of the operating system.
use oj_monorepo.Base.{ℤ, String, ◌≡◌, ◌↔◌, Result, ok, false, arith}
use oj_monorepo.Shared.Models.{Case, CaseVerdict, ResourcesLimit, ResourcesUsage}
use oj_monorepo.Agent.Cpp.{ExitStatus, StdinWrite, Selected, Run, Tool, Waited, verdict}
use oj_monorepo.Agent.Cpp.Acceptance.{IsAcceptedRun, verdict-accepted}

abbrev usage : ResourcesUsage
usage = record { cpu_time_ms = 10; wall_time_ms = 20; memory_bytes = 1000 }

abbrev program : Run
program = record {
  cgroup = ok tt;
  spawn = ok tt;
  add_task = ok tt;
  stdin = StdinWrite.broken_pipe;
  selected = Selected.child_ended (ok (ExitStatus.exited (ℤ.pos 0)));
  stdout = ok "3";
  stderr = ok "";
  usage = usage;
  was_oom_killed = false;
}

abbrev case : Case
case = record { input = "1 2"; output = "3" }

abbrev limit : ResourcesLimit
limit = record {
  cpu_time_ms = 1000;
  wall_time_ms = 2000;
  memory_bytes = 1000000;
  output_bytes = 100;
}

verdict-accepted_example :
    (verdict program case limit ≡ ok (CaseVerdict.accepted usage))
    ↔ (IsAcceptedRun program case limit × (usage ≡ usage))
verdict-accepted_example = verdict-accepted program case limit usage (omega arith)

abbrev tool : Tool
tool = record {
  spawn = ok tt;
  waited = Waited.ended (ok (ExitStatus.exited (ℤ.pos 0)));
  stderr = ok "";
}

abbrev wrote : Result {0, 0} Unit String
wrote = ok tt
