-- ===== src/Agent/Server/Tests.antt =====
-- A task of one case, in encodings that know one frame each.
use oj_monorepo.Base.{ℕ, ◌≡◌, refl, ◌<◌, arith, List, [], ◌∷◌, ◌++◌, true, some, ok, length}
use oj_monorepo.Shared.Models.{
  CaseVerdict, Language, ResourcesUsage, VerdictTask, VerdictTaskResult,
}
use oj_monorepo.Shared.Framing.{Codec, heartbeat_magic, write_u32, send, receive, heartbeat_answer}
use oj_monorepo.Shared.Framing.Exchange.{ReadsBack, as_sent}
use oj_monorepo.Agent.Verdict.{CompileResult, Ended, Handled, handle}
use oj_monorepo.Agent.Verdict.Handling.{IsHandled}
use oj_monorepo.Agent.Server.{Judges, serve}
use oj_monorepo.Agent.Server.Exchange.{receive-serve}

abbrev task : VerdictTask
task = record {
  source = "int main() {}";
  cases = record { input = "1 2"; output = "3" } ∷ [];
  limits = record {
    cpu_time_ms = 1000;
    wall_time_ms = 2000;
    memory_bytes = 1000000;
    output_bytes = 100;
  };
  language = Language.cpp;
  stop_on_first_error = true;
}

abbrev usage : ResourcesUsage
usage = record { cpu_time_ms = 10; wall_time_ms = 20; memory_bytes = 5 }

abbrev judges : Judges
judges = record {
  cpp = record {
    prepare = ok tt;
    compile = λ source. ok CompileResult.success;
    verdict = λ c l id. Ended.returned (ok (CaseVerdict.accepted usage));
  };
  picks = λ k. 0;
  ids = λ i. i;
}

abbrev tasks : Codec VerdictTask
tasks = record { to_allocvec = λ f. some (5 ∷ []); from_bytes = λ b. some (7, task) }

abbrev handled : Handled
handled = record { result = VerdictTaskResult.all_passed usage; cleanups = 1 }

abbrev results : Codec VerdictTaskResult
results = record { to_allocvec = λ f. some (6 ∷ []); from_bytes = λ b. some (7, handled.result) }

one_byte : (b : ℕ) (e : List ℕ) → some (b ∷ []) ≡ some e → 0 < length e
one_byte b [] h = absurd (cc)
one_byte b (x ∷ xs) h = omega arith

tasks-ReadsBack : ReadsBack tasks (7, task)
tasks-ReadsBack e h = (refl, one_byte 5 e h)

results-ReadsBack : ReadsBack results (7, handled.result)
results-ReadsBack e h = (refl, one_byte 6 e h)

receive-serve_example :
    IsHandled judges.cpp judges.ids task judges.cpp.prepare handled
    × (serve judges tasks results ((0 ∷ 0 ∷ 0 ∷ 1 ∷ 5 ∷ []) ++ [])
        ≡ some (record { written = 0 ∷ 0 ∷ 0 ∷ 1 ∷ 6 ∷ []; result = ok tt }))
    × (receive results ((0 ∷ 0 ∷ 0 ∷ 1 ∷ 6 ∷ []) ++ []) ≡ as_sent results 7 handled.result [])
    × (serve judges tasks results (write_u32 heartbeat_magic ++ [])
        ≡ some (record { written = write_u32 heartbeat_magic; result = ok tt }))
    × (heartbeat_answer (write_u32 heartbeat_magic) ≡ ok tt)
unfolding send handle
receive-serve_example =
    receive-serve judges tasks results 7 task (0 ∷ 0 ∷ 0 ∷ 1 ∷ 5 ∷ []) (0 ∷ 0 ∷ 0 ∷ 1 ∷ 6 ∷ []) []
      handled tasks-ReadsBack results-ReadsBack refl refl refl
