-- ===== src/Agent/Server/Exchange.antt =====
-- services/crates/judge_core_agent/src/main.rs and judge_core_shared/src/protocol.rs: a task on its
-- way from the manager to an agent, and its result on the way back.
use oj_monorepo.Base.{ℕ, ◌≡◌, refl, ap, subst, ◌∙◌, List, [], ◌++◌, Option, some, ok}
use oj_monorepo.Shared.Models.{VerdictTask, VerdictTaskResult}
use oj_monorepo.Shared.Protocol.{FrameId}
use oj_monorepo.Shared.Framing.{
  Codec, heartbeat_magic, write_u32, read_u32, send, receive, heartbeat_answer,
}
use oj_monorepo.Shared.Framing.Exchange.{ReadsBack, as_sent, receive-send}
use oj_monorepo.Agent.Verdict.{Handled, handle}
use oj_monorepo.Agent.Verdict.Handling.{IsHandled, handle-IsHandled}
use oj_monorepo.Agent.Server.{Judges, judge_of, send_answer, send_handled, serve_received, serve}

module _ (judges : Judges) (tasks : Codec VerdictTask) (results : Codec VerdictTaskResult) where
  abbrev judged : VerdictTask → Option Handled
  judged task = handle judges.picks (judge_of judges task.language) judges.ids task

  serve-frame :
      (id : FrameId) (task : VerdictTask) (bytes out : List ℕ) (h : Handled)
      → ReadsBack tasks (id, task)
      → send tasks id task ≡ some (ok bytes)
      → judged task ≡ some h
      → send results id h.result ≡ some (ok out)
      → (rest : List ℕ)
      → serve judges tasks results (bytes ++ rest) ≡ some (record { written = out; result = ok tt })
  unfolding serve serve_received send_handled send_answer
  serve-frame id task bytes out h law e j s rest =
      ap (serve_received judges tasks results) (receive-send tasks id task bytes rest law e)
      ∙ ap (send_handled judges tasks results [] id) j
      ∙ ap (send_answer judges tasks results []) s

  serve_heartbeat :
      (rest : List ℕ)
      → serve judges tasks results (write_u32 heartbeat_magic ++ rest)
        ≡ some (record { written = write_u32 heartbeat_magic; result = ok tt })
  unfolding serve serve_received receive read_u32 write_u32
  serve_heartbeat rest = refl

  heartbeat_answered : heartbeat_answer (write_u32 heartbeat_magic) ≡ ok tt
  unfolding heartbeat_answer read_u32 write_u32
  heartbeat_answered = refl

  -- A task that the manager sends is judged by the agent, whatever order its cases end in: the handling
  -- of the task ends with a result that fits the judge's answers, and where that result can be sent, the
  -- agent writes it and nothing else, and the manager receives the result of this task under the id of
  -- this task. A heartbeat is answered with what the manager takes for an answer. Postcard reads the
  -- two frames as it has written them.
  pub receive-serve :
      (id : FrameId) (task : VerdictTask) (bytes out rest : List ℕ) (h : Handled)
      → ReadsBack tasks (id, task)
      → ReadsBack results (id, h.result)
      → send tasks id task ≡ some (ok bytes)
      → judged task ≡ some h
      → send results id h.result ≡ some (ok out)
      → IsHandled
          (judge_of judges task.language)
          judges.ids
          task
          (judge_of judges task.language).prepare
          h
        × (serve judges tasks results (bytes ++ rest)
            ≡ some (record { written = out; result = ok tt }))
        × (receive results (out ++ rest) ≡ as_sent results id h.result rest)
        × (serve judges tasks results (write_u32 heartbeat_magic ++ rest)
            ≡ some (record { written = write_u32 heartbeat_magic; result = ok tt }))
        × (heartbeat_answer (write_u32 heartbeat_magic) ≡ ok tt)
  receive-serve id task bytes out rest h law back e j s = (
    handled,
    serve-frame id task bytes out h law e j s rest,
    receive-send results id h.result out rest back s,
    serve_heartbeat rest,
    heartbeat_answered,
  )
    where
      handled :
          IsHandled
            (judge_of judges task.language)
            judges.ids
            task
            (judge_of judges task.language).prepare
            h
      handled =
          let (g, q, i) =
            handle-IsHandled (judge_of judges task.language) judges.ids judges.picks task in
          let same : g ≡ h = cc in
          subst
            (IsHandled (judge_of judges task.language) judges.ids task
              (judge_of judges task.language).prepare)
            same i
