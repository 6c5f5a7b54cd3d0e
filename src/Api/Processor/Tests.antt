-- ===== src/Api/Processor/Tests.antt =====
-- Submissions on small tables, with toy libraries.
use oj_monorepo.Base.{◌≡◌, refl, sym, String, List, [], ◌∷◌, true, Option, none, some, ok}
use oj_monorepo.Shared.Models.{VerdictTask, VerdictTaskResult}
use oj_monorepo.Shared.Http.{VerdictResponse, result_to_response}
use oj_monorepo.Shared.Wire.{Body}
use oj_monorepo.Sdk.{task_submit}
use oj_monorepo.Api.Store.{AcceptableLanguage, Tables, World, ValueCodec, found_problem, written}
use oj_monorepo.Api.Submissions.{
  SubmissionResult, verdict_task, result_of, get, create_pending, mark_completed,
}
use oj_monorepo.Api.Submissions.Spec.{Steps, Kept, read}
use oj_monorepo.Api.Submissions.Simulation.{IsFaithful, IsValid, view}
use oj_monorepo.Api.Submissions.Refinement.{Op, run, run_refines}
use oj_monorepo.Api.Queue.{
  Fields, Json, PostSubmissionRequest, submit_message, post_handler, get_handler,
}
use oj_monorepo.Api.Processor.{JudgeCore, process_message}
use oj_monorepo.Api.Processor.Consumer.{Delivery, Event, Consumer, started, consume}
use oj_monorepo.Api.Processor.Messages.{ReadsBack, post-process_discards}
use oj_monorepo.Api.Processor.Verdicts.{well_named, Settled, process-get_verdict}
use oj_monorepo.Api.Samples.{world, problem, a_submission, tables}

-- A toy JSON, which has texts for the verdicts `internal` only.
abbrev codec : ValueCodec
codec = record {
  to_value = λ v. elim v [ VerdictResponse.internal m ↦ some m | _ ↦ none ];
  from_value = λ m. some (VerdictResponse.internal m);
}

codec-IsFaithful : IsFaithful codec
codec-IsFaithful (VerdictResponse.stopped v) json h = absurd (cc)
codec-IsFaithful (VerdictResponse.all_passed u) json h = absurd (cc)
codec-IsFaithful (VerdictResponse.collected cs) json h = absurd (cc)
codec-IsFaithful (VerdictResponse.internal m) json h = cc
codec-IsFaithful (VerdictResponse.compilation_error m) json h = absurd (cc)

tables-IsValid : IsValid codec tables
unfolding result_of
tables-IsValid = ((tt, tt), (refl, tt))

abbrev calls : List (Op codec)
calls =
    Op.submit world "p1" "cat" "int x;" AcceptableLanguage.cpp tables
    ∷ Op.judged world "s1" (VerdictResponse.internal "lost") tables
    ∷ []

run_refines_example :
    IsValid codec (run codec calls tables)
    × Steps (view codec tables) (view codec (run codec calls tables))
    × Kept (view codec tables "s1") (view codec (run codec calls tables) "s1")
    × (get codec world "bob" "s1" (run codec calls tables)
        ≡ ok (read "bob" (view codec (run codec calls tables) "s1")))
run_refines_example =
    run_refines codec calls tables world "bob" "s1" codec-IsFaithful tables-IsValid refl

-- Bytes that are the object itself.
abbrev json : Json Fields
json = record { to_vec = λ f. some f; from_slice = λ b. some b }

json-ReadsBack : ReadsBack json
json-ReadsBack f b h = sym h

abbrev judge : JudgeCore
judge = record {
  client = record { standalone_mode = true; base_url = "judge" };
  answer = λ k. some (record {
    status = 200;
    body = Body.success (record { message = "ok"; content = VerdictResponse.internal "lost" });
  });
  parse_uuid = λ s. some s;
}

abbrev a_post : PostSubmissionRequest
a_post = record { source_code = "int x;"; problem_id = "p1"; language = AcceptableLanguage.cpp }

abbrev a_task : VerdictTask
a_task =
    verdict_task (problem "p1" "first" 10 none) tables.test_cases "int x;" AcceptableLanguage.cpp

post_runs :
    (post_handler world json "cat" a_post true tables tables).published
    ≡ some (submit_message "n" a_task)
unfolding post_handler found_problem create_pending written
post_runs = refl

post-process_discards_example :
    ((world' : World) (codec' : ValueCodec) (judge' : JudgeCore) (seen' t' : Tables)
      → process_message world' codec' judge' json (submit_message "n" a_task) seen' t'
        ≡ some (record { tables = t'; acks = 1; result = none }))
    × ((id : String) × ((post_handler world json "cat" a_post true tables tables).answer ≡ ok id)
        × (get_handler codec world "cat" id
              (post_handler world json "cat" a_post true tables tables).tables
            ≡ ok SubmissionResult.pending))
post-process_discards_example =
    post-process_discards world world json codec "cat" a_post true tables tables
      (submit_message "n" a_task) json-ReadsBack tables-IsValid refl post_runs

process-get_verdict_example :
    Settled world world codec judge json
      (well_named "s1" a_task)
      "s1"
      "s1"
      tables
      tables
      (a_submission "s1")
      (ok (VerdictTaskResult.internal "lost"))
unfolding result_to_response task_submit
process-get_verdict_example =
    process-get_verdict world world codec judge json (well_named "s1" a_task) "s1" "s1" a_task
      tables tables (a_submission "s1") (a_submission "s1") (ok (VerdictTaskResult.internal "lost"))
      refl ("lost", refl) codec-IsFaithful tables-IsValid refl refl refl refl refl refl refl

-- A message that can be judged, one that cannot be read, and one that comes after the stop.
abbrev a_delivery : Fields → Delivery Fields
a_delivery body = record { body = body; world = world; judge = judge; others = λ t. t }

abbrev history : List (Event Fields)
history =
    Event.delivered (a_delivery (well_named "s1" a_task))
    ∷ Event.consumer_error
    ∷ Event.delivered (a_delivery (submit_message "n" a_task))
    ∷ Event.delivered (a_delivery (well_named "s9" a_task))
    ∷ Event.ctrl_c
    ∷ Event.delivered (a_delivery (well_named "s1" a_task))
    ∷ []

abbrev taken_messages : List (Delivery Fields)
taken_messages =
    a_delivery (well_named "s1" a_task)
    ∷ a_delivery (submit_message "n" a_task)
    ∷ a_delivery (well_named "s9" a_task)
    ∷ []

abbrev ids_of : Option (Consumer Fields) → List String
ids_of none = []
ids_of (some s) = s.finished

consumed : ids_of (consume codec json history (started tables)) ≡ "s1" ∷ []
unfolding consume process_message mark_completed task_submit submit_message result_to_response
    written
consumed = refl
