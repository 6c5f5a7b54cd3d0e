-- ===== src/Manager/Pool/Frames.antt =====
-- Where the task of a frame id is: no step loses a task or answers it twice.
pub mod Runs
use oj_monorepo.Base.{
  ℕ, zero, suc, ◌<◌, ◌≡◌, refl, ltb, leb, ◌==◌, str_eq, String, List, [], ◌∷◌, Bool, true, false,
  ◌∙◌, Option, none, some, Result, ok, err, ap, get_elem?, erase_at, length, find, tally,
  tally-erase_at, tally-append, if◌then◌else◌, ◌+◌, arith, if_cases, Option-cases, inl, inr,
}
use oj_monorepo.Shared.Models.{VerdictTask, VerdictTaskResult}
use oj_monorepo.Manager.Pool.{
  AgentPool, PoolError, QueuedTask, Running, Finished, Reply, Dispatcher, modify,
}
use oj_monorepo.Manager.Pool.Agents.{
  add_agent, registered, fresh_handle, has_id, remove_agent, erase_id, shutdown_agent,
  mark_shutdown, choose_agent,
}
use oj_monorepo.Manager.Pool.Tasks.{
  submit_begin, entered, submit_enqueue, enqueue, push_back, answer, dispatch, dispatch_at, pick,
  launch, receive_signal, wake_signal, wake_signal_at, wake_permit, wake_permit_at, finish, release,
  settle, settle_result, retry,
}
use oj_monorepo.Manager.Pool.Upkeep.{Probe, probed, health_check, checked}
use oj_monorepo.Shared.Protocol.{FrameId}
use oj_monorepo.Manager.Pool.Cases.{
  submit_begin_cases, enqueue_cases, submit_enqueue_cases, dispatch_cases, wake_signal_cases,
  wake_permit_cases, finish_cases, settle_result_cases, settle_cases, add_agent_cases,
  remove_agent_cases, shutdown_agent_cases, health_check_cases, IsParked,
}
use oj_monorepo.Manager.Config.{PoolConfig}
use oj_monorepo.Manager.Pool.Upkeep.{
  reject_all, drain_scan, drain_retain, shutdown_begin, shutdown_reject, shutdown_mark,
  shutdown_clear,
}
use oj_monorepo.Manager.Pool.Steps.{Event, step, run}

-- A task of this frame id.
abbrev pub carries : FrameId → QueuedTask → Bool
carries f t = t.frame_id == f

abbrev pub in_dispatcher : FrameId → Dispatcher → ℕ
in_dispatcher f (Dispatcher.picked h t) = if carries f t then 1 else 0
in_dispatcher f _ = 0

-- How many answers the frame's channel has been sent.
abbrev pub answers : FrameId → List (FrameId × Reply) → ℕ
answers f = tally (λ r. r.0 == f)

-- How many tasks of the frame are on their way: entering, queued, picked, running or finished.
abbrev pub on_the_way : FrameId → AgentPool → ℕ
on_the_way f p =
    tally (carries f) p.entering
    + (tally (carries f) p.task_queue
        + (in_dispatcher f p.dispatcher
            + (tally (λ r. carries f r.queued) p.running
                + tally (λ r. carries f r.queued) p.finished)))

-- A step that takes no new frame id keeps every task: on its way, or answered.
pub record Keeps (p q : AgentPool) : Type 0 where
  pub same_next : q.next_frame_id ≡ p.next_frame_id
  pub same_tasks :
      (f : FrameId) → on_the_way f q + answers f q.replies ≡ on_the_way f p + answers f p.replies

pub Keeps-refl : (p : AgentPool) → Keeps p p
Keeps-refl p = record { same_next = refl; same_tasks = λ f. refl }

submit_enqueue_found :
    (p : AgentPool) (i : ℕ) (t : QueuedTask)
    → get_elem? p.entering i ≡ some t
    → Keeps p (enqueue (record p { entering = erase_at p.entering i }) t)
submit_enqueue_found p i t e =
    enqueue_cases (Keeps p) _ t
      (record {
        same_next = refl;
        same_tasks = λ f. omega (arith, tally-erase_at (carries f) p.entering i t e);
      })
      (λ _. record {
        same_next = refl;
        same_tasks = λ f. omega (
          arith,
          tally-erase_at (carries f) p.entering i t e,
          tally-append (carries f) p.task_queue (t ∷ []),
        );
      })

pub submit_enqueue-Keeps : (p : AgentPool) (i : ℕ) → Keeps p (submit_enqueue p i)
submit_enqueue-Keeps p i =
    submit_enqueue_cases (Keeps p) p i (Keeps-refl p) (submit_enqueue_found p i)

pub parked-none : (f : FrameId) (d : Dispatcher) → IsParked d → in_dispatcher f d ≡ 0
parked-none f d (inl e) = rw e
parked-none f d (inr e) = rw e

-- The dispatcher moves between states in which it holds no task.
pub moved-Keeps :
    (p : AgentPool) (d : Dispatcher) (n : ℕ) (permit : Bool)
    → ((f : FrameId) → in_dispatcher f p.dispatcher ≡ 0)
    → ((f : FrameId) → in_dispatcher f d ≡ 0)
    → Keeps p (record p { dispatcher = d; signals = n; permit = permit })
moved-Keeps p d n permit from to = record {
  same_next = refl;
  same_tasks = λ f. omega (arith, from f, to f);
}

pub dispatch-Keeps : (p : AgentPool) → Keeps p (dispatch p)
unfolding launch
dispatch-Keeps p =
    dispatch_cases (Keeps p) p (Keeps-refl p)
      (λ e. moved-Keeps p _ p.signals p.permit (λ f. rw e) (λ f. refl))
      (λ e. moved-Keeps p _ p.signals p.permit (λ f. rw e) (λ f. refl))
      (λ e t rest h q _. record {
        same_next = refl;
        same_tasks = λ f.
            let none_held : in_dispatcher f p.dispatcher ≡ 0 = rw e in
            omega (arith, none_held, ap (tally (carries f)) q);
      })
      (λ h t e. record {
        same_next = refl;
        same_tasks = λ f. omega (arith, ap (in_dispatcher f) e);
      })

pub wake_signal-Keeps : (p : AgentPool) → Keeps p (wake_signal p)
wake_signal-Keeps p =
    wake_signal_cases (Keeps p) p (Keeps-refl p)
      (λ n w _. moved-Keeps p _ n p.permit (λ f. parked-none f _ w) (λ f. refl))

pub wake_permit-Keeps : (p : AgentPool) → Keeps p (wake_permit p)
wake_permit-Keeps p =
    wake_permit_cases (Keeps p) p (Keeps-refl p)
      (λ w. moved-Keeps p _ p.signals false (λ f. parked-none f _ w) (λ f. refl))

pub finish-Keeps : (p : AgentPool) (i : ℕ) (result : Reply) → Keeps p (finish p i result)
unfolding release
finish-Keeps p i result = finish_cases (Keeps p) p i result (Keeps-refl p) λ r e. record {
  same_next = refl;
  same_tasks = λ f. omega (arith, tally-erase_at (λ q. carries f q.queued) p.running i r e);
}

settled_once :
    (p : AgentPool) (i : ℕ) (s : Finished)
    → get_elem? p.finished i ≡ some s
    → (r : Reply)
    → Keeps p (answer s.queued.frame_id r (record p { finished = erase_at p.finished i }))
settled_once p i s e r = record {
  same_next = refl;
  same_tasks = λ f. omega (arith, tally-erase_at (λ q. carries f q.queued) p.finished i s e);
}

pub settle-Keeps : (p : AgentPool) (i : ℕ) → Keeps p (settle p i)
settle-Keeps p i = settle_cases (Keeps p) p i (Keeps-refl p) λ s e.
    settle_result_cases (Keeps p) _ s.queued s.result (λ r. settled_once p i s e (ok r))
      (λ _. settled_once p i s e _)
      (λ _. record {
        same_next = refl;
        same_tasks = λ f. omega (
          arith,
          tally-erase_at (λ q. carries f q.queued) p.finished i s e,
          tally-append (carries f) p.task_queue
              (record (s.queued) { retries = s.queued.retries + 1 } ∷ []),
        );
      })

reject_all-answers :
    (f : FrameId) (q : List QueuedTask) (replies : List (FrameId × Reply))
    → answers f (reject_all q replies) ≡ tally (carries f) q + answers f replies
unfolding reject_all
reject_all-answers f [] replies = omega arith
reject_all-answers f (t ∷ ts) replies = omega (arith, reject_all-answers f ts _)

pub shutdown_reject-Keeps : (p : AgentPool) → Keeps p (shutdown_reject p)
unfolding shutdown_reject
shutdown_reject-Keeps p = record {
  same_next = refl;
  same_tasks = λ f. omega (arith, reject_all-answers f p.task_queue p.replies);
}
