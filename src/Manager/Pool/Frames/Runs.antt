-- ===== src/Manager/Pool/Frames/Runs.antt =====
-- No history of the pool loses a task, makes one up, or answers one twice.
use oj_monorepo.Base.{
  ℕ, suc, ◌<◌, ◌≡◌, refl, ltb, leb, List, [], ◌∷◌, ◌∙◌, sym, ap, subst, length, ◌+◌, ◌≤◌, leb,
  if◌then◌else◌, u64_mod, ◌&&◌, arith,
}
use oj_monorepo.Shared.Models.{VerdictTask}
use oj_monorepo.Shared.Protocol.{FrameId}
use oj_monorepo.Manager.Pool.{AgentPool, new}
use oj_monorepo.Manager.Pool.Tasks.{entered}
use oj_monorepo.Manager.Pool.Cases.{
  submit_begin_cases, add_agent_cases, remove_agent_cases, shutdown_agent_cases, health_check_cases,
}
use oj_monorepo.Manager.Config.{PoolConfig}
use oj_monorepo.Manager.Pool.Upkeep.{
  drain_scan, drain_retain, shutdown_begin, shutdown_mark, shutdown_clear,
}
use oj_monorepo.Manager.Pool.Steps.{Event, step, run}
use oj_monorepo.Manager.Pool.Frames.{
  answers, on_the_way, Keeps, Keeps-refl, submit_enqueue-Keeps, dispatch-Keeps, wake_signal-Keeps,
  wake_permit-Keeps, finish-Keeps, settle-Keeps, shutdown_reject-Keeps,
}

-- An event that takes no frame id.
abbrev pub IsInner : Event → Type 0
IsInner (Event.submits task) = ⊥
IsInner _ = Unit

pub step-Keeps : (p : AgentPool) (e : Event) → IsInner e → Keeps p (step p e)
unfolding step drain_scan drain_retain shutdown_begin shutdown_mark shutdown_clear
step-Keeps p (Event.submits task) h = absurd h
step-Keeps p (Event.enqueues i) h = submit_enqueue-Keeps p i
step-Keeps p Event.dispatches h = dispatch-Keeps p
step-Keeps p Event.wakes_by_signal h = wake_signal-Keeps p
step-Keeps p Event.wakes_by_permit h = wake_permit-Keeps p
step-Keeps p (Event.finishes i connection sent receipt) h = finish-Keeps p i _
step-Keeps p (Event.settles i) h = settle-Keeps p i
step-Keeps p (Event.adds id socket_path now) h =
    add_agent_cases (Keeps p) p id socket_path now (Keeps-refl p)
      (λ _. record { same_next = refl; same_tasks = λ f. refl })
step-Keeps p (Event.removes id) h =
    remove_agent_cases (Keeps p) p id (Keeps-refl p)
      (record { same_next = refl; same_tasks = λ f. refl })
step-Keeps p (Event.shuts_agent id) h =
    shutdown_agent_cases (Keeps p) p id (Keeps-refl p)
      (λ _. record { same_next = refl; same_tasks = λ f. refl })
step-Keeps p (Event.probes h probe) k =
    health_check_cases (Keeps p) p h probe (Keeps-refl p)
      (record { same_next = refl; same_tasks = λ f. refl })
step-Keeps p Event.scans h = record { same_next = refl; same_tasks = λ f. refl }
step-Keeps p Event.retains h = record { same_next = refl; same_tasks = λ f. refl }
step-Keeps p Event.begins_shutdown h = record { same_next = refl; same_tasks = λ f. refl }
step-Keeps p Event.rejects h = shutdown_reject-Keeps p
step-Keeps p Event.marks h = record { same_next = refl; same_tasks = λ f. refl }
step-Keeps p Event.clears h = record { same_next = refl; same_tasks = λ f. refl }

-- The frame ids that a pool has handed out, while its counter has not wrapped.
abbrev pub issued : AgentPool → FrameId → ℕ
issued p f = if leb 1 f && ltb f p.next_frame_id then 1 else 0

-- After at most `n` steps from a new pool.
pub record Accounted (n : ℕ) (p : AgentPool) : Type 0 where
  pub positive : 1 ≤ p.next_frame_id
  pub few : p.next_frame_id ≤ suc n
  pub account : (f : FrameId) → on_the_way f p + answers f p.replies ≡ issued p f

Keeps-Accounted : (n : ℕ) (p q : AgentPool) → Keeps p q → Accounted n p → Accounted (suc n) q
Keeps-Accounted n p q k a = record {
  positive = omega (arith, k.same_next, a.positive);
  few = omega (arith, k.same_next, a.few);
  account = λ f.
      k.same_tasks f
      ∙ (a.account f ∙ ap (λ n. if leb 1 f && ltb f n then 1 else 0) (sym k.same_next));
}

entered-Accounted :
    (n : ℕ) (p : AgentPool) (task : VerdictTask)
    → suc (suc n) < u64_mod
    → Accounted n p
    → Accounted (suc n) (entered p task)
entered-Accounted n p task small a = record {
  positive = omega (arith, a.positive, a.few);
  few = omega (arith, a.positive, a.few);
  account = λ f. ground (arith, a.account f, a.positive, a.few, small);
}

pub step-Accounted :
    (n : ℕ) (p : AgentPool) (e : Event)
    → suc (suc n) < u64_mod
    → Accounted n p
    → Accounted (suc n) (step p e)
unfolding step
step-Accounted n p (Event.submits task) small a =
    submit_begin_cases (Accounted (suc n)) p task (Keeps-Accounted n p p (Keeps-refl p) a)
      (entered-Accounted n p task small a)
step-Accounted n p e small a = Keeps-Accounted n p _ (step-Keeps p e tt) a

run-Accounted :
    (n : ℕ) (p : AgentPool) (es : List Event)
    → suc (n + length es) < u64_mod
    → Accounted n p
    → Accounted (n + length es) (run p es)
unfolding run
run-Accounted n p [] small a = subst (λ m. Accounted m p) (omega arith) a
run-Accounted n p (e ∷ es) small a =
    subst (λ m. Accounted m (run (step p e) es)) (omega arith)
      (run-Accounted (suc n) (step p e) es (omega arith) (step-Accounted n p e (omega arith) a))

pub new-Accounted : (config : PoolConfig) → Accounted 0 (new config)
unfolding new
new-Accounted config = record {
  positive = omega arith;
  few = omega arith;
  account = λ g. ground arith;
}

-- Under every interleaving, from a new pool and for fewer than 2 ^ 64 - 1 steps, the task of each
-- frame id that `submit` has taken is in exactly one place: on its way (entering, queued, with the
-- dispatcher, running or finished) or answered, once. No other frame id has a task or an answer.
pub frames_conserved :
    (config : PoolConfig) (es : List Event)
    → suc (length es) < u64_mod
    → (f : FrameId)
    → on_the_way f (run (new config) es) + answers f (run (new config) es).replies
      ≡ issued (run (new config) es) f
frames_conserved config es small f =
    (run-Accounted 0 (new config) es (omega arith) (new-Accounted config)).account f
