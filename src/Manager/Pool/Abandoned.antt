-- ===== src/Manager/Pool/Abandoned.antt =====
-- A task that fails while the pool shuts down: `settle` queues it again after `shutdown` has rejected
-- the queue.
use oj_monorepo.Base.{
  ℕ, suc, ◌<◌, ◌≡◌, refl, sym, ap, subst, ◌∙◌, arith, min_by_key, keep, List, [], ◌∷◌, ◌++◌, none,
  some, err, get_elem?, erase_at, length, tally, tally-append, All, u64_mod,
}
use oj_monorepo.Manager.Config.{PoolConfig}
use oj_monorepo.Manager.Pool.{AgentPool, PoolError, QueuedTask, Finished, new}
use oj_monorepo.Manager.Pool.Agents.{is_eligible, choose_agent, erase_id}
use oj_monorepo.Manager.Pool.Tasks.{launch, release, settle, settle_result, retry}
use oj_monorepo.Manager.Pool.Cases.{
  submit_begin_cases, enqueue_cases, submit_enqueue_cases, dispatch_cases, wake_signal_cases,
  wake_permit_cases, finish_cases, settle_result_cases, settle_cases, remove_agent_cases,
  shutdown_agent_cases, health_check_cases,
}
use oj_monorepo.Manager.Pool.Upkeep.{
  drain_scan, drain_retain, shutdown_begin, shutdown_reject, shutdown_mark, shutdown_clear,
}
use oj_monorepo.Manager.Pool.Steps.{Event, step, run}
use oj_monorepo.Manager.Pool.Settings.{run-config}
use oj_monorepo.Manager.Pool.Frames.{carries, answers}
use oj_monorepo.Manager.Pool.Frames.Runs.{frames_conserved}
use oj_monorepo.Shared.Protocol.{FrameId}

no_agents : (p : AgentPool) → p.agents ≡ [] → choose_agent p ≡ none
unfolding choose_agent
no_agents p e = ap (λ hs. min_by_key (λ h. (p.store h).active_tasks) (keep (is_eligible p) hs)) e

-- All that may happen, but for a new agent and another rejection of the queue.
abbrev pub IsLater : Event → Type 0
IsLater (Event.adds id socket_path now) = ⊥
IsLater Event.rejects = ⊥
IsLater _ = Unit

-- There is no agent, and a task of the frame in the queue.
module _ (f : FrameId) where
  abbrev Strands : AgentPool → Type 0
  Strands p = (p.agents ≡ []) × (0 < tally (carries f) p.task_queue)

  appended :
      (t : QueuedTask) (q : List QueuedTask)
      → 0 < tally (carries f) q
      → 0 < tally (carries f) (q ++ t ∷ [])
  appended t q h = omega (arith, tally-append (carries f) q (t ∷ []), h)

  step-Strands : (p : AgentPool) (e : Event) → IsLater e → Strands p → Strands (step p e)
  unfolding step launch release drain_scan drain_retain shutdown_begin shutdown_mark shutdown_clear
      erase_id
  step-Strands p (Event.submits task) l s = submit_begin_cases Strands p task s s
  step-Strands p (Event.enqueues i) l s =
      submit_enqueue_cases Strands p i s
        λ t _. enqueue_cases Strands _ t s (λ _. (s.0, appended t p.task_queue s.1))
  step-Strands p Event.dispatches l s =
      dispatch_cases Strands p s (λ _. s) (λ _. s)
        (λ _ t rest h _ c. absurd (let n = no_agents p s.0 in cc)) (λ h t _. s)
  step-Strands p Event.wakes_by_signal l s = wake_signal_cases Strands p s (λ n _ _. s)
  step-Strands p Event.wakes_by_permit l s = wake_permit_cases Strands p s (λ _. s)
  step-Strands p (Event.finishes i connection sent receipt) l s =
      finish_cases Strands p i _ s (λ r _. s)
  step-Strands p (Event.settles i) l s = settle_cases Strands p i s λ g _.
      settle_result_cases Strands _ g.queued g.result (λ _. s) (λ _. s)
        (λ _. (s.0, appended _ p.task_queue s.1))
  step-Strands p (Event.adds id socket_path now) l s = absurd l
  step-Strands p (Event.removes id) l s =
      remove_agent_cases Strands p id s (ap (erase_id p.store id) s.0, s.1)
  step-Strands p (Event.shuts_agent id) l s = shutdown_agent_cases Strands p id s (λ h. s)
  step-Strands p (Event.probes h probe) l s = health_check_cases Strands p h probe s s
  step-Strands p Event.scans l s = s
  step-Strands p Event.retains l s = (ap (keep _) s.0, s.1)
  step-Strands p Event.begins_shutdown l s = s
  step-Strands p Event.rejects l s = absurd l
  step-Strands p Event.marks l s = s
  step-Strands p Event.clears l s = (refl, s.1)

  run-Strands : (p : AgentPool) (es : List Event) → All IsLater es → Strands p → Strands (run p es)
  unfolding run
  run-Strands p [] l s = s
  run-Strands p (e ∷ es) l s = run-Strands (step p e) es l.1 (step-Strands p e l.0 s)

run-append : (p : AgentPool) (ds es : List Event) → run p (ds ++ es) ≡ run (run p ds) es
unfolding run
run-append p [] es = refl
run-append p (d ∷ ds) es = run-append (step p d) ds es

-- `shutdown` runs, and then the spawned task at index `i` settles.
abbrev pub shuts_down : ℕ → List Event → List Event
shuts_down i later =
    Event.begins_shutdown ∷ Event.rejects ∷ Event.marks ∷ Event.clears ∷ Event.settles i ∷ later

closed : AgentPool → AgentPool
closed p = shutdown_clear (shutdown_mark (shutdown_reject (shutdown_begin p)))

settle_again :
    (p : AgentPool) (i : ℕ) (g : Finished) (e : PoolError)
    → get_elem? p.finished i ≡ some g
    → g.result ≡ err e
    → g.queued.retries < p.config.max_retries
    → settle p i ≡ retry (record p { finished = erase_at p.finished i }) g.queued
unfolding settle settle_result
settle_again p i g e found failed again =
    rw (found, settle)
      (ap (settle_result (record p { finished = erase_at p.finished i }) g.queued) failed
        ∙ ground arith)

settled-Strands :
    (p : AgentPool) (i : ℕ) (g : Finished) (e : PoolError)
    → get_elem? p.finished i ≡ some g
    → g.result ≡ err e
    → g.queued.retries < p.config.max_retries
    → Strands g.queued.frame_id (settle (closed p) i)
unfolding closed shutdown_begin shutdown_reject shutdown_mark shutdown_clear
settled-Strands p i g e found failed again =
    subst (Strands g.queued.frame_id) (sym (settle_again (closed p) i g e found failed again))
      (refl, ground arith)

-- In a history of a new pool of fewer than 2 ^ 64 - 1 steps, a task has failed with a retry left and
-- is about to settle when `shutdown` sets its flag, rejects the queue, marks the agents and clears
-- their vector. Then the task is queued again, and whatever happens later, but for a new agent and a
-- second rejection of the queue, a task of its frame stays in the queue and its caller is never
-- answered.
pub unanswered_after_shutdown :
    (config : PoolConfig) (es later : List Event) (i : ℕ) (g : Finished) (e : PoolError)
    → suc (length (es ++ shuts_down i later)) < u64_mod
    → get_elem? (run (new config) es).finished i ≡ some g
    → g.result ≡ err e
    → g.queued.retries < config.max_retries
    → All IsLater later
    → (0
        < tally
            (carries g.queued.frame_id)
            (run (new config) (es ++ shuts_down i later)).task_queue)
      × (answers g.queued.frame_id (run (new config) (es ++ shuts_down i later)).replies ≡ 0)
unfolding new run step closed
unanswered_after_shutdown config es later i g e small found failed again calm =
    let f = g.queued.frame_id in
    let p = run (new config) es in
    let same = ap (λ (c : PoolConfig). c.max_retries) (run-config (new config) es) in
    let left =
      settled-Strands p i g e found failed (subst (λ m. g.queued.retries < m) (sym same) again) in
    let whole = run-append (new config) es (shuts_down i later) in
    let stays : 0 < tally (carries f) (run (new config) (es ++ shuts_down i later)).task_queue =
      subst (λ (q : AgentPool). 0 < tally (carries f) q.task_queue) (sym whole)
        (run-Strands f (settle (closed p) i) later calm left).1 in
    (stays, ground (arith, stays, frames_conserved config (es ++ shuts_down i later) small f))
