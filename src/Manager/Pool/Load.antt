-- ===== src/Manager/Pool/Load.antt =====
-- The counters of the agents: `active_tasks` is the number of tasks that execute on the agent, and
-- never passes `max_concurrent_per_agent`, whatever the interleaving.
pub mod Moves
pub mod Runs
use oj_monorepo.Base.{
  ℕ, suc, ◌+◌, ◌-◌, ◌%◌, ◌≤◌, ◌<◌, ◌≡◌, refl, ltb, leb, ◌==◌, str_eq, String, List, [], ◌∷◌, ◌++◌,
  Bool, true, false, not, ◌&&◌, Option, none, some, Result, ok, err, if◌then◌else◌, u32_mod, All,
  All-append, All-get, All-erase_at, All-map, any, find, keep, get_elem?, erase_at, tally,
  tally-erase_at, min_from, min_by_key, length, arith, tests, ltb→lt, if_cases, subst, ◌∙◌,
  Option-cases, inl, inr,
}
use oj_monorepo.Manager.Pool.{
  AgentHandle, AgentPool, PoolError, QueuedTask, Running, Dispatcher, modify, wrapping_inc,
  wrapping_dec, new, Reply,
}
use oj_monorepo.Shared.Models.{VerdictTask}
use oj_monorepo.Manager.Pool.Agents.{
  add_agent, registered, remove_agent, erase_id, shutdown_agent, has_id, choose_agent, is_eligible,
  fresh_handle,
}
use oj_monorepo.Manager.Pool.Tasks.{
  submit_begin, submit_enqueue, enqueue, pick, launch, dispatch, receive_signal, wake_signal,
  wake_permit, release, finish, settle, settle_result,
}
use oj_monorepo.Manager.Pool.Upkeep.{
  probed, Probe, health_check, drain_scan, drain_retain, mark_all, shutdown_mark,
}
use oj_monorepo.Manager.Pool.Cases.{
  submit_begin_cases, enqueue_cases, submit_enqueue_cases, dispatch_cases, wake_signal_cases,
  wake_permit_cases, finish_cases, settle_result_cases, settle_cases, add_agent_cases,
  remove_agent_cases, shutdown_agent_cases, health_check_cases,
}
use oj_monorepo.Manager.Pool.Steps.{Event, step, run}

-- The tasks that execute on the agent at an address.
abbrev pub executing : ℕ → List Running → ℕ
executing h = tally (λ r. r.handle == h)

-- The dispatcher has found room on the agent that it chose, and nobody else takes it.
abbrev pub Chosen : ℕ → (ℕ → AgentHandle) → ℕ → Dispatcher → Type 0
Chosen cap store next (Dispatcher.picked h t) = (h < next) × ((store h).active_tasks < cap)
Chosen cap store next _ = Unit

pub record Loaded (cap : ℕ) (store : ℕ → AgentHandle) (next : ℕ) (agents : List ℕ)
    (running : List Running) (dispatcher : Dispatcher) : Type 0 where
  pub small : cap < u32_mod
  pub active : (h : ℕ) → (store h).active_tasks ≡ executing h running
  pub room : (h : ℕ) → (store h).active_tasks ≤ cap
  pub agents_below : All (λ h. h < next) agents
  pub running_below : All (λ r. r.handle < next) running
  pub chosen : Chosen cap store next dispatcher

abbrev pub IsLoaded : AgentPool → Type 0
IsLoaded p =
    Loaded p.config.max_concurrent_per_agent p.store p.next_handle p.agents p.running p.dispatcher

-- A change of the handles that leaves the counters alone leaves the invariant alone.
pub Chosen-mono :
    (cap : ℕ) (store store' : ℕ → AgentHandle) (next next' : ℕ) (d : Dispatcher)
    → ((j : ℕ) → j < next → (store' j).active_tasks ≤ (store j).active_tasks)
    → next ≤ next'
    → Chosen cap store next d
    → Chosen cap store' next' d
Chosen-mono cap store store' next next' Dispatcher.looking less le c = tt
Chosen-mono cap store store' next next' (Dispatcher.picked h t) less le c =
    omega (arith, less h c.0)
Chosen-mono cap store store' next next' Dispatcher.parked_empty less le c = tt
Chosen-mono cap store store' next next' Dispatcher.parked_busy less le c = tt

pub Loaded-store :
    (cap : ℕ) (store store' : ℕ → AgentHandle) (next : ℕ) (agents : List ℕ) (running : List Running)
    (d : Dispatcher)
    → ((j : ℕ) → (store' j).active_tasks ≡ (store j).active_tasks)
    → Loaded cap store next agents running d
    → Loaded cap store' next agents running d
Loaded-store cap store store' next agents running d same v = record {
  small = v.small;
  active = λ h. same h ∙ v.active h;
  room = λ h. rw (same h) (v.room h);
  agents_below = v.agents_below;
  running_below = v.running_below;
  chosen =
      Chosen-mono cap store store' next next d (λ j _. omega (arith, same j)) (omega arith)
        v.chosen;
}

pub Loaded-looking :
    {cap : ℕ} {store : ℕ → AgentHandle} {next : ℕ} {agents : List ℕ} {running : List Running}
    {d : Dispatcher} (d' : Dispatcher)
    → Chosen cap store next d'
    → Loaded cap store next agents running d
    → Loaded cap store next agents running d'
Loaded-looking d' c v = record {
  small = v.small;
  active = v.active;
  room = v.room;
  agents_below = v.agents_below;
  running_below = v.running_below;
  chosen = c;
}

min_from-All :
    (P : ℕ → Type 0) (key : ℕ → ℕ) (best : ℕ) (xs : List ℕ)
    → P best
    → All P xs
    → P (min_from key best xs)
min_from-All P key best [] p h = p
min_from-All P key best (x ∷ xs) p h =
    min_from-All P key (if ltb (key x) (key best) then x else best) xs
      (if_cases P (ltb (key x) (key best)) x best (λ _. h.0) (λ _. p)) h.1

min_by_key-All :
    (P : ℕ → Type 0) (key : ℕ → ℕ) (xs : List ℕ) (x : ℕ)
    → All P xs
    → min_by_key key xs ≡ some x
    → P x
min_by_key-All P key [] x h e = absurd (ground arith)
min_by_key-All P key (y ∷ ys) x h e =
    let same : min_from key y ys ≡ x = cc in subst P same (min_from-All P key y ys h.0 h.1)

pub keep-All :
    (P Q : ℕ → Type 0) (p : ℕ → Bool) (xs : List ℕ)
    → ((x : ℕ) → P x → p x ≡ true → Q x)
    → All P xs
    → All Q (keep p xs)
keep-All P Q p [] f h = tt
keep-All P Q p (x ∷ xs) f h =
    if_cases (All Q) (p x) _ _ (λ e. (f x h.0 e, keep-All P Q p xs f h.1))
      (λ e. keep-All P Q p xs f h.1)

pub choose_agent-Chosen :
    (p : AgentPool) (h : ℕ) (t : QueuedTask)
    → IsLoaded p
    → choose_agent p ≡ some h
    → Chosen p.config.max_concurrent_per_agent p.store p.next_handle (Dispatcher.picked h t)
unfolding choose_agent
choose_agent-Chosen p h t v e =
    min_by_key-All
      (λ j. (j < p.next_handle) × ((p.store j).active_tasks < p.config.max_concurrent_per_agent)) _
      _ h
      (keep-All (λ j. j < p.next_handle) _ (is_eligible p) p.agents
        (λ j below ok. (below, ground arith)) v.agents_below)
      e
