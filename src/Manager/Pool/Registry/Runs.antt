-- ===== src/Manager/Pool/Registry/Runs.antt =====
-- Every history keeps the ids of the pool's agents distinct.
use oj_monorepo.Base.{
  ℕ, ◌<◌, ◌≡◌, refl, sym, ◌∙◌, ◌==◌, List, [], ◌∷◌, ◌∙◌, All, All-append, All-map, subst, arith,
  if_cases,
}
use oj_monorepo.Manager.Pool.{AgentPool, AgentHandle, modify, wrapping_inc, wrapping_dec, new}
use oj_monorepo.Manager.Pool.Agents.{fresh_handle, mark_shutdown}
use oj_monorepo.Manager.Pool.Tasks.{launch, release}
use oj_monorepo.Manager.Pool.Upkeep.{Probe, probed}
use oj_monorepo.Manager.Pool.Cases.{
  submit_begin_cases, enqueue_cases, submit_enqueue_cases, dispatch_cases, wake_signal_cases,
  wake_permit_cases, finish_cases, settle_result_cases, settle_cases, add_agent_cases,
  remove_agent_cases, shutdown_agent_cases, health_check_cases,
}
use oj_monorepo.Manager.Config.{PoolConfig}
use oj_monorepo.Manager.Pool.Upkeep.{
  mark_all, drain_scan, drain_retain, shutdown_begin, shutdown_reject, shutdown_mark,
  shutdown_clear,
}
use oj_monorepo.Manager.Pool.Steps.{Event, step, run}
use oj_monorepo.Manager.Config.{PoolConfig}
use oj_monorepo.Manager.Pool.Load.Runs.{keep_below, erase_id_below}
use oj_monorepo.Manager.Pool.Registry.{
  ids_of, Distinct, keep-Distinct, erase_id-Distinct, ids_of-same, registered-Distinct,
}

record Registered (store : ℕ → AgentHandle) (next : ℕ) (agents : List ℕ) : Type 0 where
  below : All (λ h. h < next) agents
  distinct : Distinct (ids_of store agents)

abbrev IsRegistered : AgentPool → Type 0
IsRegistered p = Registered p.store p.next_handle p.agents

same_all :
    (store store' : ℕ → AgentHandle) (hs : List ℕ)
    → ((j : ℕ) → (store' j).id ≡ (store j).id)
    → All (λ h. (store' h).id ≡ (store h).id) hs
same_all store store' [] f = tt
same_all store store' (h ∷ hs) f = (f h, same_all store store' hs f)

Registered-store :
    (store store' : ℕ → AgentHandle) (next : ℕ) (agents : List ℕ)
    → ((j : ℕ) → (store' j).id ≡ (store j).id)
    → Registered store next agents
    → Registered store' next agents
Registered-store store store' next agents f r = record {
  below = r.below;
  distinct =
      subst Distinct (sym (ids_of-same store store' agents (same_all store store' agents f)))
        r.distinct;
}

probed-id : (threshold : ℕ) (probe : Probe) (a : AgentHandle) → (probed threshold probe a).id ≡ a.id
unfolding probed
probed-id threshold Probe.answered a = ground arith
probed-id threshold Probe.failed a = ground arith
probed-id threshold Probe.timed_out a = ground arith

modify-id :
    (f : AgentHandle → AgentHandle) (h : ℕ) (store : ℕ → AgentHandle) (j : ℕ)
    → ((a : AgentHandle) → (f a).id ≡ a.id)
    → (modify f h store j).id ≡ (store j).id
modify-id f h store j same =
    if_cases (λ (a : AgentHandle). a.id ≡ (store j).id) (j == h) _ _ (λ _. same (store j))
      (λ _. refl)

mark_all-id :
    (hs : List ℕ) (store : ℕ → AgentHandle) (j : ℕ) → (mark_all hs store j).id ≡ (store j).id
unfolding mark_all
mark_all-id [] store j = refl
mark_all-id (h ∷ hs) store j =
    mark_all-id hs (modify mark_shutdown h store) j ∙ modify-id mark_shutdown h store j (λ a. refl)

step-IsRegistered : (p : AgentPool) (e : Event) → IsRegistered p → IsRegistered (step p e)
unfolding step launch release drain_scan drain_retain shutdown_begin shutdown_reject shutdown_mark
    shutdown_clear
step-IsRegistered p (Event.submits task) r = submit_begin_cases IsRegistered p task r r
step-IsRegistered p (Event.enqueues i) r =
    submit_enqueue_cases IsRegistered p i r λ t _. enqueue_cases IsRegistered _ t r (λ _. r)
step-IsRegistered p Event.dispatches r =
    dispatch_cases IsRegistered p r (λ _. r) (λ _. r) (λ _ t rest h _ _. r)
      λ h t _.
        Registered-store p.store _ _ _
          (λ j.
            modify-id (λ a. record a { active_tasks = wrapping_inc a.active_tasks }) h p.store j
              (λ a. refl))
          r
step-IsRegistered p Event.wakes_by_signal r = wake_signal_cases IsRegistered p r (λ n _ _. r)
step-IsRegistered p Event.wakes_by_permit r = wake_permit_cases IsRegistered p r (λ _. r)
step-IsRegistered p (Event.finishes i connection sent receipt) r =
    finish_cases IsRegistered p i _ r λ q _.
      Registered-store p.store _ _ _
        (λ j.
          modify-id (λ a. record a { active_tasks = wrapping_dec a.active_tasks }) q.handle p.store
            j (λ a. refl))
        r
step-IsRegistered p (Event.settles i) r =
    settle_cases IsRegistered p i r
      λ f _. settle_result_cases IsRegistered _ f.queued f.result (λ _. r) (λ _. r) (λ _. r)
step-IsRegistered p (Event.adds id socket_path now) r =
    add_agent_cases IsRegistered p id socket_path now r λ new. record {
      below =
          All-append _ p.agents _ (All-map _ _ (λ h k. omega arith) p.agents r.below)
            (omega arith, tt);
      distinct = registered-Distinct p (fresh_handle id socket_path now) r.below new r.distinct;
    }
step-IsRegistered p (Event.removes id) r = remove_agent_cases IsRegistered p id r (record {
  below = erase_id_below p.next_handle p.store id p.agents r.below;
  distinct = erase_id-Distinct p.store id p.agents r.distinct;
})
step-IsRegistered p (Event.shuts_agent id) r =
    shutdown_agent_cases IsRegistered p id r
      λ h. Registered-store p.store _ _ _ (λ j. modify-id mark_shutdown h p.store j (λ a. refl)) r
step-IsRegistered p (Event.probes h probe) r = health_check_cases IsRegistered p h probe r (
    Registered-store p.store _ _ _
      (λ j.
        modify-id (probed p.config.health_check_failure_threshold probe) h p.store j
          (probed-id p.config.health_check_failure_threshold probe))
      r)
step-IsRegistered p Event.scans r = r
step-IsRegistered p Event.retains r = record {
  below = keep_below p.next_handle _ p.agents r.below;
  distinct = keep-Distinct p.store _ p.agents r.distinct;
}
step-IsRegistered p Event.begins_shutdown r = r
step-IsRegistered p Event.rejects r = r
step-IsRegistered p Event.marks r = Registered-store p.store _ _ _ (mark_all-id p.agents p.store) r
step-IsRegistered p Event.clears r = record { below = tt; distinct = tt }

run-IsRegistered : (p : AgentPool) (es : List Event) → IsRegistered p → IsRegistered (run p es)
unfolding run
run-IsRegistered p [] r = r
run-IsRegistered p (e ∷ es) r = run-IsRegistered (step p e) es (step-IsRegistered p e r)

-- Under every interleaving, from a new pool, no two agents of the pool have the same id: however
-- agents are created, discovered, removed and drained, an id names at most one of them.
pub agent_ids-Distinct :
    (config : PoolConfig) (es : List Event)
    → Distinct (ids_of (run (new config) es).store (run (new config) es).agents)
unfolding new
agent_ids-Distinct config es =
    (run-IsRegistered (new config) es (record { below = tt; distinct = tt })).distinct
