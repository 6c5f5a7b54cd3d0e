-- ===== src/Manager/Pool/Registry.antt =====
-- The ids of the pool's agents: no two of its handles have the same.
pub mod Runs
use oj_monorepo.Base.{
  ℕ, zero, suc, ◌<◌, ◌≡◌, refl, sym, ◌++◌, All-append, All-map, ==_refl, ltb, leb, ◌==◌, str_eq,
  String, List, [], ◌∷◌, Bool, true, false, ◌∙◌, Option, none, some, Result, ok, err, get_elem?,
  erase_at, length, find, All, any, keep, map, ap, subst, ◌≢◌, ◌+◌, str_eq_iff, Bool-cases,
  if◌then◌else◌, arith, if_cases, Option-cases, inl, inr,
}
use oj_monorepo.Shared.Models.{VerdictTask, VerdictTaskResult}
use oj_monorepo.Manager.Pool.{
  AgentPool, PoolError, QueuedTask, Running, Finished, Reply, Dispatcher, AgentHandle, modify,
}
use oj_monorepo.Manager.Pool.Agents.{
  add_agent, registered, fresh_handle, has_id, remove_agent, erase_id, shutdown_agent,
  mark_shutdown, choose_agent,
}
use oj_monorepo.Manager.Pool.Tasks.{
  submit_begin, entered, submit_enqueue, enqueue, push_back, answer, dispatch, dispatch_at, pick,
  launch, receive_signal, wake_signal, wake_signal_at, wake_permit, wake_permit_at, finish, release,
  settle, settle_result, retry,
}
use oj_monorepo.Manager.Pool.Upkeep.{Probe, probed, health_check, checked}
use oj_monorepo.Manager.Pool.Cases.{
  submit_begin_cases, enqueue_cases, submit_enqueue_cases, dispatch_cases, wake_signal_cases,
  wake_permit_cases, finish_cases, settle_result_cases, settle_cases, add_agent_cases,
  remove_agent_cases, shutdown_agent_cases, health_check_cases,
}
use oj_monorepo.Manager.Config.{PoolConfig}
use oj_monorepo.Manager.Pool.Upkeep.{
  drain_scan, drain_retain, shutdown_begin, shutdown_reject, shutdown_mark, shutdown_clear,
}
use oj_monorepo.Manager.Pool.Steps.{Event, step, run}

-- The ids in the pool's vector, in its order.
abbrev pub ids_of : (ℕ → AgentHandle) → List ℕ → List String
ids_of store hs = map (λ h. (store h).id) hs

abbrev pub Distinct : List String → Type 0
Distinct [] = Unit
Distinct (x ∷ xs) = All (λ y. y ≢ x) xs × Distinct xs

snoc-Distinct :
    (xs : List String) (x : String) → All (λ y. y ≢ x) xs → Distinct xs → Distinct (xs ++ x ∷ [])
snoc-Distinct [] x new d = (tt, tt)
snoc-Distinct (y ∷ ys) x new d = (
  All-append (λ z. z ≢ y) ys (x ∷ []) d.0 ((λ e. new.0 (sym e)), tt),
  snoc-Distinct ys x new.1 d.1,
)

any-All :
    (store : ℕ → AgentHandle) (id : String) (hs : List ℕ)
    → any (λ h. str_eq (store h).id id) hs ≡ false
    → All (λ y. y ≢ id) (ids_of store hs)
any-All store id [] e = tt
any-All store id (h ∷ hs) e = elim (Bool-cases (str_eq (store h).id id)) [
  | inl t ↦ absurd (ground arith)
  | inr f ↦ (
    (λ same. absurd (ground (arith, str_eq_iff (store h).id id))),
    any-All store id hs (ground arith),
  )
]

kept-All :
    (P : String → Type 0) (store : ℕ → AgentHandle) (p : ℕ → Bool) (hs : List ℕ)
    → All P (ids_of store hs)
    → All P (ids_of store (keep p hs))
kept-All P store p [] a = tt
kept-All P store p (h ∷ hs) a =
    if_cases (λ (l : List ℕ). All P (ids_of store l)) (p h) _ _
      (λ _. (a.0, kept-All P store p hs a.1)) (λ _. kept-All P store p hs a.1)

pub keep-Distinct :
    (store : ℕ → AgentHandle) (p : ℕ → Bool) (hs : List ℕ)
    → Distinct (ids_of store hs)
    → Distinct (ids_of store (keep p hs))
keep-Distinct store p [] d = tt
keep-Distinct store p (h ∷ hs) d =
    if_cases (λ (l : List ℕ). Distinct (ids_of store l)) (p h) _ _
      (λ _. (kept-All _ store p hs d.0, keep-Distinct store p hs d.1))
      (λ _. keep-Distinct store p hs d.1)

erased-All :
    (P : String → Type 0) (store : ℕ → AgentHandle) (id : String) (hs : List ℕ)
    → All P (ids_of store hs)
    → All P (ids_of store (erase_id store id hs))
unfolding erase_id
erased-All P store id [] a = tt
erased-All P store id (h ∷ hs) a =
    if_cases (λ (l : List ℕ). All P (ids_of store l)) (str_eq (store h).id id) _ _ (λ _. a.1)
      (λ _. (a.0, erased-All P store id hs a.1))

pub erase_id-Distinct :
    (store : ℕ → AgentHandle) (id : String) (hs : List ℕ)
    → Distinct (ids_of store hs)
    → Distinct (ids_of store (erase_id store id hs))
unfolding erase_id
erase_id-Distinct store id [] d = tt
erase_id-Distinct store id (h ∷ hs) d =
    if_cases (λ (l : List ℕ). Distinct (ids_of store l)) (str_eq (store h).id id) _ _ (λ _. d.1)
      (λ _. (erased-All _ store id hs d.0, erase_id-Distinct store id hs d.1))

-- The ids in the vector depend on the handles that it holds only.
pub ids_of-same :
    (store store' : ℕ → AgentHandle) (hs : List ℕ)
    → All (λ h. (store' h).id ≡ (store h).id) hs
    → ids_of store' hs ≡ ids_of store hs
ids_of-same store store' [] a = refl
ids_of-same store store' (h ∷ hs) a = rw (a.0, ids_of-same store store' hs a.1)

ids_of-append :
    (store : ℕ → AgentHandle) (hs : List ℕ) (h : ℕ)
    → ids_of store (hs ++ h ∷ []) ≡ ids_of store hs ++ (store h).id ∷ []
ids_of-append store [] h = refl
ids_of-append store (j ∷ hs) h = ap (◌∷◌ (store j).id) (ids_of-append store hs h)

pub registered-Distinct :
    (p : AgentPool) (a : AgentHandle)
    → All (λ h. h < p.next_handle) p.agents
    → has_id p a.id ≡ false
    → Distinct (ids_of p.store p.agents)
    → Distinct (ids_of (registered p a).store (registered p a).agents)
registered-Distinct p a below new d =
    let store' = (registered p a).store in
    let same =
      ids_of-same p.store store' p.agents (All-map _ _ (λ h k. ground arith) p.agents below) in
    let last : (store' p.next_handle).id ≡ a.id = ground (arith, ==_refl p.next_handle) in
    rw (ids_of-append store' p.agents p.next_handle, same, last)
      (snoc-Distinct (ids_of p.store p.agents) a.id (any-All p.store a.id p.agents new) d)
