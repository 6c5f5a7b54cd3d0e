-- ===== src/Manager/Pool/Load/Moves.antt =====
-- The three steps that move a counter or hand out an address.
use oj_monorepo.Base.{
  ℕ, ◌≤◌, ◌<◌, ◌≡◌, refl, ◌==◌, List, [], ◌∷◌, some, All, All-append, All-erase_at, All-map,
  get_elem?, erase_at, tally-erase_at, arith, subst,
}
use oj_monorepo.Manager.Pool.{
  AgentHandle, AgentPool, QueuedTask, Running, Dispatcher, modify, wrapping_dec, Reply,
}
use oj_monorepo.Manager.Pool.Agents.{registered}
use oj_monorepo.Manager.Pool.Tasks.{launch, release}
use oj_monorepo.Manager.Pool.Load.{executing, Chosen, IsLoaded, Chosen-mono}

executing-none :
    (next h : ℕ) (running : List Running)
    → next ≤ h
    → All (λ r. r.handle < next) running
    → executing h running ≡ 0
executing-none next h [] le below = refl
executing-none next h (r ∷ rs) le below =
    ground (arith, executing-none next h rs le below.1, below.0)

pub launch-IsLoaded :
    (p : AgentPool) (h : ℕ) (t : QueuedTask)
    → p.dispatcher ≡ Dispatcher.picked h t
    → IsLoaded p
    → IsLoaded (launch p h t)
unfolding launch
launch-IsLoaded p h t e v =
    let cap = p.config.max_concurrent_per_agent in
    let c : (h < p.next_handle) × ((p.store h).active_tasks < cap) =
      subst (λ d. Chosen cap p.store p.next_handle d) e v.chosen in
    record {
      small = v.small;
      active = λ j. ground (arith, v.active j, v.room j, v.small);
      room = λ j. ground (arith, v.room j, v.small);
      agents_below = v.agents_below;
      running_below = (c.0, v.running_below);
      chosen = tt;
    }

module _ (p : AgentPool) (i : ℕ) (r : Running) (found : get_elem? p.running i ≡ some r)
    (v : IsLoaded p) where
  release_active :
      (j : ℕ)
      → (modify
          (λ a. record a { active_tasks = wrapping_dec a.active_tasks })
          r.handle
          p.store
          j).active_tasks
        ≡ executing j (erase_at p.running i)
  release_active j = ground (
    arith,
    v.active j,
    v.room j,
    v.small,
    tally-erase_at (λ q. q.handle == j) p.running i r found,
  )

  erased_le : (j : ℕ) → executing j (erase_at p.running i) ≤ (p.store j).active_tasks
  erased_le j = omega (arith, v.active j, tally-erase_at (λ q. q.handle == j) p.running i r found)

  pub release-IsLoaded :
      (result : Reply) → IsLoaded (release (record p { running = erase_at p.running i }) r result)
  unfolding release
  release-IsLoaded result = record {
    small = v.small;
    active = release_active;
    room = λ j. omega (arith, release_active j, erased_le j, v.room j);
    agents_below = v.agents_below;
    running_below = All-erase_at _ p.running i v.running_below;
    chosen =
        Chosen-mono _ p.store
          (modify (λ a. record a { active_tasks = wrapping_dec a.active_tasks }) r.handle p.store) _
          _ p.dispatcher (λ j _. omega (arith, release_active j, erased_le j)) (omega arith)
          v.chosen;
  }

pub registered-IsLoaded :
    (p : AgentPool) (a : AgentHandle) → a.active_tasks ≡ 0 → IsLoaded p → IsLoaded (registered p a)
registered-IsLoaded p a z v = record {
  small = v.small;
  active = λ j. ground (arith, v.active j, executing-none p.next_handle j p.running);
  room = λ j. ground (arith, v.room j);
  agents_below =
      All-append _ p.agents _ (All-map _ _ (λ h k. omega arith) p.agents v.agents_below)
        (omega arith, tt);
  running_below = All-map _ _ (λ r k. omega arith) p.running v.running_below;
  chosen =
      Chosen-mono _ p.store (modify (λ _. a) p.next_handle p.store) _ _ p.dispatcher
        (λ j k. ground arith) (omega arith) v.chosen;
}
