-- ===== src/Manager/Scaler.antt =====
-- services/crates/judge_core_manager/src/scaler.rs: the autoscaler.
-- `f64` is a parameter, by the operations that the file uses; no law of it is assumed.
pub mod Decisions
pub mod Cooldown
mod Tests
use oj_monorepo.Base.{
  ℕ, zero, suc, ◌+◌, ◌-◌, ◌*◌, ◌/◌, ◌%◌, min, max, ltb, leb, ◌==◌, ◌&&◌, Bool, true, false, Option,
  none, some, List, [], ◌∷◌, if◌then◌else◌, u32_mod, u64_mod,
}
use oj_monorepo.Manager.Config.{ScalerConfig}
use oj_monorepo.Manager.Pool.{AgentPool}
use oj_monorepo.Shared.Wire.{PoolMetrics}
use oj_monorepo.Manager.Pool.Agents.{metrics, find_least_loaded_agent, shutdown_agent}

pub record Float : Type 1 where
  pub F : Type 0
  pub of_ℕ : ℕ → F
  pub add : F → F → F
  pub sub : F → F → F
  pub mul : F → F → F
  pub div : F → F → F
  pub lt : F → F → Bool
  -- `x.ceil() as usize`
  pub ceil_usize : F → ℕ

pub record QueueVelocityTracker (F : Type 0) : Type 0 where
  pub prev_queue_size : ℕ
  pub velocity : F
  pub alpha : F
  pub check_interval_secs : ℕ

pub record Scaler (F : Type 0) : Type 0 where
  pub last_scale_up : ℕ
  pub last_scale_down : ℕ
  pub velocity_tracker : QueueVelocityTracker F
  pub scale_down_confirm_counter : ℕ

-- `usize::div_ceil`.
abbrev pub div_ceil : ℕ → ℕ → ℕ
div_ceil a b = if 0 == a % b then a / b else a / b + 1

-- `now.duration_since(last).as_secs()`: instants are in milliseconds, and the difference is zero
-- if `last` is later.
abbrev pub secs_since : ℕ → ℕ → ℕ
secs_since now last = (now - last) / 1000

module _ (float : Float) where
  open float use {F, of_ℕ, add, sub, mul, div, lt, ceil_usize}

  new_tracker : F → ℕ → QueueVelocityTracker F
  new_tracker alpha check_interval_secs = record {
    prev_queue_size = 0;
    velocity = of_ℕ 0;
    alpha = alpha;
    check_interval_secs = check_interval_secs;
  }

  raw_velocity : QueueVelocityTracker F → ℕ → F
  raw_velocity t queue_size =
      add (mul t.alpha (sub (of_ℕ queue_size) (of_ℕ t.prev_queue_size)))
        (mul (sub (of_ℕ 1) t.alpha) t.velocity)

  pub update : QueueVelocityTracker F → ℕ → QueueVelocityTracker F × F
  unfolding raw_velocity
  update t queue_size =
      let raw = raw_velocity t queue_size in
      (
        record t { velocity = raw; prev_queue_size = queue_size },
        (if ltb 0 t.check_interval_secs then div raw (of_ℕ t.check_interval_secs) else of_ℕ 0),
      )

  provision_buffer : F → ScalerConfig F → ℕ
  provision_buffer velocity config =
      if lt (of_ℕ 0) velocity
      then ceil_usize (mul velocity (of_ℕ config.provision_time_secs))
      else 0

  -- The load that agents are needed for; sums of `usize` wrap.
  abbrev pub needed_capacity : PoolMetrics → ℕ → ℕ
  needed_capacity m buffer = ((m.active_tasks + m.queue_size) % u64_mod + buffer) % u64_mod

  unfoldable pub scale_up_by : PoolMetrics → ℕ → ScalerConfig F → ℕ
  scale_up_by m buffer config =
      if config.max_concurrent_per_agent == 0
      then 0
      else min
          (min (div_ceil (needed_capacity m buffer) config.max_concurrent_per_agent - m.agent_count)
            config.max_scale_up_batch)
          (config.max_agents - m.agent_count)

  unfoldable pub scale_up_decision : PoolMetrics → F → ScalerConfig F → ℕ
  unfolding provision_buffer scale_up_by
  scale_up_decision m velocity config = scale_up_by m (provision_buffer velocity config) config

  utilization : PoolMetrics → ScalerConfig F → F
  utilization m config =
      let max_capacity =
        mul (of_ℕ (max (m.agent_count - m.draining_agent_count) 1))
          (of_ℕ config.max_concurrent_per_agent) in
      if lt (of_ℕ 0) max_capacity then div (of_ℕ m.active_tasks) max_capacity else of_ℕ 0

  -- The pool is used little, and has more agents than it must keep.
  unfoldable pub is_low : PoolMetrics → ScalerConfig F → Bool
  unfolding utilization
  is_low m config =
      lt (utilization m config) config.scale_down_utilization_pct
      && ltb config.min_agents m.agent_count

  unfoldable pub confirm : Bool → ScalerConfig F → ℕ → Bool × ℕ
  confirm low config counter =
      let new_counter = (counter + 1) % u32_mod in
      let should_scale = leb config.scale_down_confirm_ticks new_counter in
      if low then (should_scale, (if should_scale then 0 else new_counter)) else (false, 0)

  unfoldable pub scale_down_decision : PoolMetrics → ScalerConfig F → ℕ → Bool × ℕ
  unfolding is_low confirm
  scale_down_decision m config counter = confirm (is_low m config) config counter

  -- `Instant::now() - Duration::from_secs(..)` panics before the clock's origin.
  before : ℕ → ℕ → Option ℕ
  before now secs = if ltb now (secs * 1000) then none else some (now - secs * 1000)

  unfoldable pub start : ScalerConfig F → ℕ → Option (Scaler F)
  unfolding before new_tracker
  start config now = elim (before now config.scale_up_cooldown_secs) [
    | none ↦ none
    | some up ↦ elim (before now config.scale_down_cooldown_secs) [
      | none ↦ none
      | some down ↦ some (record {
        last_scale_up = up;
        last_scale_down = down;
        velocity_tracker = new_tracker config.ema_alpha config.check_interval_secs;
        scale_down_confirm_counter = 0;
      })
    ]
  ]

  -- The branch that may shut one agent down. A failure of `shutdown_agent` is only logged.
  unfoldable pub shut_one : ScalerConfig F → ℕ → Scaler F → AgentPool → Scaler F × AgentPool
  shut_one config now s pool =
      if ltb (secs_since now s.last_scale_down) config.scale_down_cooldown_secs
      then (s, pool)
      else elim (find_least_loaded_agent pool) [
        | none ↦ (s, pool)
        | some h ↦ (
          record s { last_scale_down = now; scale_down_confirm_counter = 0 },
          (shutdown_agent pool (pool.store h).id).0,
        )
      ]

  unfoldable pub scale_down :
      ScalerConfig F → ℕ → PoolMetrics → Scaler F → AgentPool → Scaler F × AgentPool
  unfolding shut_one scale_down_decision
  scale_down config now m s pool =
      let (should_scale, counter) = scale_down_decision m config s.scale_down_confirm_counter in
      let s' = record s { scale_down_confirm_counter = counter } in
      if should_scale then shut_one config now s' pool else (s', pool)

  -- What a round of the loop leaves: the scaler, the pool, and how many creations it has spawned.
  pub record Round : Type 0 where
    pub scaler : Scaler F
    pub pool : AgentPool
    pub created : ℕ

  unfoldable pub act : ScalerConfig F → ℕ → PoolMetrics → ℕ → Scaler F → AgentPool → Round
  unfolding scale_down
  act config now m need s pool =
      if ltb 0 need
      then if ltb (secs_since now s.last_scale_up) config.scale_up_cooldown_secs
        then record { scaler = s; pool = pool; created = 0 }
        else record { scaler = record s { last_scale_up = now }; pool = pool; created = need }
      else let (s', pool') = scale_down config now m s pool in
        record { scaler = s'; pool = pool'; created = 0 }

  -- One round of `run`, at the instant `now`.
  unfoldable pub tick : ScalerConfig F → ℕ → Scaler F → AgentPool → Round
  unfolding act update scale_up_decision
  tick config now s pool =
      let m = metrics pool in
      let (tracker, velocity) = update s.velocity_tracker m.queue_size in
      act config now m (scale_up_decision m velocity config)
        (record s { velocity_tracker = tracker }) pool
