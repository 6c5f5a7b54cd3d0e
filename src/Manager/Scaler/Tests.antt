-- ===== src/Manager/Scaler/Tests.antt =====
-- The autoscaler at concrete values, with whole numbers in place of `f64`.
use oj_monorepo.Base.{ℕ, ◌+◌, ◌-◌, ◌*◌, ◌/◌, ltb, [], ◌∷◌, false, arith}
use oj_monorepo.Manager.Config.{ScalerConfig, default_pool_config}
use oj_monorepo.Manager.Pool.{new}
use oj_monorepo.Shared.Wire.{PoolMetrics}
use oj_monorepo.Manager.Scaler.{Float, Scaler, scale_up_by, scale_down_decision, tick}
use oj_monorepo.Manager.Scaler.Decisions.{AnswersLoad, scale_up_by_lem, Confirmed, confirm_run_lem}
use oj_monorepo.Manager.Scaler.Cooldown.{Cooled, tick-Cooled}

abbrev whole : Float
whole = record {
  F = ℕ;
  of_ℕ = λ n. n;
  add = λ a b. a + b;
  sub = λ a b. a - b;
  mul = λ a b. a * b;
  div = λ a b. a / b;
  lt = ltb;
  ceil_usize = λ n. n;
}

abbrev config : ScalerConfig ℕ
config = record {
  min_agents = 1;
  max_agents = 10;
  scale_up_cooldown_secs = 30;
  scale_down_cooldown_secs = 60;
  scale_down_utilization_pct = 1;
  provision_time_secs = 5;
  check_interval_secs = 1;
  max_scale_up_batch = 4;
  scale_down_confirm_ticks = 2;
  ema_alpha = 1;
  max_concurrent_per_agent = 3;
}

abbrev busy : PoolMetrics
busy = record {
  agent_count = 2;
  healthy_agent_count = 2;
  unhealthy_agent_count = 0;
  draining_agent_count = 0;
  queue_size = 5;
  active_tasks = 6;
}

abbrev idle : PoolMetrics
idle = record busy { queue_size = 0; active_tasks = 0 }

scale_up_by_lem_example : AnswersLoad whole busy 11 config 2
unfolding scale_up_by
scale_up_by_lem_example = scale_up_by_lem whole busy 0 config

confirm_run_lem_example : Confirmed whole config 3 (false, 1)
unfolding scale_down_decision
confirm_run_lem_example =
    confirm_run_lem whole config (idle ∷ idle ∷ idle ∷ busy ∷ []) (omega arith) (omega arith)

abbrev scaler : Scaler ℕ
scaler = record {
  last_scale_up = 0;
  last_scale_down = 0;
  velocity_tracker = record {
    prev_queue_size = 0;
    velocity = 0;
    alpha = 1;
    check_interval_secs = 1;
  };
  scale_down_confirm_counter = 0;
}

tick-Cooled_example :
    Cooled whole config 40000 0 (tick whole config 40000 scaler (new default_pool_config))
tick-Cooled_example = tick-Cooled whole config 40000 scaler (new default_pool_config)
