-- ===== src/Manager/Config.antt =====
-- services/crates/judge_core_manager/src/config.rs: the settings. Durations are in milliseconds,
-- as the configuration library reads them.
use oj_monorepo.Base.{ℕ, String}

pub record PoolConfig : Type 0 where
  pub max_queue_size : ℕ
  pub max_retries : ℕ
  pub task_timeout : ℕ
  pub health_check_interval : ℕ
  pub health_check_failure_threshold : ℕ
  pub max_concurrent_per_agent : ℕ
  pub drain_check_interval_secs : ℕ

abbrev pub default_pool_config : PoolConfig
default_pool_config = record {
  max_queue_size = 1000;
  max_retries = 3;
  task_timeout = 45000;
  health_check_interval = 5000;
  health_check_failure_threshold = 3;
  max_concurrent_per_agent = 5;
  drain_check_interval_secs = 5;
}

-- `F` stands for `f64`.
pub record ScalerConfig (F : Type 0) : Type 0 where
  pub min_agents : ℕ
  pub max_agents : ℕ
  pub scale_down_utilization_pct : F
  pub scale_up_cooldown_secs : ℕ
  pub scale_down_cooldown_secs : ℕ
  pub check_interval_secs : ℕ
  pub provision_time_secs : ℕ
  pub max_scale_up_batch : ℕ
  pub scale_down_confirm_ticks : ℕ
  pub ema_alpha : F
  pub max_concurrent_per_agent : ℕ

pub record ProvisionerConfig : Type 0 where
  pub namespace : String
  pub runtime : String

abbrev pub default_provisioner_config : ProvisionerConfig
default_provisioner_config = record { namespace = "judge-core"; runtime = "io.containerd.runc.v2" }

pub record ServerConfig : Type 0 where
  pub bind_address : String
  pub containerd_socket : String
  pub image : String

abbrev pub default_server_config : ServerConfig
default_server_config = record {
  bind_address = "0.0.0.0:8000";
  containerd_socket = "/run/containerd/containerd.sock";
  image = "docker.io/library/judge-core:latest";
}

pub record ManagerConfig (F : Type 0) : Type 0 where
  pub pool : PoolConfig
  pub scaler : ScalerConfig F
  pub server : ServerConfig
  pub provisioner : ProvisionerConfig
