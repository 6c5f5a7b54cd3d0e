-- ===== src/Manager/Provisioner/Spec.antt =====
-- services/crates/judge_core_manager/src/provisioner.rs: `build_agent_spec`, what the container of an
-- agent may see and use.
use oj_monorepo.Base.{ℕ, String, List, [], ◌∷◌, Bool, true, false, Option, none, some}

pub record Mount : Type 0 where
  pub destination : String
  pub source : String
  pub typ : String
  pub options : List String

pub data Namespace : Type 0 where
  pid : Namespace
  ipc : Namespace
  uts : Namespace
  mount : Namespace
  network : Namespace
  user : Namespace
  cgroup : Namespace

pub record IdMapping : Type 0 where
  pub container_id : ℕ
  pub host_id : ℕ
  pub size : ℕ

-- A character device; the mode is in octal in the source.
pub record CharDevice : Type 0 where
  pub path : String
  pub major : ℕ
  pub minor : ℕ
  pub file_mode : ℕ

pub data DeviceType : Type 0 where
  all_devices : DeviceType
  character : DeviceType

-- A rule of the device controller; a number that is not given stands for all.
pub record DeviceRule : Type 0 where
  pub allow : Bool
  pub typ : DeviceType
  pub major : Option ℕ
  pub minor : Option ℕ
  pub access : String

pub record AgentSpec : Type 0 where
  pub root : String
  pub args : List String
  pub cwd : String
  pub mounts : List Mount
  pub uid_mappings : List IdMapping
  pub gid_mappings : List IdMapping
  pub namespaces : List Namespace
  pub devices : List CharDevice
  pub device_rules : List DeviceRule

abbrev mount_at : String → String → String → List String → Mount
mount_at destination source typ options = record {
  destination = destination;
  source = source;
  typ = typ;
  options = options;
}

unfoldable pub mounts_of : String → List Mount
mounts_of socket_dir =
    mount_at "/proc" "proc" "proc" []
    ∷ mount_at "/dev" "tmpfs" "tmpfs" ("nosuid" ∷ "strictatime" ∷ "mode=755" ∷ "size=65536k" ∷ [])
    ∷ mount_at "/dev/pts" "devpts" "devpts"
        ("nosuid" ∷ "noexec" ∷ "newinstance" ∷ "ptmxmode=0666" ∷ "mode=0620" ∷ [])
    ∷ mount_at "/run/judge-core" socket_dir "bind" ("rbind" ∷ "rw" ∷ [])
    ∷ mount_at "/work" "tmpfs" "tmpfs" ("nosuid" ∷ "nodev" ∷ "mode=755" ∷ "size=256m" ∷ [])
    ∷ mount_at "/tmp" "tmpfs" "tmpfs" ("nosuid" ∷ "nodev" ∷ "mode=1777" ∷ "size=64m" ∷ [])
    ∷ mount_at "/sys/fs/cgroup" "cgroup2" "cgroup2" ("nosuid" ∷ "noexec" ∷ "nodev" ∷ "rw" ∷ [])
    ∷ []

abbrev device : String → ℕ → ℕ → CharDevice
device path major minor = record { path = path; major = major; minor = minor; file_mode = 438 }

unfoldable pub agent_devices : List CharDevice
agent_devices =
    device "/dev/null" 1 3
    ∷ device "/dev/zero" 1 5
    ∷ device "/dev/random" 1 8
    ∷ device "/dev/urandom" 1 9
    ∷ device "/dev/tty" 5 0
    ∷ []

abbrev allowed : ℕ → ℕ → DeviceRule
allowed major minor = record {
  allow = true;
  typ = DeviceType.character;
  major = some major;
  minor = some minor;
  access = "rwm";
}

-- Deny all, then allow null, zero, random, urandom and tty.
unfoldable pub agent_rules : List DeviceRule
agent_rules =
    record {
      allow = false;
      typ = DeviceType.all_devices;
      major = none;
      minor = none;
      access = "rwm";
    }
    ∷ allowed 1 3
    ∷ allowed 1 5
    ∷ allowed 1 8
    ∷ allowed 1 9
    ∷ allowed 5 0
    ∷ []

abbrev whole_range : IdMapping
whole_range = record { container_id = 0; host_id = 0; size = 65536 }

-- `build_agent_spec` before its serialization.
unfoldable pub agent_spec : String → AgentSpec
unfolding mounts_of agent_devices agent_rules
agent_spec socket_dir = record {
  root = "rootfs";
  args = "/usr/local/bin/agent" ∷ [];
  cwd = "/";
  mounts = mounts_of socket_dir;
  uid_mappings = whole_range ∷ [];
  gid_mappings = whole_range ∷ [];
  namespaces =
      Namespace.pid ∷ Namespace.ipc ∷ Namespace.uts ∷ Namespace.mount ∷ Namespace.network
      ∷ Namespace.user ∷ Namespace.cgroup ∷ [];
  devices = agent_devices;
  device_rules = agent_rules;
}
