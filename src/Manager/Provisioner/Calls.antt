-- ===== src/Manager/Provisioner/Calls.antt =====
-- services/crates/judge_core_manager/src/provisioner.rs: the calls of containerd and the file system
-- that the provisioner makes, what they answer, and programs of such calls.
use oj_monorepo.Base.{
  ℕ, ℤ, pos, negsuc, ◌-◌, u64_mod, ◌^◌, ltb, String, str_append, List, [], ◌∷◌, ◌++◌, Bool, Option,
  none, some, Result, ok, err, if◌then◌else◌,
}
use oj_monorepo.Manager.Pool.{ProvisionError}
use oj_monorepo.Manager.Provisioner.Spec.{AgentSpec}
use oj_monorepo.Manager.Provisioner.Waiting.{Polls}

pub record Container : Type 0 where
  pub id : String
  pub image : String
  pub runtime : String
  pub spec : String
  pub snapshotter : String
  pub snapshot_key : String
  pub labels : List (String × String)

pub record Descriptor : Type 0 where
  pub media_type : String
  pub digest : String
  pub size : ℤ

-- A manifest in an index, and whether its platform is linux/amd64.
pub record Manifest : Type 0 where
  pub digest : String
  pub size : ℕ
  pub is_linux_amd64 : Bool

pub data Call : Type 0 where
  create_dir_all : (path : String) → Call
  get_image : (name : String) → Call
  read_content : (digest : String) (size : ℤ) → Call
  prepare_snapshot : (key parent : String) → Call
  snapshot_mounts : (key : String) → Call
  create_container : (c : Container) → Call
  create_task : (id : String) (rootfs : List String) → Call
  start_task : (id : String) → Call
  kill_task : (id : String) (signal : ℕ) → Call
  wait_task : (id : String) → Call
  delete_task : (id : String) → Call
  delete_container : (id : String) → Call
  remove_snapshot : (key : String) → Call
  remove_dir_all : (path : String) → Call
  list_containers : (label value : String) → Call

-- What the calls answer. Blobs and mounts are texts.
pub record Containerd : Type 0 where
  pub done : Call → Result (Unit {0}) ProvisionError
  pub image_of : String → Result (Option (Option Descriptor)) ProvisionError
  pub content : String → ℤ → Result (List String) ProvisionError
  pub mounts_of : String → Result (List String) ProvisionError
  pub containers : Result (List String) ProvisionError
  -- oci_spec's readers: the manifests of an index, the configuration of a manifest, and the diff ids
  -- of a configuration.
  pub index_of : String → Result (List Manifest) ProvisionError
  pub config_of : String → Result (String × ℕ) ProvisionError
  pub diff_ids_of : String → Result (List String) ProvisionError
  -- The builders of oci_spec and the JSON of a specification.
  pub built : AgentSpec → Result String ProvisionError
  -- SHA-256 of a text, in hexadecimal.
  pub sha256_hex : String → String
  -- The polls of the socket, by the time since the first.
  pub polls : Polls

-- The calls so far, and the cell of the chain id.
pub record Log : Type 0 where
  pub calls : List Call
  pub chain_id : Option String

-- `none` is a loop that goes on.
abbrev pub M : Type 0 → Type 0
M A = Log → Option (Log × Result A ProvisionError)

infixl 5 ◌>>=◌ ◌>>◌
abbrev pub ◌>>=◌ : {A B : Type 0} → M A → (A → M B) → M B
◌>>=◌ m f log = elim (m log) [
  | none ↦ none
  | some (log', r) ↦ elim r [ ok a ↦ f a log' | err e ↦ some (log', err e) ]
]

abbrev pub ◌>>◌ : {A B : Type 0} → M A → M B → M B
m >> k = m >>= λ _. k

abbrev pub pure : {A : Type 0} → Result A ProvisionError → M A
pure r log = some (log, r)

abbrev pub call : {A : Type 0} → Call → Result A ProvisionError → M A
call c r log = some (record log { calls = log.calls ++ (c ∷ []) }, r)

-- A call whose error is only logged.
abbrev pub attempt : {A : Type 0} → Call → Result A ProvisionError → M (Unit {0})
attempt c r log = some (record log { calls = log.calls ++ (c ∷ []) }, ok tt)

abbrev pub or_io : {A : Type 0} → Option A → String → Result A ProvisionError
or_io none message = err (ProvisionError.io message)
or_io (some a) message = ok a

-- `u64 as i64`.
abbrev pub as_i64 : ℕ → ℤ
as_i64 n = if ltb n (2 ^ 63) then pos n else negsuc (u64_mod - n - 1)

abbrev pub concat : List String → String
concat [] = ""
concat (s ∷ ss) = str_append s (concat ss)
