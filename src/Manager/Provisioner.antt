-- ===== src/Manager/Provisioner.antt =====
-- services/crates/judge_core_manager/src/provisioner.rs: the containers of the agents. What
-- containerd and the file system answer to a call is a parameter; the calls are logged in their
-- order, all of them in the provisioner's namespace.
pub mod Spec
pub mod Waiting
pub mod Calls
mod Tests
use oj_monorepo.Base.{
  ℕ, ℤ, String, str_eq, str_append, List, [], ◌∷◌, ◌++◌, map, find, ◌&&◌, ◌||◌, Bool, true, false,
  Option, none, some, Result, ok, err, if◌then◌else◌,
}
use oj_monorepo.Manager.Pool.{ProvisionError}
use oj_monorepo.Manager.Provisioner.Spec.{Mount, AgentSpec, agent_spec}
use oj_monorepo.Manager.Provisioner.Calls.{
  Container, Descriptor, Manifest, Call, Containerd, Log, M, ◌>>=◌, ◌>>◌, pure, call, attempt,
  or_io, as_i64, concat,
}
use oj_monorepo.Manager.Provisioner.Waiting.{Polls, wait_for_socket, rounds}

abbrev pub agent_label_key : String
agent_label_key = "judge-core.agent"

abbrev pub agent_label_value : String
agent_label_value = "true"

abbrev pub snapshotter : String
snapshotter = "overlayfs"

-- SIGINT.
abbrev pub sigint : ℕ
sigint = 2

pub record ContainerdProvisioner : Type 0 where
  pub image : String
  pub namespace : String
  pub runtime : String
  pub socket_base : String

-- `new`, but for the cell of the chain id, which is in the log below.
unfoldable pub new : String → String → String → ContainerdProvisioner
new image namespace runtime = record {
  image = image;
  namespace = namespace;
  runtime = runtime;
  socket_base = "/run/judge-core/agents";
}

module _ (self : ContainerdProvisioner) (containerd : Containerd) where
  open containerd use {
    done, image_of, content, mounts_of, containers, index_of, config_of, diff_ids_of, built,
    sha256_hex, polls,
  }

  abbrev pub socket_dir_of : String → String
  socket_dir_of id = str_append self.socket_base (str_append "/" id)

  -- The loop of `compute_chain_id`.
  unfoldable pub extend_chain : String → List String → String
  extend_chain chain [] = chain
  extend_chain chain (diff_id ∷ diff_ids) =
      extend_chain (str_append "sha256:" (sha256_hex (str_append chain (str_append " " diff_id))))
        diff_ids

  unfoldable pub compute_chain_id : List String → String
  unfolding extend_chain
  compute_chain_id [] = ""
  compute_chain_id (diff_id ∷ diff_ids) = extend_chain diff_id diff_ids

  -- `read_content_blob`: the chunks of the stream, one after the other.
  unfoldable pub read_content_blob : String → ℤ → M String
  read_content_blob digest size = do
    chunks ← call (Call.read_content digest size) (content digest size)
    pure (ok (concat chunks))

  unfoldable pub chain_id_of_manifest : String → M String
  unfolding read_content_blob compute_chain_id
  chain_id_of_manifest blob = do
    config ← pure (config_of blob)
    config_blob ← read_content_blob config.0 (as_i64 config.1)
    diff_ids ← pure (diff_ids_of config_blob)
    pure (ok (compute_chain_id diff_ids))

  unfoldable pub chain_id_of_index : String → M String
  unfolding read_content_blob chain_id_of_manifest
  chain_id_of_index blob = do
    manifests ← pure (index_of blob)
    desc ← pure (
        or_io (find (λ (m : Manifest). m.is_linux_amd64) manifests)
          "no manifest for linux/amd64 platform")
    manifest_blob ← read_content_blob desc.digest (as_i64 desc.size)
    chain_id_of_manifest manifest_blob

  unfoldable pub chain_id_of_blob : String → String → M String
  unfolding chain_id_of_manifest chain_id_of_index
  chain_id_of_blob media_type blob =
      if str_eq media_type "application/vnd.oci.image.index.v1+json"
        || str_eq media_type "application/vnd.docker.distribution.manifest.list.v2+json"
      then chain_id_of_index blob
      else if str_eq media_type "application/vnd.oci.image.manifest.v1+json"
          || str_eq media_type "application/vnd.docker.distribution.manifest.v2+json"
      then chain_id_of_manifest blob
      else pure (err (ProvisionError.io (str_append "unsupported image media type: " media_type)))

  unfoldable pub compute_chain_id_from_image : M String
  unfolding read_content_blob chain_id_of_blob
  compute_chain_id_from_image = do
    found ← call (Call.get_image self.image) (image_of self.image)
    image ← pure (or_io found "image not found")
    target ← pure (or_io image "image has no target descriptor")
    blob ← read_content_blob target.digest target.size
    chain_id_of_blob target.media_type blob

  -- What `get_or_try_init` makes of an empty cell.
  unfoldable pub initialised :
      Option (Log × Result String ProvisionError) → Option (Log × Result String ProvisionError)
  initialised none = none
  initialised (some (log, err e)) = some (log, err e)
  initialised (some (log, ok chain_id)) =
      some (record log { chain_id = some chain_id }, ok chain_id)

  unfoldable pub resolve_chain_id : M String
  unfolding compute_chain_id_from_image initialised
  resolve_chain_id log = elim log.chain_id [
    | none ↦ initialised (compute_chain_id_from_image log)
    | some chain_id ↦ some (log, ok chain_id)
  ]

  unfoldable pub build_agent_spec : String → Result String ProvisionError
  unfolding agent_spec
  build_agent_spec socket_dir = built (agent_spec socket_dir)

  unfoldable pub container_of : String → String → Container
  container_of id spec = record {
    id = id;
    image = self.image;
    runtime = self.runtime;
    spec = spec;
    snapshotter = snapshotter;
    snapshot_key = id;
    labels = (agent_label_key, agent_label_value) ∷ [];
  }

  -- `wait_for_socket` with the rounds that are enough.
  abbrev pub socket_ready : M (Unit {0})
  socket_ready log = elim (wait_for_socket polls rounds 0) [ none ↦ none | some r ↦ some (log, r) ]

  abbrev pub acted : Call → M (Unit {0})
  acted c = call c (done c)

  -- `create`, with the new id; the answer is the id and the path of the socket.
  unfoldable pub create : String → M (String × String)
  unfolding resolve_chain_id build_agent_spec container_of
  create id = do
    acted (Call.create_dir_all (socket_dir_of id))
    parent ← resolve_chain_id
    acted (Call.prepare_snapshot id parent)
    rootfs ← call (Call.snapshot_mounts id) (mounts_of id)
    spec ← pure (build_agent_spec (socket_dir_of id))
    acted (Call.create_container (container_of id spec))
    acted (Call.create_task id rootfs)
    acted (Call.start_task id)
    socket_ready
    pure (ok (id, str_append (socket_dir_of id) "/agent.sock"))

  -- `destroy`; the wait for the end of the task has a limit of its own, and ends in any case.
  unfoldable pub destroy : String → M (Unit {0})
  destroy id = do
    attempt (Call.kill_task id sigint) (done (Call.kill_task id sigint))
    attempt (Call.wait_task id) (done (Call.wait_task id))
    acted (Call.delete_task id)
    acted (Call.delete_container id)
    attempt (Call.remove_snapshot id) (done (Call.remove_snapshot id))
    attempt (Call.remove_dir_all (socket_dir_of id)) (done (Call.remove_dir_all (socket_dir_of id)))
    pure (ok tt)

  unfoldable pub list : M (List String)
  list = call (Call.list_containers agent_label_key agent_label_value) containers
