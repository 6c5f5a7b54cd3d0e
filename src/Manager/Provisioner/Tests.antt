-- ===== src/Manager/Provisioner/Tests.antt =====
-- The provisioner with a containerd that answers everything, and with one that cannot start a task.
use oj_monorepo.Base.{
  ◌*◌, ◌==◌, ◌≡◌, refl, arith, pos, String, str_append, List, [], ◌∷◌, map, true, false, Bool,
  Option, none, some, Result, ok, err,
}
use oj_monorepo.Manager.Config.{default_provisioner_config}
use oj_monorepo.Manager.Pool.{ProvisionError}
use oj_monorepo.Manager.Provisioner.{ContainerdProvisioner, new, compute_chain_id, create, destroy}
use oj_monorepo.Manager.Provisioner.Calls.{Containerd, Call, Log}
use oj_monorepo.Manager.Provisioner.Waiting.{
  Polls, Sleeps, Ends, wait_for_socket, rounds, wait_for_socket-Ends,
}

abbrev polls : Polls
polls = record { elapsed_ms = λ n. n * 100; try_exists = λ n. ok (n == 2) }

polls-Sleeps : Sleeps polls
polls-Sleeps n = omega arith

wait_for_socket-Ends_example : Ends polls rounds (wait_for_socket polls rounds 0)
wait_for_socket-Ends_example = wait_for_socket-Ends polls polls-Sleeps

-- A socket that never comes is waited for until 30 seconds have passed.
wait_times_out :
    wait_for_socket (record polls { try_exists = λ n. ok false }) rounds 0
    ≡ some (err (ProvisionError.socket_timeout 30))
unfolding wait_for_socket
wait_times_out = refl

abbrev self : ContainerdProvisioner
unfolding new
self = new "agent:1" default_provisioner_config.namespace default_provisioner_config.runtime

new_runs : self.socket_base ≡ "/run/judge-core/agents"
unfolding self
new_runs = refl

abbrev containerd : Containerd
containerd = record {
  done = λ c. ok tt;
  image_of = λ name. ok (
      some (
        some (record {
          media_type = "application/vnd.oci.image.manifest.v1+json";
          digest = "d0";
          size = pos 10;
        })));
  content = λ digest size. ok (digest ∷ "!" ∷ []);
  mounts_of = λ key. ok ("overlay" ∷ []);
  containers = ok ("a" ∷ "b" ∷ []);
  index_of = λ blob. ok [];
  config_of = λ blob. ok ("d1", 20);
  diff_ids_of = λ blob. ok ("l1" ∷ "l2" ∷ "l3" ∷ []);
  built = λ spec. ok "spec";
  sha256_hex = λ s. str_append "<" (str_append s ">");
  polls = polls;
}

compute_chain_id_runs :
    compute_chain_id self containerd ("l1" ∷ "l2" ∷ "l3" ∷ []) ≡ "sha256:<sha256:<l1 l2> l3>"
unfolding compute_chain_id
compute_chain_id_runs = refl

abbrev kind : Call → String
kind (Call.create_dir_all path) = str_append "dir " path
kind (Call.get_image name) = str_append "image " name
kind (Call.read_content digest size) = str_append "read " digest
kind (Call.prepare_snapshot key parent) = str_append "snapshot " parent
kind (Call.snapshot_mounts key) = "mounts"
kind (Call.create_container c) = str_append "container " c.id
kind (Call.create_task id rootfs) = "task"
kind (Call.start_task id) = "start"
kind (Call.kill_task id signal) = "kill"
kind (Call.wait_task id) = "wait"
kind (Call.delete_task id) = "delete task"
kind (Call.delete_container id) = "delete container"
kind (Call.remove_snapshot key) = "remove snapshot"
kind (Call.remove_dir_all path) = "remove dir"
kind (Call.list_containers label value) = "list"

abbrev calls_of {ℓ} : {A : Type ℓ} → Option (Log × Result A ProvisionError) → List String
calls_of none = []
calls_of (some (log, r)) = map kind log.calls

abbrev failed {ℓ} : {A : Type ℓ} → Option (Log × Result A ProvisionError) → Bool
failed none = false
failed (some (log, ok a)) = false
failed (some (log, err e)) = true

abbrev cold : Log
cold = record { calls = []; chain_id = none }

abbrev warm : Log
warm = record { calls = []; chain_id = some "c" }

-- The chain id is computed once: the image is read only while the cell is empty.
create_reads_once :
    calls_of (create self containerd "x" cold)
    ≡ "dir /run/judge-core/agents/x" ∷ "image agent:1" ∷ "read d0" ∷ "read d1"
      ∷ "snapshot sha256:<sha256:<l1 l2> l3>" ∷ "mounts" ∷ "container x" ∷ "task" ∷ "start" ∷ []
unfolding create wait_for_socket new
create_reads_once = refl

abbrev not_starting : Containerd
not_starting = record containerd {
  done = λ c. elim c [ Call.start_task id ↦ err (ProvisionError.rpc "no") | _ ↦ ok tt ];
}

-- A task that cannot be started leaves its directory, its snapshot, its container and itself.
create_leaves_all :
    calls_of (create self not_starting "x" warm)
    ≡ "dir /run/judge-core/agents/x" ∷ "snapshot c" ∷ "mounts" ∷ "container x" ∷ "task" ∷ "start"
      ∷ []
unfolding create new
create_leaves_all = refl

create_fails : failed (create self not_starting "x" warm) ≡ true
unfolding create new
create_fails = refl

destroy_runs :
    calls_of (destroy self containerd "x" warm)
    ≡ "kill" ∷ "wait" ∷ "delete task" ∷ "delete container" ∷ "remove snapshot" ∷ "remove dir" ∷ []
unfolding destroy
destroy_runs = refl

abbrev not_deleting : Containerd
not_deleting = record containerd {
  done = λ c. elim c [ Call.delete_task id ↦ err (ProvisionError.rpc "busy") | _ ↦ ok tt ];
}

-- A task that cannot be deleted keeps its container, for another try.
destroy_retains :
    calls_of (destroy self not_deleting "x" warm) ≡ "kill" ∷ "wait" ∷ "delete task" ∷ []
unfolding destroy
destroy_retains = refl
