-- ===== src/Tests/Sample.antt =====
-- An API server that accepts every write and knows no object, and the objects of one pod.
use mathlib.Core.Path.{sym}
use kube_snapshot.Base.{
  ℕ, String, ◌≡◌, refl, ap, none, some, [], ◌∷◌, true, false, map, split, join, ◌==◌, if◌then◌else◌,
}
use kube_snapshot.Base.Int.{pos}
use kube_snapshot.Api.{
  SnapshotPodTask, phase_created, snapshot_name_label, Condition, cond_true, ObjectMeta, PodObject,
  pod_running, SnapshotRunningStatus, succeed, SnapshotPod,
}
use kube_snapshot.World.{Host, Env, Error, Result, ok, err, not_found}
use kube_snapshot.Runtime.{DockerCompatible, docker_runtime}
use kube_snapshot.Task.Steps.{TaskReconciler}
use kube_snapshot.Task.Quiet.{IsContainerId}
use kube_snapshot.Task.Progress.{Echoes}
use kube_snapshot.Condition.Done.{untimed}

abbrev pub missing : Error
missing = record { reason = not_found; text = "not found" }

-- a host with the variables of the controller, and versions as texts that are never less
abbrev pub host : Host
host = record {
  variable = λ tr name. if name == "POD_NAMESPACE" then "system" else "";
  user_home = "/root";
  join_path = λ parts. join parts "/";
  file_at = λ tr path. err missing;
  has_config = λ tr. true;
  setup_error = λ tr c. none;
  exec_output = λ tr ctx command argv. "nerdctl version 2.1.3";
  trim_space = λ s. s;
  less_than = λ a b. some false;
  version_less = λ a b. false;
  server_version = λ tr. ok "2.0.0";
  default_address = "/run/containerd/containerd.sock";
}

abbrev pub env : Env
env = record {
  host = host;
  clock = λ tr. 1000000000;
  pod_at = λ tr key. err missing;
  pods_with = λ tr selector ns. ok [];
  snapshot_pod_at = λ tr key. err missing;
  snapshot_pods_in = λ tr ns. ok [];
  snapshot_pod_updated = λ tr sp. ok sp;
  snapshot_pod_status_updated = λ tr sp. ok sp;
  task_at = λ tr key. err missing;
  tasks_with = λ tr selector. ok [];
  task_created = λ tr t. ok t;
  task_status_updated = λ tr t. ok t;
  secret_at = λ tr key. err missing;
  uuid = λ tr. "0123-4567-89ab";
  exec_error = λ tr ctx command argv. none;
  temp_dir = λ tr. ok "/tmp/.docker-config-1";
  write_error = λ tr path text. none;
  decode_pod = λ text. err missing;
  sort_by_round = λ ss. ss;
  key_order = λ tr keys. keys;
  parse_reference =
      λ text. ok (record { domain = "docker.io"; path = text; tag = none; digest_hex = none });
  with_tag = λ ref tag. ok ref.path;
  parse_duration = λ text. ok (pos 300000000000);
  zstd = "zstd";
  new_controller_ref = λ owner group version kind. record {
    api_version = version;
    kind = kind;
    name = owner.name;
    uid = owner.uid;
    controller = false;
    block_owner_deletion = false;
  };
}

ok-injective : {A : Type 0} {a b : A} → ok a ≡ ok b → a ≡ b
ok-injective {A} {a} {b} e = ap (λ (r : Result A). elim r as (λ x. A) [ ok x ↦ x | err x ↦ a ]) e

pub env-Echoes : Echoes env
env-Echoes = record {
  at = λ tr t u e.
      let same = sym (ok-injective e) in
      record {
        same_meta = ap (λ (x : SnapshotPodTask). x.meta) same;
        same_spec = ap (λ (x : SnapshotPodTask). x.spec) same;
        same_phase = ap (λ (x : SnapshotPodTask). x.status.phase) same;
        same_retries = ap (λ (x : SnapshotPodTask). x.status.retry_count) same;
        same_conditions = ap (λ (x : SnapshotPodTask). map untimed x.status.conditions) same;
      };
}

abbrev pub docker : DockerCompatible
docker = record { command = "docker"; global_args = "--debug" ∷ [] }

abbrev pub reconciler : TaskReconciler
reconciler = record { node_name = "node-1"; runtime_map = ("docker", docker_runtime docker) ∷ [] }

abbrev pub task : SnapshotPodTask
task = record {
  meta = record {
    namespace = "default";
    name = "nginx-1-web";
    uid = "1";
    labels = some ((snapshot_name_label, "nginx") ∷ []);
    owner_references = [];
    creation_timestamp = 0;
    deletion_timestamp = none;
  };
  spec = record {
    node_name = "node-1";
    pod_name = "nginx";
    container_id = "docker://abc";
    commit_options = record { pause_container = false; timeout = ""; message = ""; author = "" };
    origin_image = "nginx";
    origin_registry_secret_ref = "";
    commit_image = "registry/nginx:snapped-1";
    registry_secret_ref = "";
    max_retries = pos 3;
    retry_delay_seconds = pos 30;
  };
  status = record {
    conditions = [];
    phase = phase_created;
    retry_count = pos 0;
    last_retry_time = none;
  };
}

pub task-IsContainerId : IsContainerId "docker://abc"
unfolding split
task-IsContainerId = record { typ = "docker"; cid = "abc"; others = []; parts = refl }

-- a condition of the type, which is true
abbrev pub true_condition : String → Condition
true_condition typ = record {
  typ = typ;
  status = cond_true;
  reason = "";
  message = "";
  last_transition_time = 1000000000;
}

-- the task with an image that is committed and not pushed
abbrev pub committed_task : SnapshotPodTask
committed_task = record task {
  status = record task.status {
    conditions = true_condition "Accept" ∷ true_condition "Commit" ∷ [];
  };
}

abbrev pub meta : ObjectMeta
meta = record {
  namespace = "default";
  name = "nginx";
  uid = "1";
  labels = some (("app", "nginx") ∷ []);
  owner_references = [];
  creation_timestamp = 0;
  deletion_timestamp = none;
}

-- a pod of one container
abbrev pub pod : PodObject
pod = record {
  meta = meta;
  node_name = "node-1";
  containers = record { name = "web"; image = "nginx" } ∷ [];
  image_pull_secrets = [];
  phase = pod_running;
  container_statuses = record { name = "web"; image = "nginx"; container_id = "docker://abc" } ∷ [];
}

-- a snapshot of the container that succeeded in the round
abbrev pub snapshot : ℕ → SnapshotRunningStatus
snapshot n = record {
  trigger_round = pos n;
  trigger_time = 0;
  task_name = "nginx-1-web";
  image_ref = "registry/nginx:snapped-1";
  container_name = "web";
  result = succeed;
  failed_reason = "";
  completed_at = none;
}

-- the snapshots of the pod by its labels, with the first round done
abbrev pub snapshot_pod : SnapshotPod
snapshot_pod = record {
  meta = meta;
  spec = record {
    target = record { name = ""; selector = some (("app", "nginx") ∷ []); containers = [] };
    commit_options = record { pause_container = false; timeout = ""; message = ""; author = "" };
    image_save_options = record {
      image_ref_format = "registry/{repository}";
      registry_secret_ref = "";
      append_snapped_suffix = none;
      max_retries = pos 3;
      retry_delay_seconds = pos 30;
    };
    auto_save_options = record { auto_save_on_termination = true; cron = "" };
    trigger_round = pos 2;
    recovery_round = pos 0;
  };
  status = record { snapshots = snapshot 1 ∷ []; conditions = []; last_trigger_round = pos 1 };
}
