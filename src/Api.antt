-- ===== src/Api.antt =====
-- The types of api/v1alpha1/snapshotpod_types.go and api/v1alpha1/snapshotpodtask_types.go, and
-- what the program reads of the Kubernetes types beside them. A Go `map` is an association list,
-- a `metav1.Time` the nanoseconds since Go's zero time (so 0 is the time for which `IsZero`
-- holds), a duration a whole number of nanoseconds, an int32 an integer.
use kube_snapshot.Base.{
  ℕ, String, Bool, true, false, Option, none, some, List, ◌==◌, eqb, lookup_text,
}
use kube_snapshot.Base.Int.{ℤ, pos}

abbrev pub Time : Type 0
Time = ℕ

abbrev pub Duration : Type 0
Duration = ℤ

abbrev pub is_zero : Time → Bool
is_zero t = eqb t 0

abbrev pub second : ℕ
second = 1000000000

pub record OwnerReference : Type 0 where
  pub api_version : String
  pub kind : String
  pub name : String
  pub uid : String
  pub controller : Bool
  pub block_owner_deletion : Bool

pub record ObjectMeta : Type 0 where
  pub namespace : String
  pub name : String
  pub uid : String
  pub labels : Option (List (String × String))
  pub owner_references : List OwnerReference
  pub creation_timestamp : Time
  pub deletion_timestamp : Option Time

-- `metav1.ConditionStatus` is a text with three values of its own.
pub data ConditionStatus : Type 0 where
  cond_true cond_false cond_unknown : ConditionStatus
  cond_other : String → ConditionStatus

abbrev pub is_cond_true : ConditionStatus → Bool
is_cond_true cond_true = true
is_cond_true cond_false = false
is_cond_true cond_unknown = false
is_cond_true (cond_other s) = false

abbrev pub same_status : ConditionStatus → ConditionStatus → Bool
same_status cond_true cond_true = true
same_status cond_false cond_false = true
same_status cond_unknown cond_unknown = true
same_status (cond_other s) (cond_other t) = s == t
same_status _ _ = false

pub record Condition : Type 0 where
  pub typ : String
  pub status : ConditionStatus
  pub reason : String
  pub message : String
  pub last_transition_time : Time

-- A selector that is not set (`nil`) is `none`.
pub record TargetPod : Type 0 where
  pub name : String
  pub selector : Option (List (String × String))
  pub containers : List String

pub record CommitOptions : Type 0 where
  pub pause_container : Bool
  pub timeout : String
  pub message : String
  pub author : String

pub record ImageSaveOptions : Type 0 where
  pub image_ref_format : String
  pub registry_secret_ref : String
  pub append_snapped_suffix : Option Bool
  pub max_retries : ℤ
  pub retry_delay_seconds : ℤ

pub record AutoSaveOptions : Type 0 where
  pub auto_save_on_termination : Bool
  pub cron : String

pub record SnapshotPodSpec : Type 0 where
  pub target : TargetPod
  pub commit_options : CommitOptions
  pub image_save_options : ImageSaveOptions
  pub auto_save_options : AutoSaveOptions
  pub trigger_round : ℤ
  pub recovery_round : ℤ

-- `SnapshotRunningResult` is a text; `result_other ""` is the one that is not set.
pub data SnapshotRunningResult : Type 0 where
  created running failed succeed : SnapshotRunningResult
  result_other : String → SnapshotRunningResult

pub record SnapshotRunningStatus : Type 0 where
  pub trigger_round : ℤ
  pub trigger_time : Time
  pub task_name : String
  pub image_ref : String
  pub container_name : String
  pub result : SnapshotRunningResult
  pub failed_reason : String
  pub completed_at : Option Time

pub record SnapshotPodStatus : Type 0 where
  pub snapshots : List SnapshotRunningStatus
  pub conditions : List Condition
  pub last_trigger_round : ℤ

pub record SnapshotPod : Type 0 where
  pub meta : ObjectMeta
  pub spec : SnapshotPodSpec
  pub status : SnapshotPodStatus

pub record SnapshotPodTaskSpec : Type 0 where
  pub node_name : String
  pub pod_name : String
  pub container_id : String
  pub commit_options : CommitOptions
  pub origin_image : String
  pub origin_registry_secret_ref : String
  pub commit_image : String
  pub registry_secret_ref : String
  pub max_retries : ℤ
  pub retry_delay_seconds : ℤ

-- `SnapshotPodTaskPhase` is a text; `phase_other ""` is the one that is not set.
pub data SnapshotPodTaskPhase : Type 0 where
  phase_created phase_failed phase_completed : SnapshotPodTaskPhase
  phase_other : String → SnapshotPodTaskPhase

pub record SnapshotPodTaskStatus : Type 0 where
  pub conditions : List Condition
  pub phase : SnapshotPodTaskPhase
  pub retry_count : ℤ
  pub last_retry_time : Option Time

pub record SnapshotPodTask : Type 0 where
  pub meta : ObjectMeta
  pub spec : SnapshotPodTaskSpec
  pub status : SnapshotPodTaskStatus

-- pkg/apis/snapshotpod/v1alpha1/snapshot_labels.go
abbrev pub snapshot_name_label : String
snapshot_name_label = "snapshot-pod.baizeai.io/name"

-- What the program reads of a `corev1.Pod`
pub record Container : Type 0 where
  pub name : String
  pub image : String

pub record ContainerStatus : Type 0 where
  pub name : String
  pub image : String
  pub container_id : String

pub data PodPhase : Type 0 where
  pod_running : PodPhase
  pod_phase_other : String → PodPhase

pub record PodObject : Type 0 where
  pub meta : ObjectMeta
  pub node_name : String
  pub containers : List Container
  pub image_pull_secrets : List String
  pub phase : PodPhase
  pub container_statuses : List ContainerStatus

-- A key into the API server
pub record ObjectKey : Type 0 where
  pub namespace : String
  pub name : String

-- `ctrl.Result`: the delay before the next call, if one is asked for
pub record ReconcileResult : Type 0 where
  pub requeue_after : Duration

-- a result that asks for no further call
abbrev pub done_result : ReconcileResult
done_result = record { requeue_after = pos 0 }

-- `m[k]` of a label map that may be unset
abbrev pub label_of : Option (List (String × String)) → String → String
label_of none k = ""
label_of (some m) k = lookup_text k m
