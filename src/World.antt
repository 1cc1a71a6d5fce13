-- ===== src/World.antt =====
-- The world outside the program, and the monad in which the program runs.
-- Every effect of the program is a `Call`, and a `Trace` is the list of the calls made so far, the
-- latest first. What a call returns is chosen by an `Env`, which sees the whole trace before it:
-- so an `Env` stands for any API server, clock, container engine and file system, with other
-- clients that write to it meanwhile. It is an argument of every definition that makes a call.
pub mod Logic
pub mod Calls
pub mod State
pub mod Ensures
pub mod Count
use kube_snapshot.Base.{ℕ, String, Bool, true, false, Option, none, some, List, [], ◌∷◌}
use kube_snapshot.Base.Int.{ℤ}
use kube_snapshot.Api.{
  Time, Duration, OwnerReference, ObjectMeta, PodObject, SnapshotPod, SnapshotPodTask,
  SnapshotRunningStatus, ObjectKey,
}

-- What `errors.IsNotFound` and `errors.IsAlreadyExists` tell apart
pub data Reason : Type 0 where
  not_found already_exists other_reason : Reason

-- A Go error, with `text` for its `Error()`
pub record Error : Type 0 where
  pub reason : Reason
  pub text : String

-- `fmt.Errorf`
abbrev pub errorf : String → Error
errorf s = record { reason = other_reason; text = s }

abbrev pub is_not_found : Error → Bool
is_not_found e = elim e.reason [ not_found ↦ true | _ ↦ false ]

abbrev pub is_already_exists : Error → Bool
is_already_exists e = elim e.reason [ already_exists ↦ true | _ ↦ false ]

pub data Result (A : Type 0) : Type 0 where
  ok : A → Result A
  err : Error → Result A

-- An image reference of github.com/containers/image, by what its accessors return
pub record Reference : Type 0 where
  pub domain : String
  pub path : String
  pub tag : Option String
  pub digest_hex : Option String

-- A `corev1.Secret`, by its data
abbrev pub Secret : Type 0
Secret = List (String × String)

-- The deadline of a `context.Context`, counted from the call that set it
abbrev pub Context : Type 0
Context = Option Duration

-- The vectors that internal/metrics/metrics.go registers
pub data Vector : Type 0 where
  tasks_total task_duration task_retries active_tasks tasks_by_node : Vector
  reconcile_total reconcile_duration errors_total : Vector
  push_total push_duration : Vector
  task_failed_total : Vector

-- The options of the manager that `main` builds
pub record ManagerOptions : Type 0 where
  pub bind_address : String
  pub secure_serving : Bool
  pub next_protos : Option (List String)
  pub cert_dir : String
  pub health_probe_bind_address : String
  pub leader_election : Bool
  pub leader_election_id : String

-- What `main` asks of the certificate rotator, but for the fields that are constant
pub record RotatorOptions : Type 0 where
  pub secret_key : ObjectKey
  pub cert_dir : String
  pub dns_name : String
  pub webhook_name : String

-- The calls of the start-up: those of controller-runtime, of the rotator and of containerd
pub data SetupCall : Type 0 where
  get_env : String → SetupCall
  read_file : String → SetupCall
  load_config : SetupCall
  new_manager : ManagerOptions → SetupCall
  add_controller : String → SetupCall
  add_rotator : RotatorOptions → SetupCall
  register_handler : String → SetupCall
  add_webhook : String → SetupCall
  spawn : String → SetupCall
  add_healthz_check add_readyz_check : String → SetupCall
  start_manager : SetupCall
  containerd_client : String → String → SetupCall
  containerd_version containerd_cancel : SetupCall

pub data Call : Type 0 where
  now : Call
  get_pod : ObjectKey → Call
  list_pods : List (String × String) → String → Call
  get_snapshot_pod : ObjectKey → Call
  list_snapshot_pods : Option String → Call
  update_snapshot_pod : SnapshotPod → Call
  update_snapshot_pod_status : SnapshotPod → Call
  get_task : ObjectKey → Call
  list_tasks : List (String × String) → Call
  create_task : SnapshotPodTask → Call
  update_task_status : SnapshotPodTask → Call
  get_secret : ObjectKey → Call
  new_uuid : Call
  -- a command, its arguments, and the deadline of its context
  exec : Context → String → List String → Call
  mkdir_temp : Call
  remove_all : String → Call
  set_env : String → String → Call
  unset_env : String → Call
  write_file : String → String → Call
  counter_inc : Vector → List String → Call
  observe : Vector → List String → Duration → Call
  gauge_set : Vector → List String → ℕ → Call
  gauge_reset : Vector → Call
  setup : SetupCall → Call

abbrev pub Trace : Type 0
Trace = List Call

-- What answers the calls of the start-up
pub record Host : Type 0 where
  -- `os.Getenv`, which is empty where the variable is not set
  pub variable : Trace → String → String
  pub user_home : String
  -- `filepath.Join`
  pub join_path : List String → String
  pub file_at : Trace → String → Result String
  -- whether `GetConfigOrDie` finds a configuration, and does not end the process
  pub has_config : Trace → Bool
  -- the error of a call that returns nothing else
  pub setup_error : Trace → SetupCall → Option Error
  -- the standard output of a command
  pub exec_output : Trace → Context → String → List String → String
  -- `strings.TrimSpace`
  pub trim_space : String → String
  -- `LessThan` of two texts as versions, which `GreaterThanEqual` negates; none where `semver` does
  -- not parse one of them
  pub less_than : String → String → Option Bool
  -- `infoutil.ServerSemVer`: the version that it has parsed, by its text
  pub server_version : Trace → Result String
  -- `LessThan` of a version that is parsed already, and of the text of a version that the program names
  pub version_less : String → String → Bool
  -- `defaults.DefaultAddress` of containerd
  pub default_address : String

pub record Env : Type 0 where
  pub host : Host
  pub clock : Trace → Time
  pub pod_at : Trace → ObjectKey → Result PodObject
  pub pods_with : Trace → List (String × String) → String → Result (List PodObject)
  pub snapshot_pod_at : Trace → ObjectKey → Result SnapshotPod
  pub snapshot_pods_in : Trace → Option String → Result (List SnapshotPod)
  pub snapshot_pod_updated : Trace → SnapshotPod → Result SnapshotPod
  pub snapshot_pod_status_updated : Trace → SnapshotPod → Result SnapshotPod
  pub task_at : Trace → ObjectKey → Result SnapshotPodTask
  pub tasks_with : Trace → List (String × String) → Result (List SnapshotPodTask)
  pub task_created : Trace → SnapshotPodTask → Result SnapshotPodTask
  pub task_status_updated : Trace → SnapshotPodTask → Result SnapshotPodTask
  pub secret_at : Trace → ObjectKey → Result Secret
  pub uuid : Trace → String
  pub exec_error : Trace → Context → String → List String → Option Error
  pub temp_dir : Trace → Result String
  pub write_error : Trace → String → String → Option Error
  -- `json.Unmarshal` of a pod
  pub decode_pod : String → Result PodObject
  -- `sort.Slice` of the snapshots, the largest `TriggerRound` first
  pub sort_by_round : List SnapshotRunningStatus → List SnapshotRunningStatus
  -- the order in which a `range` goes through the keys of a map
  pub key_order : Trace → List String → List String
  -- `docker.ParseReference`, with its "//" in front
  pub parse_reference : String → Result Reference
  -- `reference.WithTag`, and the text of what it returns
  pub with_tag : Reference → String → Result String
  -- `time.ParseDuration`
  pub parse_duration : String → Result Duration
  -- `types.Zstd` of nerdctl
  pub zstd : String
  -- `metav1.NewControllerRef`: the owner, and the group, version and kind
  pub new_controller_ref : ObjectMeta → String → String → String → OwnerReference

-- How a Go function ends
pub data Exit (A : Type 0) : Type 0 where
  returns : A → Exit A
  panics : Exit A

abbrev pub M : Type 0 → Type 0
M A = Trace → Exit A × Trace

module _ {A : Type 0} where
  unfoldable pub pure : A → M A
  pure a tr = (returns a, tr)

  unfoldable pub panic : M A
  panic tr = (panics, tr)

  -- a call, and what the environment answers
  unfoldable pub ask : Call → (Trace → A) → M A
  ask c answer tr = (returns (answer tr), c ∷ tr)

-- a call whose answer is not looked at
unfoldable pub tell : Call → M (Unit {0})
tell c tr = (returns tt, c ∷ tr)

-- the order of a `range` over a map
unfoldable pub range_keys : Env → List String → M (List String)
range_keys env keys tr = (returns (env.key_order tr keys), tr)

module _ {A B : Type 0} where
  abbrev pub continue : Exit A → (A → M B) → M B
  continue (returns a) f tr = f a tr
  continue panics f tr = (panics, tr)

  infixl 5 ◌>>=◌ ◌>>◌
  -- opening this opens `pure`, `panic`, `ask` and `tell` too
  unfoldable pub ◌>>=◌ : M A → (A → M B) → M B
  unfolding pure panic ask tell
  ◌>>=◌ m f tr = let (r, tr') = m tr in continue r f tr'

  abbrev pub ◌>>◌ : M A → M B → M B
  m >> k = m >>= λ _. k

  -- `if err != nil { … }`, with the branch for an error first
  abbrev pub handle : Result A → (Error → M B) → (A → M B) → M B
  handle (err e) bad good = bad e
  handle (ok a) bad good = good a

abbrev pub check : {B : Type 0} → Option Error → (Error → M B) → M B → M B
check none bad good = good
check (some e) bad good = bad e
