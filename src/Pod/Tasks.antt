-- ===== src/Pod/Tasks.antt =====
-- internal/controller/snapshotpod_controller.go: `reconcileTasks`, which creates the tasks of a
-- round and lists them in the status.
use kube_snapshot.Base.{
  ◌-◌, String, Bool, true, Option, none, some, List, [], ◌∷◌, ◌++◌, sprint, is_empty, length, drop,
  filter_by, some_by, ltb, ◌==◌, if◌then◌else◌,
}
use kube_snapshot.Base.Int.{ℤ, pos, ◌==ℤ◌, show_int}
use kube_snapshot.Api.{
  Time, SnapshotPod, SnapshotPodTask, SnapshotRunningStatus, created, PodObject, ContainerStatus,
  OwnerReference, phase_other, snapshot_name_label,
}
use kube_snapshot.World.{
  Error, errorf, is_already_exists, Env, M, ◌>>=◌, pure, ask, handle, check, now, create_task,
}
use kube_snapshot.Pod.Target.{get_target_pod, container_names}
use kube_snapshot.Pod.Image.{render_new_image_name}

-- `fmt.Sprintf("%s-%d-%s", sp.Name, sp.Spec.TriggerRound, c)`
unfoldable pub task_name : String → ℤ → String → String
task_name name round container = sprint (name ∷ "-" ∷ show_int round ∷ "-" ∷ container ∷ [])

-- the snapshots of the status with one more, of which the last five stay once there are over 20
unfoldable pub append_snapshot :
    List SnapshotRunningStatus → SnapshotRunningStatus → List SnapshotRunningStatus
append_snapshot ss s =
    let all = ss ++ s ∷ [] in if ltb 20 (length all) then drop (length all - 5) all else all

abbrev pub with_snapshots : SnapshotPod → List SnapshotRunningStatus → SnapshotPod
with_snapshots sp ss = record sp { status = record sp.status { snapshots = ss } }

-- a suffix is appended unless the spec says no
abbrev pub append_suffix : Option Bool → Bool
append_suffix none = true
append_suffix (some b) = b

-- the containers of the round: those of the target, or all of the pod
abbrev pub round_containers : SnapshotPod → PodObject → List String
round_containers sp p = elim sp.spec.target.containers [ [] ↦ container_names p | c ∷ cs ↦ c ∷ cs ]

module _ (env : Env) where
  unfoldable pub snapshot_pod_owner : SnapshotPod → OwnerReference
  snapshot_pod_owner sp =
      env.new_controller_ref sp.meta "snapshot-pod.baizeai.io" "v1alpha1" "SnapshotPod"

  unfoldable pub task_for :
      SnapshotPod → PodObject → String → ContainerStatus → String → SnapshotPodTask
  task_for sp p c cs image = record {
    meta = record {
      namespace = sp.meta.namespace;
      name = task_name sp.meta.name sp.spec.trigger_round c;
      uid = "";
      labels = some ((snapshot_name_label, sp.meta.name) ∷ []);
      owner_references = snapshot_pod_owner sp ∷ [];
      creation_timestamp = 0;
      deletion_timestamp = none;
    };
    spec = record {
      node_name = p.node_name;
      pod_name = p.meta.name;
      container_id = cs.container_id;
      commit_options = sp.spec.commit_options;
      origin_image = cs.image;
      origin_registry_secret_ref = "";
      commit_image = image;
      registry_secret_ref = sp.spec.image_save_options.registry_secret_ref;
      max_retries = sp.spec.image_save_options.max_retries;
      retry_delay_seconds = sp.spec.image_save_options.retry_delay_seconds;
    };
    status = record {
      conditions = [];
      phase = phase_other "";
      retry_count = pos 0;
      last_retry_time = none;
    };
  }

  unfoldable pub running_status :
      SnapshotPod → String → SnapshotPodTask → Time → SnapshotRunningStatus
  running_status sp c spt t = record {
    trigger_round = sp.spec.trigger_round;
    trigger_time = t;
    task_name = spt.meta.name;
    image_ref = spt.spec.commit_image;
    container_name = c;
    result = created;
    failed_reason = "";
    completed_at = none;
  }

  -- the end of the body of the loop over the containers: the task stands in the status
  unfoldable pub list_task : SnapshotPod → String → SnapshotPodTask → M (SnapshotPod × Option Error)
  list_task sp c spt = do
    t ← ask now env.clock
    pure (with_snapshots sp (append_snapshot sp.status.snapshots (running_status sp c spt t)), none)

  -- `r.Client.Create`, which leaves the server's answer in `spt`, or `spt` where it exists already
  unfoldable pub create_and_list :
      SnapshotPod → String → SnapshotPodTask → M (SnapshotPod × Option Error)
  create_and_list sp c spt = do
    made ← ask (create_task spt) (λ tr. env.task_created tr spt)
    handle made (λ e. if is_already_exists e then list_task sp c spt else pure (sp, some e))
        (λ stored. list_task sp c stored)

  -- the body of the loop, at the status of the container
  unfoldable pub snapshot_status :
      SnapshotPod → PodObject → String → List ContainerStatus → M (SnapshotPod × Option Error)
  snapshot_status sp p c [] = pure (
    sp,
    some (
        errorf (
          sprint (
            "container status of " ∷ p.meta.namespace ∷ "/" ∷ p.meta.name ∷ "/" ∷ c ∷ " not found"
            ∷ []))),
  )
  snapshot_status sp p c (cs ∷ others) =
      if is_empty cs.container_id
      then pure (sp, some (errorf (sprint ("container " ∷ c ∷ " not started" ∷ []))))
      else do
        rendered ←
            render_new_image_name env cs.image sp.spec.image_save_options.image_ref_format
              (append_suffix sp.spec.image_save_options.append_snapped_suffix)
        handle rendered (λ e. pure (sp, some e))
            λ image. create_and_list sp c (task_for sp p c cs image)

  unfoldable pub snapshot_container :
      SnapshotPod → PodObject → String → M (SnapshotPod × Option Error)
  snapshot_container sp p c =
      snapshot_status sp p c (filter_by (λ (s : ContainerStatus). s.name == c) p.container_statuses)

  -- The loop: an error ends it, and what it listed before stays in the status.
  unfoldable pub snapshot_containers :
      SnapshotPod → PodObject → List String → M (SnapshotPod × Option Error)
  snapshot_containers sp p [] = pure (sp, none)
  snapshot_containers sp p (c ∷ cs) = do
    (sp', failure) ← snapshot_container sp p c
    check failure (λ e. pure (sp', some e)) (snapshot_containers sp' p cs)

  unfoldable pub reconcile_tasks : SnapshotPod → M (SnapshotPod × Option Error)
  reconcile_tasks sp =
      if sp.status.last_trigger_round ==ℤ sp.spec.trigger_round
      then pure (sp, none)
      else if some_by (λ (s : SnapshotRunningStatus). s.trigger_round ==ℤ sp.spec.trigger_round)
          sp.status.snapshots
      then pure (
        record sp { status = record sp.status { last_trigger_round = sp.spec.trigger_round } },
        none,
      )
      else do
        got ← get_target_pod env sp
        handle got (λ e. pure (sp, some e)) λ p. snapshot_containers sp p (round_containers sp p)
