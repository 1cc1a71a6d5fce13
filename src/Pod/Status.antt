-- ===== src/Pod/Status.antt =====
-- internal/controller/snapshotpod_controller.go: `reconcileTasksStatus`, which copies what became
-- of the tasks to the snapshots of the status.
use kube_snapshot.Base.{
  String, Bool, true, false, Option, none, some, List, [], ◌∷◌, map, join, filter_by, not, ◌==◌,
  if◌then◌else◌,
}
use kube_snapshot.Api.{
  Condition, is_cond_true, SnapshotPod, SnapshotPodTask, SnapshotRunningStatus,
  SnapshotRunningResult, created, running, failed, succeed, result_other, phase_created,
  phase_completed, phase_failed, phase_other, SnapshotPodTaskPhase, snapshot_name_label,
}
use kube_snapshot.World.{Error, Env, M, ◌>>=◌, pure, ask, handle, now, list_tasks}
use kube_snapshot.Pod.Tasks.{with_snapshots}

abbrev pub is_ended : SnapshotRunningResult → Bool
is_ended succeed = true
is_ended failed = true
is_ended created = false
is_ended running = false
is_ended (result_other s) = false

-- the map from the tasks' names, in which a later task of the same name replaces an earlier one
unfoldable pub task_named : String → List SnapshotPodTask → Option SnapshotPodTask
task_named name [] = none
task_named name (t ∷ ts) = elim (task_named name ts) [
  | some later ↦ some later
  | none ↦ if t.meta.name == name then some t else none
]

-- the messages of the conditions that are not true
unfoldable pub failure_reason : SnapshotPodTask → String
failure_reason t =
    join
      (map (λ (c : Condition). c.message)
        (filter_by (λ (c : Condition). not (is_cond_true c.status)) t.status.conditions))
      ", "

module _ (env : Env) where
  unfoldable pub copy_phase :
      SnapshotRunningStatus → SnapshotPodTask → SnapshotPodTaskPhase → M SnapshotRunningStatus
  copy_phase s t phase_completed = do
    at ← ask now env.clock
    pure (record s { result = succeed; completed_at = some at })
  copy_phase s t phase_failed =
      pure (record s { result = failed; failed_reason = failure_reason t })
  copy_phase s t phase_created = pure s
  copy_phase s t (phase_other p) = pure s

  unfoldable pub copy_task :
      SnapshotRunningStatus → Option SnapshotPodTask → M SnapshotRunningStatus
  copy_task s none = pure (record s { result = created; failed_reason = "can not fetch task" })
  copy_task s (some t) = copy_phase s t t.status.phase

  -- the loop over the snapshots
  unfoldable pub copy_tasks :
      List SnapshotPodTask → List SnapshotRunningStatus → M (List SnapshotRunningStatus)
  copy_tasks ts [] = pure []
  copy_tasks ts (s ∷ ss) = do
    s' ← (if is_ended s.result then pure s else copy_task s (task_named s.task_name ts))
    ss' ← copy_tasks ts ss
    pure (s' ∷ ss')

  -- The list is over all namespaces.
  unfoldable pub reconcile_tasks_status : SnapshotPod → M (SnapshotPod × Option Error)
  reconcile_tasks_status sp = do
    let selector = (snapshot_name_label, sp.meta.name) ∷ []
    listed ← ask (list_tasks selector) (λ tr. env.tasks_with tr selector)
    handle listed (λ e. pure (sp, some e))
        λ ts. do ss ← copy_tasks ts sp.status.snapshots; pure (with_snapshots sp ss, none)
