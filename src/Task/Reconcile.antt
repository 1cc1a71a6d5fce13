-- ===== src/Task/Reconcile.antt =====
-- internal/controller/snapshotpodtask_controller.go: `Reconcile` of a task, with the phase that its
-- conditions give, the count of retries and the metrics.
use kube_snapshot.Base.{
  ◌+◌, ◌*◌, String, Bool, true, false, Option, none, some, List, [], ◌∷◌, ◌==◌, ltb, every_by,
  if◌then◌else◌,
}
use kube_snapshot.Base.Int.{ℤ, pos, negsuc, ◌≤?◌, ◌==ℤ◌, inc32}
use kube_snapshot.Api.{
  Time, Duration, is_zero, second, Condition, is_cond_true, SnapshotPodTask, SnapshotPodTaskPhase,
  phase_created, phase_failed, phase_completed, phase_other, ObjectKey, ReconcileResult,
  done_result,
}
use kube_snapshot.World.{
  Error, is_not_found, Env, M, ◌>>=◌, ◌>>◌, pure, ask, check, handle, now, get_task,
}
use kube_snapshot.Metrics.{
  status_success, status_failed, result_success, result_error, result_requeue, record_snapshot_task,
  record_snapshot_task_retry, record_controller_reconcile, record_controller_error,
  record_task_failed,
}
use kube_snapshot.Task.Steps.{TaskReconciler, get_snapshot_name, since}
use kube_snapshot.Task.Loop.{Rec, update_status, run_recs, recs}

abbrev pub effective_max_retries : ℤ → ℤ
effective_max_retries n = if n ==ℤ pos 0 then pos 3 else n

abbrev pub is_terminal : SnapshotPodTaskPhase → Bool
is_terminal phase_completed = true
is_terminal phase_failed = true
is_terminal phase_created = false
is_terminal (phase_other s) = false

-- `time.Second * 30`, or the delay of the task where it is positive
abbrev pub retry_delay : ℤ → Duration
retry_delay (pos n) = if ltb 0 n then pos (second * n) else pos (second * 30)
retry_delay (negsuc n) = pos (second * 30)

-- `if spt.Status.RetryCount < 0 { spt.Status.RetryCount = 0 }`
abbrev pub clamp_retries : ℤ → ℤ
clamp_retries (pos n) = pos n
clamp_retries (negsuc n) = pos 0

module _ (env : Env) where
  -- `lo.SomeBy`: a condition that is not true, and an error of this run or an age of ten minutes
  unfoldable pub some_unfinished : Option Error → List Condition → M Bool
  some_unfinished last_error [] = pure false
  some_unfinished last_error (c ∷ cs) =
      let later = some_unfinished last_error cs in
      if is_cond_true c.status
      then later
      else check last_error (λ e. pure true)
          do
            t ← ask now env.clock
            if ltb (c.last_transition_time + second * 600) t then pure true else later

  -- the second case of the `switch`
  unfoldable pub count_retry : SnapshotPodTask → String → M SnapshotPodTask
  count_retry spt snapshot = do
    t ← ask now env.clock
    let count = inc32 spt.status.retry_count
    let status = record spt.status { retry_count = count; last_retry_time = some t }
    record_snapshot_task_retry spt.meta.namespace snapshot spt.meta.name
    if effective_max_retries spt.spec.max_retries ≤? count
        then (do
          record_task_failed spt.meta.namespace snapshot spt.meta.name
          pure (record spt { status = record status { phase = phase_failed } }))
        else pure (record spt { status = status })

  -- the `switch` that sets the phase from the conditions
  unfoldable pub update_phase : SnapshotPodTask → Option Error → M SnapshotPodTask
  update_phase spt last_error =
      if every_by (λ (c : Condition). is_cond_true c.status) spt.status.conditions
      then pure (record spt { status = record spt.status { phase = phase_completed } })
      else do
        unfinished ← some_unfinished last_error spt.status.conditions
        if unfinished
            then count_retry spt (get_snapshot_name spt)
            else pure (record spt { status = record spt.status { phase = phase_created } })

  -- the metrics of a task that has ended, and of the call; and the result
  unfoldable pub conclude : SnapshotPodTask → String → Time → M (ReconcileResult × Option Error)
  conclude spt snapshot start =
      if is_terminal spt.status.phase
      then (do
        let status : String = elim spt.status.phase [
          | phase_completed ↦ status_success
          | _ ↦ status_failed
        ]
        duration ←
            (if is_zero spt.meta.creation_timestamp
              then pure (pos 0)
              else since env spt.meta.creation_timestamp)
        record_snapshot_task status spt.meta.namespace snapshot duration
        took ← since env start
        record_controller_reconcile "snapshotpodtask" result_success took
        pure (done_result, none))
      else do
        took ← since env start
        record_controller_reconcile "snapshotpodtask" result_requeue took
        pure (record { requeue_after = retry_delay spt.spec.retry_delay_seconds }, none)

  -- `Reconcile` after its loop: the phase, the last update, the metrics
  unfoldable pub finish_task :
      SnapshotPodTask → Option Error → Time → M (ReconcileResult × Option Error)
  finish_task spt last_error start = do
    phased ← update_phase spt last_error
    updated ← update_status env phased
    handle updated (λ x. pure (done_result, some x))
        λ stored. conclude stored (get_snapshot_name spt) start

  -- `Reconcile` behind its guards
  unfoldable pub run_task : List Rec → SnapshotPodTask → Time → M (ReconcileResult × Option Error)
  run_task steps spt start = do
    ran ← run_recs env steps spt
    handle ran (λ x. pure (done_result, some x))
        λ (spt', last_error). finish_task spt' last_error start

  -- what `Reconcile` does with the task that it got
  unfoldable pub reconcile_task :
      TaskReconciler → SnapshotPodTask → Time → M (ReconcileResult × Option Error)
  reconcile_task r spt start =
      if spt.spec.node_name == r.node_name
      then (if is_terminal spt.status.phase
          then pure (done_result, none)
          else (let status = record spt.status {
            retry_count = clamp_retries spt.status.retry_count;
          } in
              run_task (recs env r) (record spt { status = status }) start))
      else pure (done_result, none)

  unfoldable pub reconcile : TaskReconciler → ObjectKey → M (ReconcileResult × Option Error)
  reconcile r key = do
    start ← ask now env.clock
    got ← ask (get_task key) (λ tr. env.task_at tr key)
    handle got
        (λ e. if is_not_found e then pure (done_result, none) else do
          record_controller_error "snapshotpodtask" "get_instance_error"
          took ← since env start
          record_controller_reconcile "snapshotpodtask" result_error took
          pure (done_result, some e))
        (λ spt. reconcile_task r spt start)
