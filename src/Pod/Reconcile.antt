-- ===== src/Pod/Reconcile.antt =====
-- internal/controller/snapshotpod_controller.go: `Reconcile` of a SnapshotPod.
use kube_snapshot.Base.{
  ℕ, ◌*◌, String, Bool, true, false, Option, none, some, List, [], ◌∷◌, get_elem?, modify, some_by,
  not, ◌||◌, if◌then◌else◌,
}
use kube_snapshot.Base.Int.{pos, sub_ℕ, ◌≤?◌}
use kube_snapshot.Api.{
  Time, Duration, second, Condition, is_cond_true, cond_true, cond_false, SnapshotPod,
  SnapshotRunningStatus, ObjectKey, ReconcileResult, done_result,
}
use kube_snapshot.World.{
  Error, Env, M, ◌>>=◌, ◌>>◌, pure, panic, ask, handle, check, now, get_snapshot_pod,
  update_snapshot_pod_status,
}
use kube_snapshot.Metrics.{
  result_success, result_error, result_requeue, record_controller_reconcile,
  record_controller_error,
}
use kube_snapshot.Condition.{ensure_condition, cmp_condition_without_time}
use kube_snapshot.Pod.Target.{validate}
use kube_snapshot.Pod.Tasks.{reconcile_tasks}
use kube_snapshot.Pod.Status.{is_ended, reconcile_tasks_status}

-- the entries of `recs`
pub record Rec : Type 0 where
  pub typ : String
  pub run : SnapshotPod → M (SnapshotPod × Option Error)

abbrev pub with_conditions : SnapshotPod → List Condition → SnapshotPod
with_conditions sp cs = record sp { status = record sp.status { conditions = cs } }

abbrev pub modify_condition : ℕ → (Condition → Condition) → SnapshotPod → SnapshotPod
modify_condition i f sp = with_conditions sp (modify i f sp.status.conditions)

-- a snapshot without its end, or a condition that is not true
unfoldable pub is_unfinished : SnapshotPod → Bool
is_unfinished sp =
    some_by (λ (s : SnapshotRunningStatus). not (is_ended s.result)) sp.status.snapshots
    || some_by (λ (c : Condition). not (is_cond_true c.status)) sp.status.conditions

module _ (env : Env) where
  abbrev pub since : Time → M Duration
  since start = do t ← ask now env.clock; pure (sub_ℕ t start)

  -- The time of a condition that changed. The message is left as it was.
  unfoldable pub pass_round : ℕ → Condition → SnapshotPod → M SnapshotPod
  pass_round i old sp =
      let passed = record old { status = cond_true } in
      if cmp_condition_without_time old passed
      then pure (modify_condition i (λ c. passed) sp)
      else do
        t ← ask now env.clock
        pure (modify_condition i (λ c. record passed { last_transition_time = t }) sp)

  unfoldable pub round_at : Rec → ℕ → SnapshotPod → Option Condition → M (SnapshotPod × Bool)
  round_at rec i sp none = panic
  round_at rec i sp (some old) = do
    (sp', failure) ← rec.run sp
    check failure
        (λ e.
          let failed = λ (c : Condition). record c { status = cond_false; message = e.text } in
          pure (modify_condition i failed sp', false))
        do sp'' ← pass_round i old sp'; pure (sp'', true)

  -- a round of the loop, and whether the loop goes on
  unfoldable pub run_rec : Rec → SnapshotPod → M (SnapshotPod × Bool)
  run_rec rec sp = do
    (i, cs) ← ensure_condition env rec.typ sp.status.conditions
    round_at rec i (with_conditions sp cs) (get_elem? cs i)

  unfoldable pub run_recs : List Rec → SnapshotPod → M SnapshotPod
  run_recs [] sp = pure sp
  run_recs (rec ∷ recs) sp = do
    (sp', goes_on) ← run_rec rec sp
    if goes_on then run_recs recs sp' else pure sp'

  abbrev pub recs : List Rec
  recs =
      record { typ = "Accept"; run = validate env }
      ∷ record { typ = "Tasks"; run = reconcile_tasks env }
      ∷ record { typ = "TaskStatus"; run = reconcile_tasks_status env }
      ∷ []

  -- `Reconcile` after its loop
  unfoldable pub finish : SnapshotPod → Time → M (ReconcileResult × Option Error)
  finish sp start = do
    updated ← ask (update_snapshot_pod_status sp) (λ tr. env.snapshot_pod_status_updated tr sp)
    handle updated (λ e. pure (done_result, some e))
        λ stored.
          if is_unfinished stored
          then (do
            took ← since start
            record_controller_reconcile "snapshotpod" result_requeue took
            pure (record { requeue_after = pos (second * 15) }, none))
          else do
            took ← since start
            record_controller_reconcile "snapshotpod" result_success took
            pure (done_result, none)

  -- what `Reconcile` does with the object that it got
  unfoldable pub reconcile_snapshot_pod : SnapshotPod → Time → M (ReconcileResult × Option Error)
  reconcile_snapshot_pod sp start =
      if sp.spec.trigger_round ≤? pos 0
      then pure (done_result, none)
      else do sp' ← run_recs recs sp; finish sp' start

  unfoldable pub reconcile : ObjectKey → M (ReconcileResult × Option Error)
  reconcile key = do
    start ← ask now env.clock
    got ← ask (get_snapshot_pod key) (λ tr. env.snapshot_pod_at tr key)
    handle got
        (λ e. do
          record_controller_error "snapshotpod" "get_instance_error"
          took ← since start
          record_controller_reconcile "snapshotpod" result_error took
          pure (done_result, some e))
        (λ sp. reconcile_snapshot_pod sp start)
