-- ===== src/Task/Loop.antt =====
-- internal/controller/snapshotpodtask_controller.go: the loop of `Reconcile` over the steps, with
-- the condition that records each step and the status update after it.
use kube_snapshot.Base.{
  ℕ, String, Option, none, some, List, [], ◌∷◌, get_elem?, modify, if◌then◌else◌,
}
use kube_snapshot.Api.{
  Time, is_zero, Condition, is_cond_true, cond_true, cond_false, SnapshotPodTask,
}
use kube_snapshot.World.{
  Error, Result, ok, err, Env, M, ◌>>=◌, pure, panic, ask, handle, check, now, update_task_status,
}
use kube_snapshot.Condition.{ensure_condition, cmp_condition_without_time}
use kube_snapshot.Task.Steps.{
  TaskReconciler, reconcile_push_image, reconcile_commit, reconcile_accept,
}

-- the entries of `recs`
pub record Rec : Type 0 where
  pub typ : String
  pub run : SnapshotPodTask → M (Option Error)

-- How a round of the loop over `recs` ends: with the next round, by `break` with the error of the
-- step, or by the `return` of an update that failed.
pub data RoundExit : Type 0 where
  goes_on : SnapshotPodTask → RoundExit
  breaks : SnapshotPodTask → Error → RoundExit
  gives_up : Error → RoundExit

-- what follows a round, with the rounds that are left
abbrev pub proceed :
    RoundExit
    → (SnapshotPodTask → M (Result (SnapshotPodTask × Option Error)))
    → M (Result (SnapshotPodTask × Option Error))
proceed (goes_on stored) rest = rest stored
proceed (breaks stored e) rest = pure (ok (stored, some e))
proceed (gives_up x) rest = pure (err x)

abbrev pub with_conditions : SnapshotPodTask → List Condition → SnapshotPodTask
with_conditions spt cs = record spt { status = record spt.status { conditions = cs } }

abbrev pub modify_condition : ℕ → (Condition → Condition) → SnapshotPodTask → SnapshotPodTask
modify_condition i f spt = with_conditions spt (modify i f spt.status.conditions)

module _ (env : Env) where
  -- `r.Status().Update(ctx, &spt)`, which leaves the server's answer in `spt`
  abbrev pub update_status : SnapshotPodTask → M (Result SnapshotPodTask)
  update_status spt = ask (update_task_status spt) (λ tr. env.task_status_updated tr spt)

  -- the branch of a round for a step that failed
  unfoldable pub fail_round : ℕ → SnapshotPodTask → Error → M RoundExit
  fail_round i spt e = do
    let failed = λ (c : Condition). record c { status = cond_false; message = e.text }
    updated ← update_status (modify_condition i failed spt)
    handle updated (λ x. pure (gives_up x)) (λ stored. pure (breaks stored e))

  -- the new transition time of a condition that changed, or that had none
  unfoldable pub stamp : Condition → Condition → M Time
  stamp old new =
      if cmp_condition_without_time old new
      then (if is_zero old.last_transition_time
          then ask now env.clock
          else pure old.last_transition_time)
      else ask now env.clock

  -- the branch of a round for a step that succeeded
  unfoldable pub pass_round : ℕ → Condition → SnapshotPodTask → M RoundExit
  pass_round i old spt = do
    let passed = record old { status = cond_true; message = "" }
    t ← stamp old passed
    updated ←
        update_status (modify_condition i (λ c. record passed { last_transition_time = t }) spt)
    handle updated (λ x. pure (gives_up x)) (λ stored. pure (goes_on stored))

  -- the round of a step at its condition; an index out of range would panic
  unfoldable pub round_at : Rec → ℕ → SnapshotPodTask → Option Condition → M RoundExit
  round_at rec i spt none = panic
  round_at rec i spt (some old) =
      if is_cond_true old.status
      then pure (goes_on spt)
      else do failure ← rec.run spt; check failure (λ e. fail_round i spt e) (pass_round i old spt)

  unfoldable pub run_rec : Rec → SnapshotPodTask → M RoundExit
  run_rec rec spt = do
    (i, cs) ← ensure_condition env rec.typ spt.status.conditions
    round_at rec i (with_conditions spt cs) (get_elem? cs i)

  -- the loop: the task and `lastError`, or the error of an update
  unfoldable pub run_recs : List Rec → SnapshotPodTask → M (Result (SnapshotPodTask × Option Error))
  run_recs [] spt = pure (ok (spt, none))
  run_recs (rec ∷ recs) spt = do exit ← run_rec rec spt; proceed exit (run_recs recs)

  abbrev pub recs : TaskReconciler → List Rec
  recs r =
      record { typ = "Accept"; run = reconcile_accept }
      ∷ record { typ = "Commit"; run = reconcile_commit env r }
      ∷ record { typ = "Push"; run = reconcile_push_image env r }
      ∷ []
