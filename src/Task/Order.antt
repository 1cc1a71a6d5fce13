-- ===== src/Task/Order.antt =====
-- The steps of a task are done in their order: no status says that an image was pushed that was
-- not committed, or committed for a task that was not accepted.
use kube_snapshot.Base.{String, ◌≡◌, refl, sym, ◌∙◌, true, Option, ◌==◌}
use mathlib.Core.Path.{subst}
use kube_snapshot.Api.{Time, SnapshotPodTask}
use kube_snapshot.World.{Env, Error, Result, ok, err}
use kube_snapshot.World.Logic.{Runs, Any, Runs-pure, Runs-bind, Runs-if, Runs-handle, runs_rules}
use kube_snapshot.Metrics.{
  record_snapshot_task, record_snapshot_task_retry, record_task_failed, record_controller_reconcile,
}
use kube_snapshot.Task.Steps.{TaskReconciler}
use kube_snapshot.Task.Loop.{run_recs, recs}
use kube_snapshot.Task.Reconcile.{
  is_terminal, count_retry, update_phase, conclude, finish_task, run_task, reconcile_task,
}
use kube_snapshot.Task.Progress.{Writes, Echoes, done, Round}
use kube_snapshot.Task.Rounds.{run_rec-Ends, update_Runs, proceed-Round}
use kube_snapshot.Task.Quiet.{HasContainerId, accept-IsQuiet, commit-IsQuiet, push-IsQuiet}
use kube_snapshot.Task.Outcome.{some_unfinished-Runs, Kept-HasContainerId, fetched}

pub record InOrder (t : SnapshotPodTask) : Type 0 where
  pub pushed_committed : done "Push" t ≡ true → done "Commit" t ≡ true
  pub committed_accepted : done "Commit" t ≡ true → done "Accept" t ≡ true

module _ {t u : SnapshotPodTask} where
  accept-InOrder : InOrder t → Round "Accept" t u → InOrder u
  accept-InOrder o r = record {
    pushed_committed =
        λ h. r.others "Commit" refl ∙ o.pushed_committed (sym (r.others "Push" refl) ∙ h);
    committed_accepted =
        λ h. r.kept.keeps_done "Accept" (o.committed_accepted (sym (r.others "Commit" refl) ∙ h));
  }

  commit-InOrder : InOrder t → done "Accept" t ≡ true → Round "Commit" t u → InOrder u
  commit-InOrder o a r = record {
    pushed_committed =
        λ h. r.kept.keeps_done "Commit" (o.pushed_committed (sym (r.others "Push" refl) ∙ h));
    committed_accepted = λ h. r.kept.keeps_done "Accept" a;
  }

  push-InOrder : done "Accept" t ≡ true → done "Commit" t ≡ true → Round "Push" t u → InOrder u
  push-InOrder a c r = record {
    pushed_committed = λ h. r.kept.keeps_done "Commit" c;
    committed_accepted = λ h. r.kept.keeps_done "Accept" a;
  }

SameConditions-InOrder :
    {t u : SnapshotPodTask} → u.status.conditions ≡ t.status.conditions → InOrder t → InOrder u
SameConditions-InOrder e o = record {
  pushed_committed = rw e o.pushed_committed;
  committed_accepted = rw e o.committed_accepted;
}

abbrev LoopInOrder : Result (SnapshotPodTask × Option Error) → Type 0
LoopInOrder (ok (u, last)) = InOrder u
LoopInOrder (err x) = Unit

-- the phase is set, and the conditions are left alone
conditions-update_phase :
    {R : SnapshotPodTask → Type 0} (env : Env) (s : SnapshotPodTask) (last : Option Error)
    → Runs
        (Writes R)
        (λ (u : SnapshotPodTask). u.status.conditions ≡ s.status.conditions)
        (update_phase env s last)
unfolding update_phase count_retry record_snapshot_task_retry record_task_failed
conditions-update_phase {R} env s last =
    search (runs_rules, some_unfinished-Runs env, tt {0}) depth 12

pub conclude-Runs :
    {R : SnapshotPodTask → Type 0} (env : Env) (u : SnapshotPodTask) (snapshot : String)
    (start : Time)
    → Runs (Writes R) Any (conclude env u snapshot start)
unfolding conclude record_snapshot_task record_controller_reconcile
conclude-Runs env u snapshot start = search (runs_rules, tt {0}) depth 12

module _ {env : Env} (echo : Echoes env) (r : TaskReconciler) where
  run_recs-InOrder :
      (t : SnapshotPodTask)
      → HasContainerId t
      → InOrder t
      → Runs (Writes InOrder) LoopInOrder (run_recs env (recs env r) t)
  unfolding run_recs
  run_recs-InOrder t h o =
      Runs-bind _ _ (run_rec-Ends echo _ accept-IsQuiet t (λ u. accept-InOrder o) (λ cs. h)) (
        proceed-Round _ (λ u e a _. accept-InOrder o a) (λ x. tt)
          λ u a accepted.
            let hu = Kept-HasContainerId a.kept h in
            let ou = accept-InOrder o a in
            Runs-bind _ _
              (run_rec-Ends echo _ (commit-IsQuiet env r) u (λ v. commit-InOrder ou accepted)
                (λ cs. hu))
              (proceed-Round _ (λ v e c _. commit-InOrder ou accepted c) (λ x. tt)
                λ v c committed.
                  let still = c.kept.keeps_done "Accept" accepted in
                  Runs-bind _ _
                    (run_rec-Ends echo _ (push-IsQuiet env r) v (λ w. push-InOrder still committed)
                      (λ cs. Kept-HasContainerId c.kept hu))
                    (proceed-Round _ (λ w e p _. push-InOrder still committed p) (λ x. tt)
                      λ w p pushed. Runs-pure _ (push-InOrder still committed p))))

  finish_task-InOrder :
      (s : SnapshotPodTask) (last : Option Error) (start : Time)
      → InOrder s
      → Runs (Writes InOrder) Any (finish_task env s last start)
  unfolding finish_task
  finish_task-InOrder s last start o =
      Runs-bind _ _ (conditions-update_phase env s last) λ phased e.
        Runs-bind _ _ (update_Runs echo phased (SameConditions-InOrder e o)) λ u _.
          Runs-handle u _ _ (λ x. Runs-pure _ tt) λ stored _. conclude-Runs env stored _ start

  run_task-InOrder :
      (t : SnapshotPodTask) (start : Time)
      → HasContainerId t
      → InOrder t
      → Runs (Writes InOrder) Any (run_task env (recs env r) t start)
  unfolding run_task
  run_task-InOrder t start h o = Runs-bind _ _ (run_recs-InOrder t h o) λ ran ends.
      Runs-handle ran _ _ (λ x. Runs-pure _ tt)
        λ (s, last) e. finish_task-InOrder s last start (subst LoopInOrder e ends)

  -- From a task whose steps were done in their order, with a container id of two parts, and a
  -- server that answers a status update with the object that has that status, `Reconcile`
  -- returns, and every status that it submits has the steps done in their order: push after
  -- commit after accept.
  pub reconcile_task-InOrder :
      (t : SnapshotPodTask) (start : Time)
      → HasContainerId t
      → InOrder t
      → Runs (Writes InOrder) Any (reconcile_task env r t start)
  unfolding reconcile_task
  reconcile_task-InOrder t start h o =
      Runs-if (t.spec.node_name == r.node_name) _ _
        (λ _.
          Runs-if (is_terminal t.status.phase) _ _ (λ _. Runs-pure _ tt)
            (λ _.
              run_task-InOrder (fetched t) start h
                (SameConditions-InOrder {t = t} {u = fetched t} refl o)))
        (λ _. Runs-pure _ tt)
