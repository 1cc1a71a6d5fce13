-- ===== src/Pod/Outcome.antt =====
-- The whole of `Reconcile` for a SnapshotPod: what it calls, and what it writes.
use kube_snapshot.Base.{◌≤◌, refl, Option, none, List, length}
use kube_snapshot.Base.Int.{pos, ◌≤?◌}
use kube_snapshot.Api.{SnapshotPod, Condition, Time, done_result}
use kube_snapshot.World.{Env, Error, pure}
use kube_snapshot.World.Logic.{
  Runs, Any, Runs-pure, Runs-if, Runs-bind, Runs-weaken, Runs-map, runs_rules,
}
use kube_snapshot.Metrics.{record_controller_reconcile}
use kube_snapshot.Pod.Target.{get_target_pod, validate}
use kube_snapshot.Pod.Reconcile.{with_conditions, recs, finish, reconcile_snapshot_pod}
use kube_snapshot.Pod.Rounds.{run_recs-Keeps}
use kube_snapshot.Pod.Sound.{Keeps, Allows, HasUuids, Reads-Allows}
use kube_snapshot.Pod.Containers.{get_target_pod-Runs, reconcile_tasks-Settles}
use kube_snapshot.Pod.Follows.{reconcile_tasks_status-Keeps}

module _ (env : Env) (sp₀ : SnapshotPod) where
  Keeps-with_conditions :
      (sp : SnapshotPod) (cs : List Condition) → Keeps sp₀ sp → Keeps sp₀ (with_conditions sp cs)
  Keeps-with_conditions sp cs k = record {
    same_meta = k.same_meta;
    same_spec = k.same_spec;
    few = k.few;
  }

  validate-IsSound :
      (sp : SnapshotPod)
      → Keeps sp₀ sp
      → Runs (Allows sp₀) (λ (x : SnapshotPod × Option Error). Keeps sp₀ x.0) (validate env sp)
  unfolding validate
  validate-IsSound sp k =
      let found : Runs (Allows sp₀) Any (get_target_pod env sp) =
        Runs-map (Reads-Allows _) (get_target_pod-Runs env sp) in
      search (runs_rules, found, k) depth 9

  finish-Runs :
      (sp : SnapshotPod) (start : Time) → Keeps sp₀ sp → Runs (Allows sp₀) Any (finish env sp start)
  unfolding finish record_controller_reconcile
  finish-Runs sp start k = search (runs_rules, k, tt {0}) depth 12

-- From an object with at most twenty snapshots, and where a uuid has eight characters besides its
-- dashes, `Reconcile` returns. It creates only tasks of the object, in its namespace and named
-- after the round; the status that it writes is that of the same object and has at most twenty
-- snapshots; it makes no other write and runs no command.
pub reconcile_snapshot_pod-Runs :
    (env : Env)
    → HasUuids env
    → (sp : SnapshotPod) (start : Time) → length sp.status.snapshots ≤ 20
    → Runs (Allows sp) Any (reconcile_snapshot_pod env sp start)
unfolding reconcile_snapshot_pod
reconcile_snapshot_pod-Runs env uuids sp start few =
    let k : Keeps sp sp = record { same_meta = refl; same_spec = refl; few = few } in
    Runs-if (sp.spec.trigger_round ≤? pos 0) (pure (done_result, none)) _
      (λ _. Runs-pure (done_result, none) tt)
      λ _.
        Runs-bind _ _
          (run_recs-Keeps tt (Keeps sp) (Keeps-with_conditions env sp) env (recs env)
            (
              validate-IsSound env sp,
              (
                λ u l. Runs-weaken (λ x s. s.0) (reconcile_tasks-Settles env uuids sp u l),
                (λ u l. reconcile_tasks_status-Keeps env u l, tt),
              ),
            )
            sp k)
          λ u l. finish-Runs env sp u start l
