-- ===== src/Task/Idle.antt =====
-- What `Reconcile` of a task leaves alone.
use kube_snapshot.Base.{
  String, ◌≡◌, refl, ◌∙◌, true, false, none, List, [], ◌∷◌, ◌==◌, arith, ◌⊎◌, inl, inr, All, ◌++◌,
  Option-cases,
}
use kube_snapshot.Api.{Time, SnapshotPodTask, Condition, done_result, ObjectKey}
use kube_snapshot.World.{Env, Trace, ok, returns, now, ◌>>=◌, get_task}
use kube_snapshot.Condition.{index_of, ensure_at, ensure_condition}
use kube_snapshot.Condition.Done.{is_done, index_of-get_elem?, index_of-get_elem?-some}
use kube_snapshot.Task.Steps.{
  TaskReconciler, reconcile_accept, reconcile_commit, reconcile_push_image,
}
use kube_snapshot.Task.Loop.{Rec, goes_on, round_at, run_rec, run_recs}
use kube_snapshot.Task.Reconcile.{is_terminal, run_task, reconcile_task, reconcile}
use kube_snapshot.Task.Progress.{done}
use kube_snapshot.Task.Outcome.{fetched}

-- A task of another node, or one that has ended, is read and left alone: where the server has the
-- task, `Reconcile` reads the clock and gets the task, makes no other call and asks for no other
-- run.
pub reconcile_idle :
    (env : Env) (r : TaskReconciler) (key : ObjectKey) (tr : Trace) (t : SnapshotPodTask)
    → env.task_at (now ∷ tr) key ≡ ok t
    → ((t.spec.node_name == r.node_name) ≡ false) ⊎ (is_terminal t.status.phase ≡ true)
    → reconcile env r key tr ≡ (returns (done_result, none), get_task key ∷ now ∷ tr)
unfolding reconcile reconcile_task ◌>>=◌
reconcile_idle env r key tr t got idle = ground arith

absent-is_done :
    (typ : String) (cs : List Condition) → index_of typ cs ≡ none → is_done typ cs ≡ false
unfolding is_done
absent-is_done typ [] e = refl
absent-is_done typ (c ∷ cs) e = ground (arith, absent-is_done typ cs)

module _ (env : Env) where
  -- The round of a step that is done makes no call and leaves the task alone.
  run_rec-done :
      (rec : Rec) (t : SnapshotPodTask) (tr : Trace)
      → done rec.typ t ≡ true
      → run_rec env rec t tr ≡ (returns (goes_on t), tr)
  unfolding run_rec ensure_condition ensure_at round_at ◌>>=◌
  run_rec-done rec t tr d = elim (Option-cases (index_of rec.typ t.status.conditions)) [
    | inl none_there ↦ cc (d, absent-is_done rec.typ t.status.conditions none_there)
    | inr (i, found) ↦
        let (c, there) = index_of-get_elem?-some rec.typ t.status.conditions i found in
        let is_true = (index_of-get_elem? rec.typ t.status.conditions i c found there).1 ∙ d in
        rw (found, there, is_true) refl
  ]

  -- The loop passes over the steps that are done.
  run_recs-done :
      (before rest : List Rec) (t : SnapshotPodTask) (tr : Trace)
      → All (λ rec. done rec.typ t ≡ true) before
      → run_recs env (before ++ rest) t tr ≡ run_recs env rest t tr
  unfolding run_recs ◌>>=◌
  run_recs-done [] rest t tr d = refl
  run_recs-done (rec ∷ before) rest t tr d =
      rw (run_rec-done rec t tr d.0) (run_recs-done before rest t tr d.1)

  -- A task of this node that has not ended, and whose accept and commit are done, is run with the
  -- push alone as its steps.
  pub reconcile_task_resumes :
      (r : TaskReconciler) (t : SnapshotPodTask) (start : Time) (tr : Trace)
      → (t.spec.node_name == r.node_name) ≡ true
      → is_terminal t.status.phase ≡ false
      → done "Accept" t ≡ true
      → done "Commit" t ≡ true
      → reconcile_task env r t start tr
        ≡ run_task env
            (record { typ = "Push"; run = reconcile_push_image env r } ∷ [])
            (fetched t)
            start
            tr
  unfolding reconcile_task run_task ◌>>=◌
  reconcile_task_resumes r t start tr mine live accepted committed =
      rw
        (
          mine,
          live,
          run_recs-done
              (record { typ = "Accept"; run = reconcile_accept }
                ∷ record { typ = "Commit"; run = reconcile_commit env r }
                ∷ [])
              (record { typ = "Push"; run = reconcile_push_image env r } ∷ []) (fetched t) tr
              (accepted, (committed, tt)),
        )
        refl
