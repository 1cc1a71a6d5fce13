-- ===== src/Task/Completes.antt =====
-- `Reconcile` against a server that holds the task, where nothing fails.
use kube_snapshot.Base.{
  ℕ, String, ◌≡◌, refl, sym, ◌∙◌, ap, true, false, Option, none, some, List, [], ◌∷◌, ◌==◌, All,
}
use mathlib.Core.Path.{subst}
use kube_snapshot.Api.{
  Time, Condition, is_cond_true, SnapshotPodTask, SnapshotPodTaskSpec, ObjectKey, done_result,
  phase_completed,
}
use kube_snapshot.World.{
  Call, Trace, Env, Error, Result, ok, err, Exit, returns, panics, now, get_task,
  update_task_status, pure, handle, ◌>>=◌,
}
use kube_snapshot.World.Logic.{
  Runs, Runs-pure, Runs-bind, Runs-bind_free, Runs-if, Runs-both, Runs-map, runs_rules,
}
use kube_snapshot.World.State.{Holds, Holds-bind, Holds-Runs, Holds-given, After}
use kube_snapshot.Metrics.{record_snapshot_task, record_controller_reconcile}
use kube_snapshot.Runtime.Success.{IsNone}
use kube_snapshot.Condition.Done.{index_of-get_elem?-some, ensure_condition-Located}
use kube_snapshot.Task.Steps.{TaskReconciler, reconcile_accept}
use kube_snapshot.Task.Loop.{
  Rec, RoundExit, goes_on, with_conditions, pass_round, round_at, run_rec, run_recs, recs,
}
use kube_snapshot.Task.Reconcile.{
  is_terminal, update_phase, conclude, finish_task, run_task, reconcile_task, reconcile,
}
use kube_snapshot.Task.Progress.{Writes}
use kube_snapshot.Task.Rounds.{stamp-Runs}
use kube_snapshot.Task.Quiet.{IsContainerId}
use kube_snapshot.Task.Outcome.{fetched}
use kube_snapshot.Task.Retries.{Free}
use kube_snapshot.Condition.Types.{types}
use kube_snapshot.Task.Types.{InSteps}
use kube_snapshot.Task.Server.{Server, Anything, update_Stores}
use kube_snapshot.Task.Served.{LoopServes, run_recs-Serves, all_true}
use kube_snapshot.Task.Moves.{finish_task-Holds}
use kube_snapshot.Task.Success.{Succeeds, commit_step-IsNone, push_step-IsNone}

anything : (c : Call) → Writes Anything c
anything (update_task_status u) = tt
anything c = tt

-- the round of a step goes on with the same spec
abbrev GoesOn : SnapshotPodTaskSpec → RoundExit → Type 0
GoesOn s exit = (u : SnapshotPodTask) × (exit ≡ goes_on u) × (u.spec ≡ s)

-- a step that succeeds for every task with the spec
abbrev Works : SnapshotPodTaskSpec → Rec → Type 0
Works s rec = (u : SnapshotPodTask) → u.spec ≡ s → Runs (Writes Anything) IsNone (rec.run u)

conclude-completed :
    (env : Env) (u : SnapshotPodTask) (snapshot : String) (start : Time)
    → u.status.phase ≡ phase_completed
    → Runs Free (λ a. a ≡ (done_result, none)) (conclude env u snapshot start)
unfolding conclude record_snapshot_task record_controller_reconcile
conclude-completed env u snapshot start e = rw e (search (runs_rules, tt {0}) depth 12)

After-known :
    {A : Type 0} (I : Trace → Type 0) (x : A) (e : Exit A) (tr : Trace)
    → After (λ a tr. (a ≡ x) × I tr) e tr
    → (e ≡ returns x) × I tr
After-known I x (returns a) tr (e, i) = (ap returns e, i)
After-known I x panics tr i = absurd i

module _ {env : Env} {key : ObjectKey} (sv : Server env key) where
  pass_round-GoesOn :
      (i : ℕ) (old : Condition) (t : SnapshotPodTask)
      → Runs (Writes Anything) (GoesOn t.spec) (pass_round env i old t)
  unfolding pass_round
  pass_round-GoesOn i old t = Runs-bind_free _ _ (stamp-Runs env old _) λ time.
      Runs-bind _ _ (update_Stores sv _)
        λ r (u, f, same). rw f (Runs-pure (goes_on u) (u, refl, same.same_spec))

  round_at-GoesOn :
      (rec : Rec) (t : SnapshotPodTask) (i : ℕ) (old : Condition)
      → Works t.spec rec
      → Runs (Writes Anything) (GoesOn t.spec) (round_at env rec i t (some old))
  unfolding round_at
  round_at-GoesOn rec t i old works =
      Runs-if (is_cond_true old.status) _ _ (λ _. Runs-pure (goes_on t) (t, refl, refl))
        λ _. Runs-bind _ _ (works t refl) λ failure e. rw e (pass_round-GoesOn i old t)

  run_rec-GoesOn :
      (rec : Rec) (t : SnapshotPodTask)
      → Works t.spec rec
      → Runs (Writes Anything) (GoesOn t.spec) (run_rec env rec t)
  unfolding run_rec
  run_rec-GoesOn rec t works =
      Runs-bind _ _ (ensure_condition-Located env rec.typ t.status.conditions tt) λ (i, cs) located.
        let (old, there) = index_of-get_elem?-some rec.typ cs i located.0 in
        rw there (round_at-GoesOn rec (with_conditions t cs) i old works)

  run_recs-GoesOn :
      (steps : List Rec) (t : SnapshotPodTask)
      → All (Works t.spec) steps
      → Runs
          (Writes Anything)
          (λ ran. (s : SnapshotPodTask) × (ran ≡ ok (s, none)))
          (run_recs env steps t)
  unfolding run_recs
  run_recs-GoesOn [] t works = Runs-pure _ (t, refl)
  run_recs-GoesOn (rec ∷ rest) t works =
      Runs-bind _ _ (run_rec-GoesOn rec t works.0) λ exit (u, e, same).
        rw e (run_recs-GoesOn rest u (subst (λ s. All (Works s) rest) (sym same) works.1))

  completed-Holds :
      (s : SnapshotPodTask) (start : Time)
      → all_true s ≡ true
      → Holds
          (λ tr. Unit)
          (finish_task env s none start)
          (λ a tr. (a ≡ (done_result, none)) × ((sv.stored tr).status.phase ≡ phase_completed))
  unfolding update_phase
  completed-Holds s start every =
      finish_task-Holds sv (λ u. u.status.phase ≡ phase_completed)
        (λ u v e same. same.same_phase ∙ e) s none start
        (λ u snapshot e. conclude-completed env u snapshot start e) (rw every (Runs-pure _ refl))

  after_loop-completes :
      (t : SnapshotPodTask) (start : Time) (ran : Result (SnapshotPodTask × Option Error))
      → LoopServes t ran × ((s : SnapshotPodTask) × (ran ≡ ok (s, none)))
      → Holds
          (λ tr. Unit)
          (handle ran (λ x. pure (done_result, some x)) (λ (s, last). finish_task env s last start))
          (λ a tr. (a ≡ (done_result, none)) × ((sv.stored tr).status.phase ≡ phase_completed))
  after_loop-completes t start (ok (s, none)) ((k, _, every), _) = completed-Holds s start every
  after_loop-completes t start (ok (s, some x)) (_, (u, e)) = cc e
  after_loop-completes t start (err x) (ends, _) = absurd ends

  module _ (r : TaskReconciler) (t : SnapshotPodTask) (h : Succeeds env r t.spec) where
    steps-Works : All (Works t.spec) (recs env r)
    unfolding reconcile_accept
    steps-Works = (
      λ u e. Runs-pure none refl,
      (
        λ u e.
            Runs-map (λ c _. anything c) (commit_step-IsNone u (subst (Succeeds env r) (sym e) h)),
        (
          λ u e.
              Runs-map (λ c _. anything c) (push_step-IsNone u (subst (Succeeds env r) (sym e) h)),
          tt,
        ),
      ),
    )

    run_task-completes :
        (start : Time)
        → InSteps (types t.status.conditions)
        → Holds
            (λ tr. Unit)
            (run_task env (recs env r) (fetched t) start)
            (λ a tr. (a ≡ (done_result, none)) × ((sv.stored tr).status.phase ≡ phase_completed))
    unfolding run_task
    run_task-completes start i =
        let id : IsContainerId t.spec.container_id = record {
          typ = h.typ;
          cid = h.cid;
          others = h.others;
          parts = h.parts;
        } in
        Holds-bind _ _
          (Holds-Runs (λ tr. Unit) (λ c tr _ _. tt)
            (Runs-both (run_recs-Serves sv r (fetched t) id i)
              (run_recs-GoesOn (recs env r) (fetched t) steps-Works)))
          λ ran. Holds-given (after_loop-completes (fetched t) start ran)

  -- Where nothing fails for a task of this node that has not ended, and whose conditions are those
  -- that the loop makes, one call of `Reconcile` completes it: against a server that holds the task,
  -- accepts every update of its status and has no other client, it returns without an error and
  -- asks for no other call, and the task is stored as COMPLETED.
  pub reconcile_completes :
      (r : TaskReconciler) (tr : Trace)
      → ((sv.stored tr).spec.node_name == r.node_name) ≡ true
      → is_terminal (sv.stored tr).status.phase ≡ false
      → InSteps (types (sv.stored tr).status.conditions)
      → Succeeds env r (sv.stored tr).spec
      → ((reconcile env r key tr).0 ≡ returns (done_result, none))
        × ((sv.stored (reconcile env r key tr).1).status.phase ≡ phase_completed)
  unfolding reconcile reconcile_task ◌>>=◌
  reconcile_completes r tr mine live i h =
      let t = sv.stored tr in
      let got = sv.gives (now ∷ tr) ∙ ap ok (sv.keeps now tr tt) in
      rw (got, mine, live)
        (After-known (λ tr. (sv.stored tr).status.phase ≡ phase_completed) (done_result, none) _ _
          ((run_task-completes r t h (env.clock tr) i).at (get_task key ∷ now ∷ tr) tt))
