-- ===== src/Task/Served.antt =====
-- The loop of `Reconcile` against a server that holds the task: it ends, and its conditions say
-- whether a step failed.
use kube_snapshot.Base.{
  String, ◌≡◌, sym, ◌∙◌, ap, Bool, true, false, Option, none, some, inr, every_by, contains_text,
}
use mathlib.Core.Path.{subst}
use kube_snapshot.Api.{Condition, is_cond_true, SnapshotPodTask, ObjectKey}
use kube_snapshot.World.{Env, Error, Result, ok, err, M}
use kube_snapshot.World.Logic.{Runs, Runs-pure, Runs-bind}
use kube_snapshot.Task.Steps.{TaskReconciler}
use kube_snapshot.Task.Loop.{RoundExit, goes_on, breaks, gives_up, proceed, run_recs, recs}
use kube_snapshot.Task.Progress.{Writes, done, Kept, Kept-refl, Kept-trans}
use kube_snapshot.Task.Rounds.{Ends}
use kube_snapshot.Task.Quiet.{HasContainerId, accept-IsQuiet, commit-IsQuiet, push-IsQuiet}
use kube_snapshot.Task.Outcome.{Kept-HasContainerId}
use kube_snapshot.Condition.Types.{types, add_type, contains_text-add_type, every_by-undone}
use kube_snapshot.Task.Types.{
  AllSteps, FromCommit, FromAccept, InSteps, add_type-FromAccept, add_type-FromCommit,
  add_type-AllSteps, every_by-AllSteps,
}
use kube_snapshot.Task.Server.{Server, Anything, RoundTypes, run_rec-both}

abbrev pub all_true : SnapshotPodTask → Bool
all_true t = every_by (λ (c : Condition). is_cond_true c.status) t.status.conditions

-- How the loop ends for the task `t`: the error of a step, or every condition is true
abbrev pub LoopServes : SnapshotPodTask → Result (SnapshotPodTask × Option Error) → Type 0
LoopServes t (ok (u, none)) = Kept t u × InSteps (types u.status.conditions) × (all_true u ≡ true)
LoopServes t (ok (u, some e)) =
    Kept t u × InSteps (types u.status.conditions) × (all_true u ≡ false)
LoopServes t (err x) = ⊥

module _ (typ : String) (t u : SnapshotPodTask) where
  -- a step that is not done at the end of its round
  undone-all_true :
      types u.status.conditions ≡ add_type typ (types t.status.conditions)
      → done typ u ≡ false
      → all_true u ≡ false
  undone-all_true e d =
      every_by-undone typ u.status.conditions
        (ap (λ ts. contains_text ts typ) e ∙ contains_text-add_type typ (types t.status.conditions))
        d

-- the loop after the round of a step
proceed-Serves :
    (typ : String) (t₀ t : SnapshotPodTask)
    (next : SnapshotPodTask → M (Result (SnapshotPodTask × Option Error)))
    → Kept t₀ t
    → InSteps (add_type typ (types t.status.conditions))
    → ((u : SnapshotPodTask)
        → Kept t₀ u
        → Kept t u
        → done typ u ≡ true
        → types u.status.conditions ≡ add_type typ (types t.status.conditions)
        → Runs (Writes Anything) (LoopServes t₀) (next u))
    → (exit : RoundExit) → Ends typ t exit × RoundTypes typ t exit
    → Runs (Writes Anything) (LoopServes t₀) (proceed exit next)
proceed-Serves typ t₀ t next k i runs (goes_on u) ((r, d), e) =
    runs u (Kept-trans k r.kept) r.kept d e
proceed-Serves typ t₀ t next k i runs (breaks u x) ((r, d), e) =
    Runs-pure _ (Kept-trans k r.kept, subst InSteps (sym e) i, undone-all_true typ t u e d)
proceed-Serves typ t₀ t next k i runs (gives_up x) (r, e) = absurd e

module _ {env : Env} {key : ObjectKey} (sv : Server env key) (r : TaskReconciler) where
  -- The loop over the steps of a task, whose conditions are those of the first steps.
  pub run_recs-Serves :
      (t : SnapshotPodTask)
      → HasContainerId t
      → InSteps (types t.status.conditions)
      → Runs (Writes Anything) (LoopServes t) (run_recs env (recs env r) t)
  unfolding run_recs
  run_recs-Serves t h i =
      let fa = add_type-FromAccept _ i in
      Runs-bind _ _ (run_rec-both sv _ accept-IsQuiet t h) (
        proceed-Serves "Accept" t t _ (Kept-refl t) (inr fa) λ u k _ accepted eu.
          let hu = Kept-HasContainerId k h in
          let fc = add_type-FromCommit _ (subst FromAccept (sym eu) fa) in
          Runs-bind _ _ (run_rec-both sv _ (commit-IsQuiet env r) u hu) (
            proceed-Serves "Commit" t u _ k (inr (inr fc)) λ v kv uv committed ev.
              let all = add_type-AllSteps _ (subst FromCommit (sym ev) fc) in
              Runs-bind _ _ (run_rec-both sv _ (push-IsQuiet env r) v (Kept-HasContainerId kv h)) (
                proceed-Serves "Push" t v _ kv (inr (inr (inr all))) λ w kw vw pushed ew.
                  let every = subst AllSteps (sym ew) all in
                  let still = vw.keeps_done "Accept" (uv.keeps_done "Accept" accepted) in
                  Runs-pure _ (
                    kw,
                    inr (inr (inr every)),
                    every_by-AllSteps w.status.conditions every still
                        (vw.keeps_done "Commit" committed) pushed,
                  ))))
