-- ===== src/Task/Refines.antt =====
-- `Reconcile` refines the machine of a task: each status that it submits is reached by its steps.
use kube_snapshot.Base.{ℕ, ◌≡◌, refl, ◌∙◌, ap, Bool, true, false, Option, none, some, ◌&&◌, arith}
use kube_snapshot.Api.{SnapshotPodTask}
use kube_snapshot.World.{Env, Error, Result, ok, err}
use kube_snapshot.World.Logic.{Runs, Runs-pure, Runs-bind}
use kube_snapshot.Task.Steps.{TaskReconciler}
use kube_snapshot.Task.Loop.{run_recs, recs}
use kube_snapshot.Task.Progress.{Writes, Echoes, done, Kept}
use kube_snapshot.Task.Rounds.{run_rec-Ends, proceed-Round}
use kube_snapshot.Task.Quiet.{HasContainerId, accept-IsQuiet, commit-IsQuiet, push-IsQuiet}
use kube_snapshot.Task.Outcome.{Kept-HasContainerId}
use kube_snapshot.Task.Machine.{
  running, View, Reach, Reach-trans, ending_of, view, accept-Reach, commit-Reach, push-Reach,
}

abbrev pub Reaches : ℕ → View → SnapshotPodTask → Type 0
Reaches max v u = Reach max v (view u)

abbrev pub all_done : SnapshotPodTask → Bool
all_done u = done "Accept" u && (done "Commit" u && done "Push" u)

-- How the loop ends for the machine
abbrev pub LoopReaches : ℕ → View → Result (SnapshotPodTask × Option Error) → Type 0
LoopReaches max v (ok (u, none)) = Reaches max v u × (all_done u ≡ true)
LoopReaches max v (ok (u, some e)) = Reaches max v u × (all_done u ≡ false)
LoopReaches max v (err x) = Unit

module _ (u : SnapshotPodTask) where
  all_done-true :
      done "Accept" u ≡ true → done "Commit" u ≡ true → done "Push" u ≡ true → all_done u ≡ true
  all_done-true a c p = rw (a, c, p) refl

  all_done-Accept : done "Accept" u ≡ false → all_done u ≡ false
  all_done-Accept h = rw h refl

  all_done-Commit : done "Commit" u ≡ false → all_done u ≡ false
  all_done-Commit h = ground (arith, h)

  all_done-Push : done "Push" u ≡ false → all_done u ≡ false
  all_done-Push h = ground (arith, h)

module _ {env : Env} (echo : Echoes env) (r : TaskReconciler) (max : ℕ) where
  still_running :
      {t u : SnapshotPodTask}
      → Kept t u
      → ending_of t.status.phase ≡ running
      → ending_of u.status.phase ≡ running
  still_running k e = ap ending_of k.same_phase ∙ e

  pub run_recs-Reaches :
      (t : SnapshotPodTask)
      → HasContainerId t
      → ending_of t.status.phase ≡ running
      → Runs
          (Writes (Reaches max (view t)))
          (LoopReaches max (view t))
          (run_recs env (recs env r) t)
  unfolding run_recs
  run_recs-Reaches t h live =
      Runs-bind _ _ (run_rec-Ends echo _ accept-IsQuiet t (λ u a. accept-Reach live a) (λ cs. h)) (
        proceed-Round _ (λ u e a n. (accept-Reach live a, all_done-Accept u n)) (λ x. tt)
          λ u a accepted.
            let hu = Kept-HasContainerId a.kept h in
            let lu = still_running a.kept live in
            let ru = accept-Reach live a in
            Runs-bind _ _
              (run_rec-Ends echo _ (commit-IsQuiet env r) u
                (λ v c. Reach-trans ru (commit-Reach lu accepted c)) (λ cs. hu))
              (proceed-Round _
                (λ v e c n. (Reach-trans ru (commit-Reach lu accepted c), all_done-Commit v n))
                (λ x. tt)
                λ v c committed.
                  let lv = still_running c.kept lu in
                  let rv = Reach-trans ru (commit-Reach lu accepted c) in
                  Runs-bind _ _
                    (run_rec-Ends echo _ (push-IsQuiet env r) v
                      (λ w p. Reach-trans rv (push-Reach lv committed p))
                      (λ cs. Kept-HasContainerId c.kept hu))
                    (proceed-Round _
                      (λ w e p n. (Reach-trans rv (push-Reach lv committed p), all_done-Push w n))
                      (λ x. tt)
                      λ w p pushed. Runs-pure _ (
                        Reach-trans rv (push-Reach lv committed p),
                        all_done-true w
                            (p.kept.keeps_done "Accept" (c.kept.keeps_done "Accept" accepted))
                            (p.kept.keeps_done "Commit" committed) pushed,
                      ))))
