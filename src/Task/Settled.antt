-- ===== src/Task/Settled.antt =====
-- The whole of `Reconcile` for a task: what it submits, and that it asks for another call unless the
-- status that it submitted last has ended.
use kube_snapshot.Base.{
  ℕ, ◌≡◌, refl, true, false, Option, none, some, List, [], ◌∷◌, ◌==◌, String, ◌⊎◌, ◌<◌, All,
}
use mathlib.Core.Path.{subst}
use kube_snapshot.Base.Int.{pos}
use kube_snapshot.Api.{Time, SnapshotPodTask, SnapshotPodTaskPhase, ReconcileResult, done_result}
use kube_snapshot.World.{
  Call, Trace, Env, Error, Result, ok, err, ask, pure, handle, update_task_status,
}
use kube_snapshot.World.Logic.{Runs, Any}
use kube_snapshot.World.State.{Holds, Holds-bind, Holds-Runs, Holds-given, Holds-weaken, Holds-pure}
use kube_snapshot.Task.Steps.{TaskReconciler, get_snapshot_name}
use kube_snapshot.Task.Loop.{Rec, update_status, recs}
use kube_snapshot.Task.Reconcile.{
  is_terminal, retry_delay, conclude, finish_task, run_task, reconcile_task,
}
use kube_snapshot.Task.Progress.{Writes, SameTask, Echoes, Kept, Advances, Advances-SameTask}
use kube_snapshot.World.Ensures.{Holds-Ensures}
use kube_snapshot.Task.Refused.{Refused, Refuses, answer-Refuses, run_recs-Refuses}
use kube_snapshot.Task.Rounds.{IsQuiet}
use kube_snapshot.Task.Quiet.{HasContainerId, accept-IsQuiet, commit-IsQuiet, push-IsQuiet}
use kube_snapshot.Task.Outcome.{
  LoopEnds, LoopEnds-Kept, run_recs-Ends, Concludes, conclude-Concludes, update_phase-Advances,
  run_task-Advances, fetched,
}

-- the status that was submitted last
abbrev pub last_status : Trace → Option SnapshotPodTask
last_status [] = none
last_status (update_task_status u ∷ tr) = some u
last_status (c ∷ tr) = last_status tr

-- An error is the answer to the status that was submitted by the last call; without one, the result is
-- that for the status that was submitted last.
abbrev pub Settles : Env → SnapshotPodTask → ReconcileResult × Option Error → Trace → Type 0
Settles env t (r, some e) tr = Refused env e tr
Settles env t (r, none) tr =
    (u : SnapshotPodTask) × (last_status tr ≡ some u) × Concludes t u (r, none)

abbrev Nothing : SnapshotPodTask → Type 0
Nothing t = ⊥

last_status-keeps :
    (s : SnapshotPodTask) (c : Call) (tr : Trace)
    → Writes Nothing c
    → last_status tr ≡ some s
    → last_status (c ∷ tr) ≡ some s
last_status-keeps s (update_task_status u) tr w e = absurd w
last_status-keeps s c tr w e = e

Concludes-Settles :
    (env : Env) (t : SnapshotPodTask) {s u : SnapshotPodTask} (a : ReconcileResult × Option Error)
    (tr : Trace)
    → SameTask s u
    → Concludes t u a
    → last_status tr ≡ some s
    → Settles env t a tr
Concludes-Settles env t (r, some e) tr k c last = absurd c
Concludes-Settles env t {s} (r, none) tr k c last =
    (s, last, subst (λ (p : SnapshotPodTaskPhase). Phased p) k.same_phase c)
  where
    Phased : SnapshotPodTaskPhase → Type 0
    Phased p =
        ((is_terminal p ≡ true) × (r ≡ done_result))
        ⊎ ((is_terminal p ≡ false)
            × ((d : ℕ) × (r.requeue_after ≡ pos d)
                × (retry_delay t.spec.retry_delay_seconds ≡ pos d)
                × (0 < d)))

module _ {env : Env} (echo : Echoes env) where
  update-Settles :
      (s : SnapshotPodTask)
      → Holds
          (λ tr. Unit {0})
          (update_status env s)
          (λ (r : Result SnapshotPodTask) tr.
            ((u : SnapshotPodTask) → r ≡ ok u → SameTask s u)
            × (Refuses env r tr × (last_status tr ≡ some s)))
  unfolding ask
  update-Settles s = record {
    at = λ tr _. ((λ u e. echo.at tr s u e), (answer-Refuses env s tr _ refl, refl));
  }

  answered-Settles :
      (t s : SnapshotPodTask) (r : Result SnapshotPodTask) (name : String) (start : Time)
      → Advances t s
      → ((u : SnapshotPodTask) → r ≡ ok u → SameTask s u)
      → Holds
          (λ tr. Refuses env r tr × (last_status tr ≡ some s))
          (handle r (λ x. pure (done_result, some x)) λ u. conclude env u name start)
          (Settles env t)
  answered-Settles t s (err x) name start a same_task = Holds-pure _ (λ tr (refused, e). refused)
  answered-Settles t s (ok u) name start a same_task =
      Holds-weaken (λ tr (p, e). e)
        (λ x tr (c, last). Concludes-Settles env t x tr (same_task u refl) c last)
        (Holds-Runs (λ tr. last_status tr ≡ some s) (λ c tr w e. last_status-keeps s c tr w e)
          (conclude-Concludes {R = Nothing} env t u name start
            (Advances-SameTask a (same_task u refl))))

  finish_task-Settles :
      (t s : SnapshotPodTask)
      → is_terminal t.status.phase ≡ false
      → Kept t s
      → (last : Option Error) (start : Time)
      → Holds (λ tr. Unit {0}) (finish_task env s last start) (Settles env t)
  unfolding finish_task
  finish_task-Settles t s live k last start =
      Holds-bind _ _
        (Holds-Runs (λ tr. Unit {0}) (λ c tr _ _. tt)
          (update_phase-Advances {R = λ u. Unit} env live k last))
        λ phased. Holds-given λ a. Holds-bind _ _ (update-Settles phased) λ r.
          Holds-given
            λ same_task. answered-Settles t phased r (get_snapshot_name s) start a same_task

  run_task-Settles :
      (steps : List Rec) (t : SnapshotPodTask) (start : Time)
      → All (IsQuiet HasContainerId) steps
      → is_terminal t.status.phase ≡ false
      → HasContainerId t
      → Holds (λ tr. Unit {0}) (run_task env steps t start) (Settles env t)
  unfolding run_task
  run_task-Settles steps t start quiet live h =
      Holds-bind _ _
        (Holds-Ensures
          (Holds-Runs (λ tr. Unit {0}) (λ c tr _ _. tt)
            (run_recs-Ends echo {R = λ u. Unit} steps t quiet h (λ u k. tt)))
          (run_recs-Refuses env steps t))
        λ r.
          Holds-weaken (λ tr ((ends, p), refuses). (ends, refuses)) (λ a tr q. q)
            (Holds-given λ ends. after_loop r ends)
    where
      after_loop :
          (r : Result (SnapshotPodTask × Option Error))
          → LoopEnds steps t r
          → Holds
              (Refuses env r)
              (handle r (λ x. pure (done_result, some x)) λ (s, last). finish_task env s last start)
              (Settles env t)
      after_loop (err x) ends = Holds-pure _ (λ tr refused. refused)
      after_loop (ok (s, last)) ends =
          Holds-weaken (λ tr p. tt) (λ a tr q. q)
            (finish_task-Settles t s live (LoopEnds-Kept steps last ends) last start)

  -- For a task of this node that has not ended, with a container id of two parts, and a server
  -- that answers a status update with the object that has that status, `Reconcile` returns; each
  -- status that it submits advances the task; where it returns an error, that was the server's answer
  -- to the status that its last call submitted; and where it returns without one, it has submitted a
  -- status, and asks for no other call exactly if the status that it submitted last has ended, and
  -- otherwise for one after the delay of the task, which is positive.
  pub reconcile_task-Advances :
      (r : TaskReconciler) (t : SnapshotPodTask) (start : Time)
      → (t.spec.node_name == r.node_name) ≡ true
      → is_terminal t.status.phase ≡ false
      → HasContainerId t
      → Runs (Writes (Advances (fetched t))) Any (reconcile_task env r t start)
        × Holds (λ tr. Unit {0}) (reconcile_task env r t start) (Settles env (fetched t))
  unfolding reconcile_task
  reconcile_task-Advances r t start mine live h =
      let quiet : All (IsQuiet HasContainerId) (recs env r) =
        (accept-IsQuiet, (commit-IsQuiet env r, (push-IsQuiet env r, tt))) in
      rw (mine, live)
        (
          run_task-Advances echo (recs env r) (fetched t) start quiet live h,
          run_task-Settles (recs env r) (fetched t) start quiet live h,
        )
