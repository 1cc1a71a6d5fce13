-- ===== src/Task/Refined.antt =====
-- The whole of `Reconcile` refines the machine of a task, against a server that holds the task.
use kube_snapshot.Base.{
  ℕ, zero, suc, ◌≤◌, ◌≡◌, refl, sym, ◌∙◌, ap, Option, none, some, inl, inr, ◌⊎◌, ◌∷◌,
}
use mathlib.Core.Path.{subst}
use kube_snapshot.Api.{Time, SnapshotPodTask, SnapshotPodTaskSpec, ObjectKey, done_result}
use kube_snapshot.World.{
  Call, Trace, Env, Error, Result, ok, err, returns, handle, pure, now, get_task,
  update_task_status, ◌>>=◌,
}
use kube_snapshot.World.Logic.{Runs, Any, Runs-pure, Runs-bind, Runs-handle, Runs-both}
use kube_snapshot.World.State.{
  Holds, Holds-bind, Holds-Runs, Holds-weaken, Holds-both, After-returns,
}
use kube_snapshot.Task.Steps.{TaskReconciler, get_snapshot_name}
use kube_snapshot.Task.Loop.{recs}
use kube_snapshot.Task.Reconcile.{
  effective_max_retries, is_terminal, update_phase, finish_task, run_task, reconcile_task,
  reconcile,
}
use kube_snapshot.Task.Progress.{Writes}
use kube_snapshot.Task.Rounds.{update_Runs}
use kube_snapshot.Task.Outcome.{fetched}
use kube_snapshot.Task.Order.{conclude-Runs}
use kube_snapshot.Task.Server.{Server, Server-Echoes}
use kube_snapshot.Task.Served.{LoopServes, run_recs-Serves}
use kube_snapshot.Task.Moves.{IsEnded}
use kube_snapshot.Task.Live.{
  Ready, reconciles, reconcile-Ready, reconcile-ended, IsEnded-is_terminal,
}
use kube_snapshot.Task.Machine.{Reach, stay, Reach-trans, View, view, SameTask-view}
use kube_snapshot.Task.Refines.{Reaches, LoopReaches, run_recs-Reaches}
use kube_snapshot.Task.Phases.{update_phase-passed, update_phase-failed, view-fetched, live-running}

module _ {env : Env} {key : ObjectKey} (sv : Server env key) (r : TaskReconciler) (max : ℕ)
    (small : max ≤ 2147483647) where
  finish_task-Reaches :
      (v : View) (s : SnapshotPodTask) (last : Option Error) (start : Time)
      → Runs (Writes (Reaches max v)) (Reaches max v) (update_phase env s last)
      → Runs (Writes (Reaches max v)) Any (finish_task env s last start)
  unfolding finish_task
  finish_task-Reaches v s last start k = Runs-bind _ _ k λ phased reached.
      Runs-bind _ _ (update_Runs (Server-Echoes sv) phased reached) λ u _.
        Runs-handle u _ _ (λ x. Runs-pure _ tt)
          λ stored _. conclude-Runs env stored (get_snapshot_name s) start

  module _ {c : ℕ} {t : SnapshotPodTask} (start : Time) (y : Ready r max c t) where
    ended_loop :
        (s : SnapshotPodTask) (last : Option Error)
        → LoopReaches max (view (fetched t)) (ok (s, last))
        → LoopServes (fetched t) (ok (s, last))
        → Runs
            (Writes (Reaches max (view (fetched t))))
            (Reaches max (view (fetched t)))
            (update_phase env s last)
    ended_loop s none (reached, all) (k, _, every) =
        update_phase-passed env max c small _ s reached (ap is_terminal k.same_phase ∙ y.live)
          (ap (λ (x : SnapshotPodTaskSpec). effective_max_retries x.max_retries) k.same_spec
            ∙ y.budget)
          (k.same_retries ∙ y.counted) y.left every all
    ended_loop s (some e) (reached, left) (k, _, every) =
        update_phase-failed env max c small _ s reached (ap is_terminal k.same_phase ∙ y.live)
          (ap (λ (x : SnapshotPodTaskSpec). effective_max_retries x.max_retries) k.same_spec
            ∙ y.budget)
          (k.same_retries ∙ y.counted) y.left e every left

    after_loop :
        (ran : Result (SnapshotPodTask × Option Error))
        → LoopReaches max (view (fetched t)) ran × LoopServes (fetched t) ran
        → Runs (Writes (Reaches max (view (fetched t)))) Any (
            handle ran
              (λ x. pure (done_result, some x))
              (λ (s, last). finish_task env s last start))
    after_loop (ok (s, last)) (reached, served) =
        finish_task-Reaches _ s last start (ended_loop s last reached served)
    after_loop (err x) (_, served) = absurd served

    run_task-Reaches :
        Runs
          (Writes (Reaches max (view (fetched t))))
          Any
          (run_task env (recs env r) (fetched t) start)
    unfolding run_task
    run_task-Reaches =
        Runs-bind _ _
          (Runs-both
            (run_recs-Reaches (Server-Echoes sv) r max (fetched t) y.has_id
              (live-running t.status.phase y.live))
            (run_recs-Serves sv r (fetched t) y.has_id y.in_steps))
          after_loop

  stored-Reaches :
      (v : View) (c : Call) (tr : Trace)
      → Writes (Reaches max v) c
      → Reaches max v (sv.stored tr)
      → Reaches max v (sv.stored (c ∷ tr))
  stored-Reaches v (update_task_status u) tr w reached =
      let (s, _, same, held) = sv.accepts tr u in
      subst (Reaches max v) (sym held) (subst (Reach max v) (sym (SameTask-view same)) w)
  stored-Reaches v c tr w reached = subst (Reaches max v) (sym (sv.keeps c tr tt)) reached

  reconcile-Reaches :
      (c : ℕ) (t : SnapshotPodTask)
      → Ready r max c t
      → Holds
          (λ tr. sv.stored tr ≡ t)
          (reconcile env r key)
          (λ a tr. Reaches max (view t) (sv.stored tr))
  unfolding reconcile reconcile_task ◌>>=◌
  reconcile-Reaches c t y = record {
    at = λ tr e.
        let held : sv.stored (get_task key ∷ now ∷ tr) ≡ t =
          sv.keeps (get_task key) (now ∷ tr) tt ∙ (sv.keeps now tr tt ∙ e) in
        let got = sv.gives (now ∷ tr) ∙ ap ok (sv.keeps now tr tt ∙ e) in
        rw (got, y.mine, y.live)
          ((Holds-weaken (λ tr x. x)
              (λ a tr (_, m). subst (λ v. Reaches max v (sv.stored tr)) (view-fetched t) m)
              (Holds-Runs (λ tr. Reaches max (view (fetched t)) (sv.stored tr))
                (stored-Reaches (view (fetched t))) (run_task-Reaches (env.clock tr) y))).at
            (get_task key ∷ now ∷ tr)
            (subst (λ v. Reach max v (view (sv.stored (get_task key ∷ now ∷ tr))))
              (sym (view-fetched t)) (subst (λ s. Reach max (view t) (view s)) (sym held) stay)));
  }

  -- whatever the task has become, a task that has ended or one with one more retry
  reconciles-Reaches :
      (n c : ℕ) (t : SnapshotPodTask)
      → IsEnded max t ⊎ Ready r max c t
      → Holds
          (λ tr. sv.stored tr ≡ t)
          (reconciles env r key n)
          (λ a tr. Reaches max (view t) (sv.stored tr))
  unfolding reconciles pure
  reconciles-Reaches zero c t y = record { at = λ tr e. subst (Reaches max (view t)) (sym e) stay }
  reconciles-Reaches (suc n) c t (inl ended) =
      Holds-bind _ _ (reconcile-ended sv r max small t (IsEnded-is_terminal ended))
        λ a. reconciles-Reaches n c t (inl ended)
  reconciles-Reaches (suc n) c t (inr y) =
      Holds-bind _ _ (Holds-both (reconcile-Reaches c t y) (reconcile-Ready sv r max small c t y))
        λ a. record {
          at = λ tr (reached, next).
              (Holds-weaken (λ tr e. e) (λ a tr later. Reach-trans reached later)
                  (reconciles-Reaches n (suc c) (sv.stored tr) next)).at
                tr refl;
        }

  -- Against a server that holds the task, accepts every update of its status and has no other
  -- client, any number of calls of `Reconcile` returns and moves the stored task as the machine of
  -- a task does, whatever the commands, the clock and the secrets answer: for a task of this node
  -- that has not ended, with a container id of two parts, conditions that the loop makes, and `c`
  -- retries counted of a larger budget `max` in int32, the view of the stored task after the calls
  -- is reached by steps of the machine from the view before.
  pub reconciles_refine :
      (n c : ℕ) (tr : Trace)
      → Ready r max c (sv.stored tr)
      → ((reconciles env r key n tr).0 ≡ returns tt)
        × Reach max (view (sv.stored tr)) (view (sv.stored (reconciles env r key n tr).1))
  reconciles_refine n c tr y =
      After-returns (λ tr'. Reach max (view (sv.stored tr)) (view (sv.stored tr'))) _ _
        ((reconciles-Reaches n c (sv.stored tr) (inr y)).at tr refl)
