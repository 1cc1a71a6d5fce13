-- ===== src/Task/Live.antt =====
-- Called again and again, `Reconcile` brings a task to its end.
use kube_snapshot.Base.{
  ℕ, zero, suc, ◌+◌, ◌≤◌, ◌<◌, String, ◌≡◌, refl, sym, ◌∙◌, ap, true, false, Option, none, some,
  ◌∷◌, ◌⊎◌, inl, inr, arith, ◌==◌,
}
use mathlib.Core.Path.{subst}
use kube_snapshot.Base.Int.{pos}
use kube_snapshot.Api.{Time, SnapshotPodTask, SnapshotPodTaskSpec, ObjectKey, done_result}
use kube_snapshot.World.{
  Trace, Env, Error, Result, ok, err, returns, M, handle, now, pure, get_task, ◌>>=◌, ◌>>◌,
}
use kube_snapshot.World.Logic.{Runs, Any, Runs-map}
use kube_snapshot.World.State.{
  Holds, Holds-bind, Holds-Runs, Holds-weaken, Holds-given, After-returns,
}
use kube_snapshot.Task.Steps.{TaskReconciler}
use kube_snapshot.Task.Loop.{recs}
use kube_snapshot.Task.Reconcile.{
  effective_max_retries, is_terminal, clamp_retries, update_phase, conclude, finish_task, run_task,
  reconcile_task, reconcile,
}
use kube_snapshot.Task.Progress.{Writes}
use kube_snapshot.Task.Quiet.{HasContainerId, IsContainerId}
use kube_snapshot.Task.Outcome.{fetched}
use kube_snapshot.Task.Order.{conclude-Runs}
use kube_snapshot.Task.Idle.{reconcile_idle}
use kube_snapshot.Task.Retries.{Free}
use kube_snapshot.Condition.Types.{types}
use kube_snapshot.Task.Types.{InSteps}
use kube_snapshot.Task.Server.{Server, Nothing}
use kube_snapshot.Task.Served.{LoopServes, run_recs-Serves}
use kube_snapshot.Task.Moves.{
  IsEnded, Moves, update_phase-passed, update_phase-failed, Moves-SameTask, finish_task-Holds,
}

-- A task of this node that has not ended, after `c` retries of the `max` that it has: its container
-- id has two parts, and its conditions are those that the loop makes.
pub record Ready (r : TaskReconciler) (max c : ℕ) (t : SnapshotPodTask) : Type 0 where
  pub mine : (t.spec.node_name == r.node_name) ≡ true
  pub live : is_terminal t.status.phase ≡ false
  pub has_id : HasContainerId t
  pub in_steps : InSteps (types t.status.conditions)
  pub budget : effective_max_retries t.spec.max_retries ≡ pos max
  pub counted : clamp_retries t.status.retry_count ≡ pos c
  pub left : c < max

-- `n` calls of `Reconcile`, whatever each returns
unfoldable pub reconciles : Env → TaskReconciler → ObjectKey → ℕ → M Unit
reconciles env r key zero = pure tt
reconciles env r key (suc n) = do reconcile env r key; reconciles env r key n

Waits-Ready :
    {r : TaskReconciler} {max c : ℕ} {t u : SnapshotPodTask}
    → Ready r max c t
    → Moves max c t u
    → IsEnded max u ⊎ Ready r max (suc c) u
Waits-Ready {r} y m = elim m.outcome [
  | inl e ↦ inl e
  | inr w ↦ inr (record {
    mine = ap (λ (s : SnapshotPodTaskSpec). s.node_name == r.node_name) m.same_spec ∙ y.mine;
    live = w.live;
    has_id =
        subst (λ (s : SnapshotPodTaskSpec). IsContainerId s.container_id) (sym m.same_spec)
          y.has_id;
    in_steps = m.in_steps;
    budget =
        ap (λ (s : SnapshotPodTaskSpec). effective_max_retries s.max_retries) m.same_spec
        ∙ y.budget;
    counted = ap clamp_retries w.counted;
    left = w.left;
  })
]

pub IsEnded-is_terminal :
    {max : ℕ} {t : SnapshotPodTask} → IsEnded max t → is_terminal t.status.phase ≡ true
IsEnded-is_terminal (inl e) = ap is_terminal e
IsEnded-is_terminal (inr s) = ap is_terminal s.failing

concluded :
    (env : Env) (u : SnapshotPodTask) (snapshot : String) (start : Time)
    → Runs Free Any (conclude env u snapshot start)
concluded env u snapshot start =
    Runs-map {P = Writes Nothing} (λ c _. tt) (conclude-Runs env u snapshot start)

module _ {env : Env} {key : ObjectKey} (sv : Server env key) (r : TaskReconciler) (max : ℕ)
    (small : max ≤ 2147483647) where
  moved :
      {c : ℕ} {t : SnapshotPodTask} (start : Time) (s : SnapshotPodTask) (last : Option Error)
      → Runs Free (Moves max c t) (update_phase env s last)
      → Holds (λ tr. Unit) (finish_task env s last start) (λ a tr. Moves max c t (sv.stored tr))
  moved {c} {t} start s last k =
      Holds-weaken (λ tr x. x) (λ a tr (_, m). m)
        (finish_task-Holds sv (Moves max c t) (λ u v. Moves-SameTask) s last start
          (λ u snapshot _. concluded env u snapshot start) k)

  ran-Holds :
      {c : ℕ} {t : SnapshotPodTask} (start : Time)
      → Ready r max c t
      → (s : SnapshotPodTask) (last : Option Error) → LoopServes (fetched t) (ok (s, last))
      → Holds (λ tr. Unit) (finish_task env s last start) (λ a tr. Moves max c t (sv.stored tr))
  ran-Holds {c} {t} start y s none (k, i, every) =
      moved start s none
        (update_phase-passed env max c small t s k y.budget y.counted y.left y.live i every)
  ran-Holds {c} {t} start y s (some e) (k, i, every) =
      moved start s (some e)
        (update_phase-failed env max c small t s k y.budget y.counted y.left y.live i e every)

  after_loop-Holds :
      {c : ℕ} {t : SnapshotPodTask} (start : Time)
      → Ready r max c t
      → (ran : Result (SnapshotPodTask × Option Error)) → LoopServes (fetched t) ran
      → Holds
          (λ tr. Unit)
          (handle ran (λ x. pure (done_result, some x)) (λ (s, last). finish_task env s last start))
          (λ a tr. Moves max c t (sv.stored tr))
  after_loop-Holds start y (ok (s, last)) ends = ran-Holds start y s last ends
  after_loop-Holds start y (err x) ends = absurd ends

  run_task-Holds :
      {c : ℕ} {t : SnapshotPodTask} (start : Time)
      → Ready r max c t
      → Holds
          (λ tr. Unit)
          (run_task env (recs env r) (fetched t) start)
          (λ a tr. Moves max c t (sv.stored tr))
  unfolding run_task
  run_task-Holds {t} start y =
      Holds-bind _ _
        (Holds-Runs (λ tr. Unit) (λ c tr _ _. tt)
          (run_recs-Serves sv r (fetched t) y.has_id y.in_steps))
        λ ran. Holds-given (after_loop-Holds start y ran)

  -- the call for a task that is ready, from the trace where the server holds it
  pub reconcile-Ready :
      (c : ℕ) (t : SnapshotPodTask)
      → Ready r max c t
      → Holds
          (λ tr. sv.stored tr ≡ t)
          (reconcile env r key)
          (λ a tr. IsEnded max (sv.stored tr) ⊎ Ready r max (suc c) (sv.stored tr))
  unfolding reconcile reconcile_task ◌>>=◌
  reconcile-Ready c t y = record {
    at = λ tr e.
        let got = sv.gives (now ∷ tr) ∙ ap ok (sv.keeps now tr tt ∙ e) in
        rw (got, y.mine, y.live)
          ((Holds-weaken (λ tr x. x) (λ a tr m. Waits-Ready y m)
              (run_task-Holds (env.clock tr) y)).at
            (get_task key ∷ now ∷ tr) tt);
  }

  -- the call for a task that has ended
  pub reconcile-ended :
      (t : SnapshotPodTask)
      → is_terminal t.status.phase ≡ true
      → Holds (λ tr. sv.stored tr ≡ t) (reconcile env r key) (λ a tr. sv.stored tr ≡ t)
  reconcile-ended t ended = record {
    at = λ tr e.
        let held = sv.keeps (get_task key) (now ∷ tr) tt ∙ (sv.keeps now tr tt ∙ e) in
        rw
          (reconcile_idle env r key tr t (sv.gives (now ∷ tr) ∙ ap ok (sv.keeps now tr tt ∙ e))
            (inr ended))
          held;
  }

  reconcile-IsEnded :
      Holds
        (λ tr. IsEnded max (sv.stored tr))
        (reconcile env r key)
        (λ a tr. IsEnded max (sv.stored tr))
  reconcile-IsEnded = record {
    at = λ tr ended.
        (Holds-weaken (λ tr e. e) (λ a tr e. subst (IsEnded max) (sym e) ended)
            (reconcile-ended (sv.stored tr) (IsEnded-is_terminal ended))).at
          tr refl;
  }

  reconciles-IsEnded :
      (n : ℕ)
      → Holds
          (λ tr. IsEnded max (sv.stored tr))
          (reconciles env r key n)
          (λ a tr. IsEnded max (sv.stored tr))
  unfolding reconciles pure
  reconciles-IsEnded zero = record { at = λ tr e. e }
  reconciles-IsEnded (suc n) = Holds-bind _ _ reconcile-IsEnded λ a. reconciles-IsEnded n

  reconciles-Holds :
      (n c : ℕ) (t : SnapshotPodTask)
      → Ready r max c t
      → max ≤ c + n
      → Holds (λ tr. sv.stored tr ≡ t) (reconciles env r key n) (λ a tr. IsEnded max (sv.stored tr))
  unfolding reconciles
  reconciles-Holds zero c t y enough = absurd (let left = y.left in omega arith)
  reconciles-Holds (suc n) c t y enough = Holds-bind _ _ (reconcile-Ready c t y) λ a. record {
    at = λ tr next. elim next [
      | inl ended ↦ (reconciles-IsEnded n).at tr ended
      | inr z ↦ (reconciles-Holds n (suc c) (sv.stored tr) z (omega arith)).at tr refl
    ];
  }

  -- Against a server that holds the task, accepts every update of its status and has no other
  -- client, `Reconcile` called again and again ends the task, whatever the commands, the clock and
  -- the secrets answer: for a task of this node that has not ended, with a container id of two
  -- parts, conditions that the loop makes, and `c` retries counted of a larger budget `max` in
  -- int32, `max - c` calls or more return, and leave it COMPLETED, or FAILED with all its budget
  -- counted.
  pub reconciles_end :
      (n c : ℕ) (tr : Trace)
      → Ready r max c (sv.stored tr)
      → max ≤ c + n
      → ((reconciles env r key n tr).0 ≡ returns tt)
        × IsEnded max (sv.stored (reconciles env r key n tr).1)
  reconciles_end n c tr y enough =
      After-returns (λ tr. IsEnded max (sv.stored tr)) _ _
        ((reconciles-Holds n c (sv.stored tr) y enough).at tr refl)
