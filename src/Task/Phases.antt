-- ===== src/Task/Phases.antt =====
-- The phase and the retries that `Reconcile` sets are a step of the machine of a task.
use kube_snapshot.Base.{
  ℕ, suc, ◌<◌, ◌≤◌, String, ◌≡◌, refl, sym, ◌∙◌, ap, true, false, none, some, Bool-cases, inl, inr,
}
use mathlib.Core.Path.{subst}
use kube_snapshot.Base.Int.{ℤ, pos, negsuc}
use kube_snapshot.Api.{
  SnapshotPodTask, SnapshotPodTaskPhase, phase_created, phase_failed, phase_completed, phase_other,
}
use kube_snapshot.World.{Env, Error}
use kube_snapshot.World.Logic.{Runs, Any, Runs-pure, Runs-bind, Runs-both, Runs-weaken, runs_rules}
use kube_snapshot.Metrics.{record_snapshot_task_retry, record_task_failed}
use kube_snapshot.Task.Steps.{get_snapshot_name}
use kube_snapshot.Task.Reconcile.{
  effective_max_retries, is_terminal, clamp_retries, count_retry, update_phase,
}
use kube_snapshot.Task.Progress.{Writes}
use kube_snapshot.Task.Outcome.{fetched, some_unfinished-Runs}
use kube_snapshot.Task.Retries.{Retried, count_retry-Retried}
use kube_snapshot.Task.Served.{all_true}
use kube_snapshot.Task.Moves.{unfinished-true, count_retry-conditions}
use kube_snapshot.Task.Machine.{
  running, gave_up, View, complete, retry, give_up, Reach, go, ending_of, retries_of, view,
}
use kube_snapshot.Task.Refines.{Reaches, all_done}

pub live-running : (p : SnapshotPodTaskPhase) → is_terminal p ≡ false → ending_of p ≡ running
live-running phase_created h = refl
live-running phase_completed h = cc
live-running phase_failed h = cc
live-running (phase_other s) h = refl

-- the machine does not see that a negative count starts at 0
pub view-fetched : (t : SnapshotPodTask) → view (fetched t) ≡ view t
view-fetched t = ap (λ n. record (view t) { retries = n }) (retries_of-clamp t.status.retry_count)
  where
    retries_of-clamp : (z : ℤ) → retries_of (clamp_retries z) ≡ retries_of z
    retries_of-clamp (pos n) = refl
    retries_of-clamp (negsuc n) = refl

count_retry-Runs :
    {R : SnapshotPodTask → Type 0} (env : Env) (s : SnapshotPodTask) (snapshot : String)
    → Runs (Writes R) Any (count_retry env s snapshot)
unfolding count_retry record_snapshot_task_retry record_task_failed
count_retry-Runs env s snapshot = search (runs_rules, tt {0}) depth 12

module _ (env : Env) (max c : ℕ) (small : max ≤ 2147483647) (v : View) (s : SnapshotPodTask)
    (reached : Reaches max v s) (live : is_terminal s.status.phase ≡ false)
    (budget : effective_max_retries s.spec.max_retries ≡ pos max)
    (count : s.status.retry_count ≡ pos c) (within : c < max) where
  abbrev runs_on : ending_of s.status.phase ≡ running
  runs_on = live-running s.status.phase live

  retry_step-Reaches :
      (u : SnapshotPodTask)
      → all_done s ≡ false
      → Retried max c u
      → u.status.conditions ≡ s.status.conditions
      → Reaches max v u
  retry_step-Reaches u left r same = elim (Bool-cases (is_terminal u.status.phase)) [
    | inl ended ↦
        let spent = r.ended ended in
        let eq : view u ≡ record (view s) { retries = suc (view s).retries; ending = gave_up } =
          rw (same, spent.failing, r.counted, count) refl in
        let last : suc (view s).retries ≡ max =
          rw count (ap retries_of (sym r.counted ∙ spent.all_counted)) in
        subst (Reach max v) (sym eq) (go reached (give_up (view s) left runs_on last))
    | inr more ↦
        let eq : view u ≡ record (view s) { retries = suc (view s).retries } =
          rw (same, live-running u.status.phase more, runs_on, r.counted, count) refl in
        let before : suc (view s).retries < max = rw count (r.left more) in
        subst (Reach max v) (sym eq) (go reached (retry (view s) left runs_on before))
  ]

  pub update_phase-passed :
      {R : SnapshotPodTask → Type 0}
      → all_true s ≡ true
      → all_done s ≡ true
      → Runs (Writes R) (Reaches max v) (update_phase env s none)
  unfolding update_phase
  update_phase-passed every every_step =
      rw every (Runs-pure _ (go reached (complete (view s) every_step runs_on)))

  pub update_phase-failed :
      {R : SnapshotPodTask → Type 0} (e : Error)
      → all_true s ≡ false
      → all_done s ≡ false
      → Runs (Writes R) (Reaches max v) (update_phase env s (some e))
  unfolding update_phase
  update_phase-failed e every left = rw every (
      Runs-bind _ _
        (Runs-both (some_unfinished-Runs env (some e) s.status.conditions)
          (unfinished-true env e s.status.conditions every))
        λ b (_, is_true). rw is_true (
          Runs-weaken (λ u (_, (r, same)). retry_step-Reaches u left r same)
            (Runs-both (count_retry-Runs env s (get_snapshot_name s)) (
              Runs-both
                (count_retry-Retried env (get_snapshot_name s) max small s c budget count within
                  live)
                (count_retry-conditions env s (get_snapshot_name s))))))
