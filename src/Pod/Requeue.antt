-- ===== src/Pod/Requeue.antt =====
-- internal/controller/snapshotpod_controller.go: when `Reconcile` asks for no other call.
use kube_snapshot.Base.{
  ◌≡◌, refl, sym, ◌∙◌, Bool, true, false, none, List, [], ◌∷◌, ◌↔◌, not, arith, All, some_by,
  Bool-cases, inl, inr,
}
use mathlib.Core.Bool.{true≢false}
use kube_snapshot.Api.{
  SnapshotPod, SnapshotRunningStatus, Condition, Time, is_cond_true, done_result,
}
use kube_snapshot.World.{Env, Trace, ok, returns, ◌>>=◌}
use kube_snapshot.Metrics.{record_controller_reconcile}
use kube_snapshot.Pod.Status.{is_ended}
use kube_snapshot.Pod.Reconcile.{is_unfinished, finish}

some_by-not :
    {A : Type 0} (f : A → Bool) (xs : List A)
    → (some_by (λ x. not (f x)) xs ≡ false) ↔ All (λ x. f x ≡ true) xs
some_by-not f [] = (λ h. tt, λ h. refl)
some_by-not f (x ∷ xs) =
    let (to, from) = some_by-not f xs in
    elim (Bool-cases (f x)) [
      | inl holds ↦
          (λ e. (holds, to (ground (arith, holds, e))), λ a. ground (arith, holds, from a.1))
      | inr fails ↦
          (λ e. absurd (ground (arith, fails, e)), λ a. absurd (true≢false (sym a.0 ∙ fails)))
    ]

-- every snapshot has ended, and every condition is true
abbrev pub IsFinished : SnapshotPod → Type 0
IsFinished sp =
    All (λ (s : SnapshotRunningStatus). is_ended s.result ≡ true) sp.status.snapshots
    × All (λ (c : Condition). is_cond_true c.status ≡ true) sp.status.conditions

pub is_unfinished-IsFinished : (sp : SnapshotPod) → (is_unfinished sp ≡ false) ↔ IsFinished sp
unfolding is_unfinished
is_unfinished-IsFinished sp =
    let (ended, unended) =
      some_by-not (λ (s : SnapshotRunningStatus). is_ended s.result) sp.status.snapshots in
    let (passed, unpassed) =
      some_by-not (λ (c : Condition). is_cond_true c.status) sp.status.conditions in
    (
      λ e. (ended (ground (arith, e)), passed (ground (arith, e))),
      λ a. ground (arith, unended a.0, unpassed a.1),
    )

-- Where the server takes the status, `Reconcile` ends its work on the object without asking for
-- another call exactly where each snapshot of the stored object has ended and each condition is true.
pub finish_done :
    (env : Env) (sp stored : SnapshotPod) (start : Time) (tr : Trace)
    → env.snapshot_pod_status_updated tr sp ≡ ok stored
    → ((finish env sp start tr).0 ≡ returns (done_result, none)) ↔ IsFinished stored
unfolding finish record_controller_reconcile ◌>>=◌
finish_done env sp stored start tr taken =
    let (to, from) = is_unfinished-IsFinished stored in
    elim (Bool-cases (is_unfinished stored)) [
      | inl pending ↦ (
        λ e. absurd (ground (arith, taken, pending, e)),
        λ a. absurd (true≢false (sym pending ∙ from a)),
      )
      | inr over ↦ (λ e. to over, λ a. ground (arith, taken, over))
    ]
