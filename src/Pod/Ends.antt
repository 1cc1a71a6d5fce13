-- ===== src/Pod/Ends.antt =====
-- internal/controller/snapshotpod_controller.go: the end of the snapshots whose tasks have ended.
use kube_snapshot.Base.{◌≡◌, refl, ◌∙◌, ap, true, false, some, List, ◌⊎◌, inl, inr, All, Bool-cases}
use mathlib.Core.Path.{subst}
use kube_snapshot.Base.AllLaws.{Pairwise-All}
use kube_snapshot.Api.{
  SnapshotPodTask, SnapshotRunningStatus, SnapshotPodTaskPhase, phase_completed, phase_failed,
  phase_created, phase_other,
}
use kube_snapshot.World.{Env}
use kube_snapshot.World.Logic.{Runs, Runs-weaken}
use kube_snapshot.Task.Reconcile.{is_terminal}
use kube_snapshot.Pod.Status.{is_ended, task_named, copy_tasks}
use kube_snapshot.Pod.Sound.{Reads}
use kube_snapshot.Pod.Follows.{Follows, copy_tasks-Follows}

-- the snapshot has ended, or its task is there and has
abbrev pub CanEnd : List SnapshotPodTask → SnapshotRunningStatus → Type 0
CanEnd ts s =
    (is_ended s.result ≡ true)
    ⊎ ((t : SnapshotPodTask) × (task_named s.task_name ts ≡ some t)
        × (is_terminal t.status.phase ≡ true))

module _ {s s' : SnapshotRunningStatus} where
  task_ends :
      (t : SnapshotPodTask)
      → Follows (some t) s s'
      → is_ended s.result ≡ false
      → (p : SnapshotPodTaskPhase) → t.status.phase ≡ p
      → is_terminal p ≡ true
      → is_ended s'.result ≡ true
  task_ends t f live phase_completed e h = ap is_ended (f.completed t live refl e)
  task_ends t f live phase_failed e h = ap is_ended (f.fails t live refl e).0
  task_ends t f live phase_created e h = cc h
  task_ends t f live (phase_other x) e h = cc h

  Follows-ended :
      (ts : List SnapshotPodTask)
      → CanEnd ts s
      → Follows (task_named s.task_name ts) s s'
      → is_ended s'.result ≡ true
  Follows-ended ts can f = elim (Bool-cases (is_ended s.result)) [
    | inl ended ↦ ap (λ (x : SnapshotRunningStatus). is_ended x.result) (f.keeps ended) ∙ ended
    | inr live ↦ elim can [
      | inl ended ↦ cc (ended, live)
      | inr (t, e, over) ↦
          task_ends t (subst (λ o. Follows o s s') e f) live t.status.phase refl over
    ]
  ]

-- Where each snapshot that has not ended has a task in the list, of its name, that has, every
-- snapshot has ended after the loop over them.
pub copy_tasks-ended :
    (env : Env) (ts : List SnapshotPodTask) (ss : List SnapshotRunningStatus)
    → All (CanEnd ts) ss
    → Runs Reads
        (All (λ (s : SnapshotRunningStatus). is_ended s.result ≡ true))
        (copy_tasks env ts ss)
copy_tasks-ended env ts ss can =
    Runs-weaken (λ ss' follows. Pairwise-All (λ s s' c f. Follows-ended ts c f) ss ss' can follows)
      (copy_tasks-Follows env ts ss)
