-- ===== src/Pod/Backed.antt =====
-- internal/controller/snapshotpod_controller.go: snapshots whose tasks were submitted.
use kube_snapshot.Base.{
  ◌-◌, ◌≡◌, refl, Option, List, [], ◌∷◌, ◌++◌, All, ◌⊎◌, inl, inr, Bool-cases, length, ltb,
}
use mathlib.Core.List.{Memᴰ}
use mathlib.Core.List.Memᴰ.{head, tail}
use kube_snapshot.Base.AllLaws.{All-map_each, All-drop, All-append}
use kube_snapshot.Api.{SnapshotPod, SnapshotPodTask, SnapshotRunningStatus}
use kube_snapshot.World.{Call, Trace, Env, Error, ok, create_task}
use kube_snapshot.Pod.Tasks.{append_snapshot}

-- The API server's answer to a create that it accepts has the name and the image of the task.
pub record KeepsCreated (env : Env) : Type 0 where
  pub at :
      (tr : Trace) (t u : SnapshotPodTask)
      → env.task_created tr t ≡ ok u
      → (u.meta.name ≡ t.meta.name) × (u.spec.commit_image ≡ t.spec.commit_image)

-- a task with the name and the image of the snapshot was submitted
pub record WasCreated (tr : Trace) (s : SnapshotRunningStatus) : Type 0 where
  pub task : SnapshotPodTask
  pub called : Memᴰ (create_task task) tr
  pub same_name : s.task_name ≡ task.meta.name
  pub same_image : s.image_ref ≡ task.spec.commit_image

-- a task with the name and the image of `t` was submitted
pub record IsSubmitted (tr : Trace) (t : SnapshotPodTask) : Type 0 where
  pub task : SnapshotPodTask
  pub called : Memᴰ (create_task task) tr
  pub same_name : t.meta.name ≡ task.meta.name
  pub same_image : t.spec.commit_image ≡ task.spec.commit_image

-- each snapshot is one of the first, or its task was submitted
abbrev pub Backed : List SnapshotRunningStatus → List SnapshotRunningStatus → Trace → Type 0
Backed first ss tr = All (λ s. Memᴰ s first ⊎ WasCreated tr s) ss

pub append_snapshot-All :
    (P : SnapshotRunningStatus → Type 0) (ss : List SnapshotRunningStatus)
    (s : SnapshotRunningStatus)
    → All P ss
    → P s
    → All P (append_snapshot ss s)
unfolding append_snapshot
append_snapshot-All P ss s a p =
    let all = All-append P ss (s ∷ []) a (p, tt) in
    elim (Bool-cases (ltb 20 (length (ss ++ s ∷ [])))) [
      | inl over ↦ rw over (All-drop P (length (ss ++ s ∷ []) - 5) (ss ++ s ∷ []) all)
      | inr few ↦ rw few all
    ]

pub All-Memᴰ_self :
    (xs ss : List SnapshotRunningStatus)
    → ((s : SnapshotRunningStatus) → Memᴰ s xs → Memᴰ s ss)
    → All (λ s. Memᴰ s ss) xs
All-Memᴰ_self [] ss f = tt
All-Memᴰ_self (x ∷ xs) ss f = (f x (head refl), All-Memᴰ_self xs ss (λ s m. f s (tail m)))

WasCreated-later :
    (c : Call) (tr : Trace) (s : SnapshotRunningStatus) → WasCreated tr s → WasCreated (c ∷ tr) s
WasCreated-later c tr s w = record {
  task = w.task;
  called = tail w.called;
  same_name = w.same_name;
  same_image = w.same_image;
}

pub Backed-later :
    (first ss : List SnapshotRunningStatus) (c : Call) (tr : Trace)
    → Backed first ss tr
    → Backed first ss (c ∷ tr)
Backed-later first ss c tr =
    All-map_each ss (λ s b. elim b [ inl m ↦ inl m | inr w ↦ inr (WasCreated-later c tr s w) ])

pub Backed-start :
    (first ss : List SnapshotRunningStatus) (tr : Trace)
    → All (λ s. Memᴰ s first) ss
    → Backed first ss tr
Backed-start first ss tr = All-map_each ss (λ s m. inl m)

-- what an action leaves of the snapshots
abbrev pub Leaves : List SnapshotRunningStatus → SnapshotPod × Option Error → Trace → Type 0
Leaves first (u, failure) tr = Backed first u.status.snapshots tr
