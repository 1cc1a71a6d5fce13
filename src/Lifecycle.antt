-- ===== src/Lifecycle.antt =====
-- internal/controller/snapshotpod_controller.go and internal/webhooks/pod.go together: what the
-- tasks decide of the snapshots, and of the images that the webhook puts into pods.
use kube_snapshot.Base.{
  String, ◌≡◌, sym, ◌∙◌, ap, true, Option, none, some, List, inl, inr, All, Pairwise, lookup, ◌==◌,
  arith,
}
use mathlib.Core.Option
use mathlib.Core.Path.{subst}
use mathlib.Core.List.{Memᴰ}
use kube_snapshot.Base.Int.{pos}
use kube_snapshot.Base.AllLaws.{Pairwise-All}
use kube_snapshot.Api.{
  SnapshotPod, SnapshotPodTask, SnapshotRunningStatus, succeed, phase_completed,
}
use kube_snapshot.World.{Env, Trace, returns}
use kube_snapshot.World.Logic.{Returns}
use kube_snapshot.Pod.Tasks.{with_snapshots}
use kube_snapshot.Pod.Status.{task_named, copy_tasks}
use kube_snapshot.Pod.Follows.{Follows, copy_tasks-Follows}
use kube_snapshot.Webhook.Images.{ImageConfig, config_of, choose_images}
use kube_snapshot.Webhook.Recovery.{IsSortOf, Found, restores, recovers_latest, All-Memᴰ}

-- The snapshot names the image of its task, and if it succeeded, its task is there and completed.
pub record IsBacked (ts : List SnapshotPodTask) (s : SnapshotRunningStatus) : Type 0 where
  pub same_image :
      (t : SnapshotPodTask) → task_named s.task_name ts ≡ some t → s.image_ref ≡ t.spec.commit_image
  pub backed :
      s.result ≡ succeed
      → (t : SnapshotPodTask) × (task_named s.task_name ts ≡ some t)
        × (t.status.phase ≡ phase_completed)

Follows-IsBacked :
    {s s' : SnapshotRunningStatus} {ts : List SnapshotPodTask}
    → IsBacked ts s
    → Follows (task_named s.task_name ts) s s'
    → IsBacked ts s'
Follows-IsBacked {s} {s'} {ts} b f = record {
  same_image =
      λ t e. f.same_image ∙ b.same_image t (sym (ap (λ n. task_named n ts) f.same_task) ∙ e);
  backed = λ h.
      let name = ap (λ n. task_named n ts) f.same_task in
      elim (f.succeeds h) [
        | inl before ↦ let (t, e, over) = b.backed before in (t, name ∙ e, over)
        | inr (t, e, over) ↦ (t, name ∙ e, over)
      ];
}

-- The image of the container `k` is the commit image of a completed task, the task of a snapshot of
-- that container.
pub record Restores (ts : List SnapshotPodTask) (ss : List SnapshotRunningStatus) (k : String)
    (ic : ImageConfig) : Type 0 where
  pub from : SnapshotRunningStatus
  pub listed : Memᴰ from ss
  pub of_container : (from.container_name == k) ≡ true
  pub by : SnapshotPodTask
  pub there : task_named from.task_name ts ≡ some by
  pub over : by.status.phase ≡ phase_completed
  pub image_of : ic.image ≡ by.spec.commit_image

restores_lem :
    (k : String) (s : SnapshotRunningStatus)
    → restores k s ≡ true
    → ((s.container_name == k) ≡ true) × (s.result ≡ succeed)
restores_lem k s h = (ground arith, ground arith)

-- a snapshot from which the webhook takes an image
recovered :
    (ts : List SnapshotPodTask) (k : String) (secret : String) (ss : List SnapshotRunningStatus)
    (o : Option SnapshotRunningStatus) (ic : ImageConfig)
    → All (IsBacked ts) ss
    → Found k ss o
    → Option.map (config_of secret) o ≡ some ic
    → Restores ts ss k ic
recovered ts k secret ss none ic all found e = cc e
recovered ts k secret ss (some s) ic all found e =
    let b = All-Memᴰ (IsBacked ts) s ss all found.listed in
    let (t, there, over) = b.backed (restores_lem k s found.restoring).1 in
    record {
      from = s;
      listed = found.listed;
      of_container = (restores_lem k s found.restoring).0;
      by = t;
      there = there;
      over = over;
      image_of =
          ap (λ (o : Option ImageConfig). elim o as (λ o. String) [ some x ↦ x.image | none ↦ "" ])
            (sym e)
          ∙ b.same_image t there;
    }

-- One pass of the SnapshotPod reconciler over the snapshots, and then the webhook at the recovery
-- round 0 with a sort that sorts: where each snapshot names the image of its task in the list, and
-- those that have succeeded before have a completed task there, an image that the webhook chooses
-- for a container is the one that a completed task of the list was to commit, the task of a
-- snapshot of that container.
pub recovers_completed :
    (env : Env) (sort : List SnapshotRunningStatus → List SnapshotRunningStatus) (sp : SnapshotPod)
    (ts : List SnapshotPodTask) (ss : List SnapshotRunningStatus) (tr : Trace) (k : String)
    (ic : ImageConfig)
    → All (IsBacked ts) sp.status.snapshots
    → (copy_tasks env ts sp.status.snapshots tr).0 ≡ returns ss
    → IsSortOf ss (sort ss)
    → lookup k (choose_images sort (with_snapshots sp ss) (pos 0)) ≡ some ic
    → Restores ts ss k ic
recovers_completed env sort sp ts ss tr k ic backed ran sorted chosen =
    let follows : Pairwise (λ s. Follows (task_named s.task_name ts) s) sp.status.snapshots ss =
      subst (Returns (Pairwise (λ s. Follows (task_named s.task_name ts) s) sp.status.snapshots))
        ran ((copy_tasks-Follows env ts sp.status.snapshots).result tr) in
    let all =
      Pairwise-All (λ s s' b f. Follows-IsBacked b f) sp.status.snapshots ss backed follows in
    let (o, e, found) = recovers_latest sort (with_snapshots sp ss) k sorted in
    recovered ts k _ ss o ic all found (sym e ∙ chosen)
