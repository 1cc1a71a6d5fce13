-- ===== src/Tests/LifecycleRuns.antt =====
-- Runs through several components: tasks that ended, their snapshots, and the pods restored.
use kube_snapshot.Base.{◌≡◌, refl, some, [], ◌∷◌, inr, All, lookup}
use kube_snapshot.Base.Int.{pos}
use kube_snapshot.Api.{
  SnapshotPod, SnapshotPodTask, SnapshotRunningStatus, running, succeed, phase_completed,
}
use kube_snapshot.World.{returns, ◌>>=◌}
use kube_snapshot.Pod.Tasks.{with_snapshots}
use kube_snapshot.Pod.Status.{task_named, copy_phase, copy_task, copy_tasks}
use kube_snapshot.Webhook.Images.{ImageConfig, choose_images, put_firsts, put_first, put}
use kube_snapshot.Webhook.Handle.{patch_ops}
use kube_snapshot.Webhook.Recovery.{IsSortOf}
use kube_snapshot.Webhook.Sound.{Patches, patch_ops-Patches}
use kube_snapshot.Lifecycle.{IsBacked, Restores, recovers_completed}
use kube_snapshot.Pod.Ends.{CanEnd}
use kube_snapshot.Tests.Sample.{env, task, snapshot, snapshot_pod, pod}

-- a snapshot that runs, and its task, which has completed
abbrev running_snapshot : SnapshotRunningStatus
running_snapshot = record (snapshot 1) { result = running }

abbrev completed_task : SnapshotPodTask
completed_task = record task { status = record task.status { phase = phase_completed } }

abbrev running_pod : SnapshotPod
running_pod = record snapshot_pod {
  status = record snapshot_pod.status { snapshots = running_snapshot ∷ [] };
}

-- the snapshot once it has followed its task
abbrev ended_snapshot : SnapshotRunningStatus
ended_snapshot = record running_snapshot { result = succeed; completed_at = some 1000000000 }

running-CanEnd : CanEnd (completed_task ∷ []) running_snapshot
unfolding task_named
running-CanEnd = inr (completed_task, refl, refl)

running-IsBacked : IsBacked (completed_task ∷ []) running_snapshot
unfolding task_named
running-IsBacked = record { same_image = λ t e. cc e; backed = λ h. cc h }

ended-IsSortOf : IsSortOf (ended_snapshot ∷ []) (ended_snapshot ∷ [])
ended-IsSortOf = record { descending = (tt, tt); keeps = λ q m. m; adds_none = λ q m. m }

copied :
    (copy_tasks env (completed_task ∷ []) (running_snapshot ∷ []) []).0
    ≡ returns (ended_snapshot ∷ [])
unfolding copy_tasks copy_task copy_phase task_named ◌>>=◌
copied = refl

abbrev web_config : ImageConfig
web_config = record { image = "registry/nginx:snapped-1"; pull_secret = "" }

chosen :
    lookup "web"
      (choose_images (λ ss. ss) (with_snapshots running_pod (ended_snapshot ∷ [])) (pos 0))
    ≡ some web_config
unfolding choose_images put_firsts put_first put
chosen = refl

recovers_completed_example : Restores (completed_task ∷ []) (ended_snapshot ∷ []) "web" web_config
recovers_completed_example =
    recovers_completed env (λ ss. ss) running_pod (completed_task ∷ []) (ended_snapshot ∷ []) []
      "web" web_config (running-IsBacked, tt) copied ended-IsSortOf chosen

patch_ops-Patches_example :
    All
      (Patches (("web", web_config) ∷ []) pod)
      (patch_ops ("web" ∷ []) (("web", web_config) ∷ []) pod)
patch_ops-Patches_example = patch_ops-Patches ("web" ∷ []) (("web", web_config) ∷ []) pod
