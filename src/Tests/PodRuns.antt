-- ===== src/Tests/PodRuns.antt =====
-- Runs of the reconciler of SnapshotPods.
use mathlib.Core.Bool.{or_comm, or_assoc}
use kube_snapshot.Base.{
  ap, sym, ◌∙◌, ◌||◌, ◌==◌, contains_text, none, Option, Pairwise, true, ◌≡◌, refl, ◌↔◌, [], ◌∷◌,
  filter_by, arith, replace_all, split, String, List,
}
use kube_snapshot.Api.{done_result, SnapshotPod, SnapshotPodTask, phase_completed, created}
use kube_snapshot.Base.Int.{pos}
use kube_snapshot.World.{Error, Env, ok, returns, Reference}
use kube_snapshot.World.Logic.{Runs, Any}
use kube_snapshot.Pod.Target.{is_running, get_target_pod}
use kube_snapshot.Pod.Tasks.{snapshot_containers, reconcile_tasks}
use kube_snapshot.Pod.Status.{task_named, copy_tasks}
use kube_snapshot.Pod.Reconcile.{finish, reconcile_snapshot_pod}
use kube_snapshot.Pod.Requeue.{IsFinished, finish_done}
use kube_snapshot.Pod.Choice.{target_only_running}
use kube_snapshot.Pod.Sound.{HasUuids, Keeps, Allows, Reads}
use kube_snapshot.Pod.Containers.{Settles, reconcile_tasks-Settles}
use kube_snapshot.World.State.{Holds}
use kube_snapshot.Pod.Backed.{KeepsCreated, Leaves}
use kube_snapshot.Pod.Created.{reconcile_tasks_backed}
use kube_snapshot.Pod.Listed.{Free, EndsWith, snapshot_containers-EndsWith}
use kube_snapshot.Pod.Follows.{Follows, copy_tasks-Follows}
use kube_snapshot.Pod.Outcome.{reconcile_snapshot_pod-Runs}
use kube_snapshot.Pod.Tags.{ClockOrUuid}
use kube_snapshot.Pod.Image.{render_new_image_name}
use kube_snapshot.Pod.Format.{ListsKeys, Piece, literal, key, last_repository, tag}
use kube_snapshot.Pod.Rendered.{Tagged, render_new_image_name-filled}
use kube_snapshot.Tests.Sample.{env, pod, task, snapshot, snapshot_pod}

-- the server lists the one pod
abbrev pod_env : Env
pod_env = record env { pods_with = λ tr selector ns. ok (pod ∷ []) }

pod_env-HasUuids : HasUuids pod_env
unfolding replace_all
pod_env-HasUuids = record { at = λ tr. ("01234567", refl) }

snapshot_pod-Keeps : Keeps snapshot_pod snapshot_pod
snapshot_pod-Keeps = record { same_meta = refl; same_spec = refl; few = omega arith }

reconcile_tasks-Settles_example :
    Runs
      (Allows snapshot_pod)
      (Settles pod_env snapshot_pod snapshot_pod)
      (reconcile_tasks pod_env snapshot_pod)
reconcile_tasks-Settles_example =
    reconcile_tasks-Settles pod_env pod_env-HasUuids snapshot_pod snapshot_pod snapshot_pod-Keeps

reconcile_snapshot_pod-Runs_example :
    Runs (Allows snapshot_pod) Any (reconcile_snapshot_pod pod_env snapshot_pod 0)
reconcile_snapshot_pod-Runs_example =
    reconcile_snapshot_pod-Runs pod_env pod_env-HasUuids snapshot_pod 0 snapshot_pod-Keeps.few

-- the task of the snapshot has completed
abbrev completed_task : SnapshotPodTask
completed_task = record task { status = record task.status { phase = phase_completed } }

copy_tasks-Follows_example :
    Runs Reads
      (Pairwise
        (λ s. Follows (task_named s.task_name (completed_task ∷ [])) s)
        (record (snapshot 2) { result = created } ∷ snapshot 1 ∷ []))
      (copy_tasks env
        (completed_task ∷ [])
        (record (snapshot 2) { result = created } ∷ snapshot 1 ∷ []))
copy_tasks-Follows_example =
    copy_tasks-Follows env (completed_task ∷ [])
      (record (snapshot 2) { result = created } ∷ snapshot 1 ∷ [])

target_only_running_example :
    ((get_target_pod pod_env snapshot_pod []).0 ≡ returns (ok pod))
    ↔ (filter_by is_running (pod ∷ []) ≡ pod ∷ [])
target_only_running_example =
    target_only_running pod_env snapshot_pod [] (("app", "nginx") ∷ []) (pod ∷ []) pod refl refl
      refl

snapshot_containers-EndsWith_example :
    Runs Free
      (λ (x : SnapshotPod × Option Error).
        x.1 ≡ none → EndsWith (pos 2) ("web" ∷ []) x.0.status.snapshots)
      (snapshot_containers pod_env snapshot_pod pod ("web" ∷ []))
snapshot_containers-EndsWith_example =
    snapshot_containers-EndsWith pod_env pod_env-HasUuids snapshot_pod pod ("web" ∷ [])
      (omega arith)

finish_done_example :
    ((finish pod_env snapshot_pod 0 []).0 ≡ returns (done_result, none)) ↔ IsFinished snapshot_pod
finish_done_example = finish_done pod_env snapshot_pod snapshot_pod 0 [] refl

pod_env-KeepsCreated : KeepsCreated pod_env
pod_env-KeepsCreated = record {
  at = λ tr t u e.
      let same : t ≡ u = cc e in
      (
        ap (λ (x : SnapshotPodTask). x.meta.name) (sym same),
        ap (λ (x : SnapshotPodTask). x.spec.commit_image) (sym same),
      );
}

reconcile_tasks_backed_example :
    Holds (λ tr. Unit) (reconcile_tasks pod_env snapshot_pod) (Leaves snapshot_pod.status.snapshots)
reconcile_tasks_backed_example =
    reconcile_tasks_backed pod_env pod_env-KeepsCreated pod_env-HasUuids snapshot_pod

abbrev parsed : String → Reference
parsed text = record { domain = "docker.io"; path = text; tag = none; digest_hex = none }

-- the first item is put at the end
abbrev put_last : String → List String → List String
put_last j [] = j ∷ []
put_last j (k ∷ ks) = k ∷ put_last j ks

abbrev rotate : List String → List String
rotate [] = []
rotate (k ∷ ks) = put_last k ks

contains_text-put_last :
    (j : String) (ks : List String) (x : String)
    → contains_text (put_last j ks) x ≡ contains_text (j ∷ ks) x
contains_text-put_last j [] x = refl
contains_text-put_last j (k ∷ ks) x = rw (contains_text-put_last j ks x) (
    sym (or_assoc (k == x) (j == x) (contains_text ks x))
    ∙ ap (λ b. b || contains_text ks x) (or_comm (k == x) (j == x))
    ∙ or_assoc (j == x) (k == x) (contains_text ks x))

-- an environment in which a range takes the first key last
abbrev rotating_env : Env
rotating_env = record pod_env { key_order = λ tr keys. rotate keys }

rotating_env-ListsKeys : ListsKeys rotating_env
rotating_env-ListsKeys = record { visits = λ tr. visits }
  where
    visits : (ks : List String) (x : String) → contains_text (rotate ks) x ≡ contains_text ks x
    visits [] x = refl
    visits (k ∷ ks) x = contains_text-put_last k ks x

rotating_env-HasUuids : HasUuids rotating_env
rotating_env-HasUuids = record { at = λ tr. pod_env-HasUuids.at tr }

-- the format `registry.example.com/{last_repository}:{tag}-saved`
abbrev format : List Piece
format =
    literal "registry.example.com/"
    ∷ key last_repository
    ∷ literal ":"
    ∷ key tag
    ∷ literal "-saved"
    ∷ []

render_new_image_name-filled_example :
    Runs ClockOrUuid
      (λ r.
        (t : String) × (r ≡ rotating_env.with_tag (parsed "registry.example.com/nginx:-saved") t)
        × Tagged rotating_env true "" t)
      (render_new_image_name rotating_env "library/nginx"
        "registry.example.com/{last_repository}:{tag}-saved" true)
unfolding split
render_new_image_name-filled_example =
    render_new_image_name-filled rotating_env rotating_env-HasUuids rotating_env-ListsKeys format
      (refl, (refl, (refl, tt))) true "library/nginx" (parsed "library/nginx")
      (parsed "registry.example.com/nginx:-saved")
      (record { plain_domain = refl; plain_path = refl; plain_tag = refl }) refl refl
