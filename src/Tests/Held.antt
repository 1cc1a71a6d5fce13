-- ===== src/Tests/Held.antt =====
-- A concrete API server that holds one SnapshotPod.
use kube_snapshot.Base.{String, ◌≡◌, refl, List, [], ◌∷◌, replace_all}
use kube_snapshot.Api.{PodObject, SnapshotPod, SnapshotPodTask, ObjectKey, phase_completed}
use kube_snapshot.World.{Call, Trace, Env, ok, update_snapshot_pod_status}
use kube_snapshot.Pod.Sound.{HasUuids}
use kube_snapshot.Pod.Server.{Writes, Nothing, Server}
use kube_snapshot.Tests.Sample.{env, pod, task}

-- the object with the last status that was submitted
abbrev pub stored_pod : SnapshotPod → Trace → SnapshotPod
stored_pod sp [] = sp
stored_pod sp (update_snapshot_pod_status u ∷ tr) = u
stored_pod sp (c ∷ tr) = stored_pod sp tr

-- the tasks of the first two rounds, which have completed
abbrev pub ended_task : String → SnapshotPodTask
ended_task name = record task {
  meta = record task.meta { name = name };
  status = record task.status { phase = phase_completed };
}

abbrev pub ended_tasks : List SnapshotPodTask
ended_tasks = ended_task "nginx-1-web" ∷ ended_task "nginx-2-web" ∷ []

-- a server that holds the object, with the pods and with tasks that have completed
abbrev pub serving : List PodObject → SnapshotPod → Env
serving pods sp = record env {
  pods_with = λ tr selector ns. ok pods;
  tasks_with = λ tr selector. ok ended_tasks;
  snapshot_pod_at = λ tr key. ok (stored_pod sp tr);
}

-- with its pod
abbrev pub held : SnapshotPod → Env
held sp = serving (pod ∷ []) sp

abbrev pub key : ObjectKey
key = record { namespace = "default"; name = "nginx" }

pub stored_pod-keeps :
    (sp : SnapshotPod) (c : Call) (tr : Trace)
    → Writes Nothing c
    → stored_pod sp (c ∷ tr) ≡ stored_pod sp tr
stored_pod-keeps sp (update_snapshot_pod_status u) tr w = absurd w
stored_pod-keeps sp c tr w = refl

abbrev pub serving-Server :
    (pods : List PodObject) (sp : SnapshotPod) → Server (serving pods sp) key
serving-Server pods sp = record {
  stored = stored_pod sp;
  gives = λ tr. refl;
  accepts = λ tr u. (
    u,
    refl,
    record {
      same_meta = refl;
      same_spec = refl;
      same_view = refl;
      same_snapshots = refl;
      same_conditions = refl;
    },
    refl,
  );
  keeps = stored_pod-keeps sp;
}

abbrev pub held-Server : (sp : SnapshotPod) → Server (held sp) key
held-Server sp = serving-Server (pod ∷ []) sp

pub held-HasUuids : (sp : SnapshotPod) → HasUuids (held sp)
unfolding replace_all
held-HasUuids sp = record { at = λ tr. ("01234567", refl) }
