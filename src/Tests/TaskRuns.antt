-- ===== src/Tests/TaskRuns.antt =====
-- Runs of the reconciler of tasks.
use kube_snapshot.Base.{contains, false, arith, ◌≡◌, refl, ◌↔◌, some, [], ◌∷◌, lookup}
use kube_snapshot.Base.Int.{pos}
use kube_snapshot.Api.{SnapshotPodTask, ObjectKey}
use kube_snapshot.World.{Env, ok, panics}
use kube_snapshot.World.Logic.{Runs, Any}
use kube_snapshot.Runtime.{Runtime}
use kube_snapshot.Condition.Done.{is_done}
use kube_snapshot.Task.Steps.{reconcile_commit, reconcile_push_image, get_runtime_and_container_id}
use kube_snapshot.Task.Reconcile.{run_task, reconcile_task}
use kube_snapshot.Task.Progress.{Writes, Advances}
use kube_snapshot.World.State.{Holds}
use kube_snapshot.Task.Outcome.{fetched}
use kube_snapshot.Task.Settled.{Settles, reconcile_task-Advances}
use kube_snapshot.Task.Order.{InOrder, reconcile_task-InOrder}
use kube_snapshot.Task.Idle.{reconcile_task_resumes}
use kube_snapshot.Task.Deadline.{Within, reconcile_commit-Within}
use kube_snapshot.Task.Retries.{Free, IsSpent, retry, retry-IsSpent}
use kube_snapshot.Task.Panics.{runtime_panics}
use kube_snapshot.Tests.Sample.{
  env, env-Echoes, reconciler, task, task-IsContainerId, committed_task,
}

reconcile_task-Advances_example :
    Runs (Writes (Advances (fetched task))) Any (reconcile_task env reconciler task 0)
    × Holds (λ tr. Unit {0}) (reconcile_task env reconciler task 0) (Settles env (fetched task))
reconcile_task-Advances_example =
    reconcile_task-Advances env-Echoes reconciler task 0 refl refl task-IsContainerId

task-InOrder : InOrder task
unfolding is_done
task-InOrder = record { pushed_committed = λ h. h; committed_accepted = λ h. h }

reconcile_task-InOrder_example : Runs (Writes InOrder) Any (reconcile_task env reconciler task 0)
reconcile_task-InOrder_example =
    reconcile_task-InOrder env-Echoes reconciler task 0 task-IsContainerId task-InOrder

reconcile_task_resumes_example :
    reconcile_task env reconciler committed_task 0 []
    ≡ run_task env
        (record { typ = "Push"; run = reconcile_push_image env reconciler } ∷ [])
        (fetched committed_task)
        0
        []
unfolding is_done
reconcile_task_resumes_example =
    reconcile_task_resumes env reconciler committed_task 0 [] refl refl refl refl

-- the task stands on another node
abbrev far_task : SnapshotPodTask
far_task = record task { spec = record task.spec { node_name = "node-2" } }

abbrev far_env : Env
far_env = record env { task_at = λ tr key. ok far_task }

abbrev far_key : ObjectKey
far_key = record { namespace = "default"; name = "nginx-1-web" }

reconcile_commit-Within_example :
    Runs (Within (pos 300000000000)) Any (reconcile_commit env reconciler task)
reconcile_commit-Within_example =
    reconcile_commit-Within env reconciler task (pos 300000000000) task-IsContainerId refl

-- a container id of a container that was never started by the runtime it names
runtime_panics_example : ((get_runtime_and_container_id reconciler "docker" []).0 ≡ panics) ↔ (
    (contains "docker" "://" ≡ false)
    × ((rt : Runtime) × (lookup "docker" reconciler.runtime_map ≡ some rt)))
runtime_panics_example = runtime_panics reconciler "docker" []

retry-IsSpent_example : Runs Free (IsSpent 3) (retry env "nginx" 3 task)
retry-IsSpent_example =
    retry-IsSpent env "nginx" 3 (omega arith) 3 0 task refl refl (omega arith) (omega arith) refl
