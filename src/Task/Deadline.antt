-- ===== src/Task/Deadline.antt =====
-- The commit of a container runs under a deadline.
use kube_snapshot.Base.{String, ◌≡◌, some, is_empty, if◌then◌else◌}
use kube_snapshot.Api.{Duration, SnapshotPodTask}
use kube_snapshot.World.{Call, Env, ok, exec}
use kube_snapshot.World.Logic.{Runs, Any, Runs-pure, Runs-bind_free, Runs-handle, runs_rules}
use kube_snapshot.Runtime.{Runtime, docker_runtime, containerd_runtime, commit, exec_command}
use kube_snapshot.Task.Steps.{TaskReconciler, default_commit_timeout, reconcile_commit}
use kube_snapshot.Task.Quiet.{HasContainerId, runtime-Runs}

-- a command runs under the deadline `d`
abbrev pub Within : Duration → Call → Type 0
Within d (exec ctx command argv) = ctx ≡ some d
Within d _ = Unit

abbrev pub commit_timeout : SnapshotPodTask → String
commit_timeout t =
    if is_empty t.spec.commit_options.timeout
    then default_commit_timeout
    else t.spec.commit_options.timeout

commit-Within :
    (env : Env) (d : Duration) (rt : Runtime) (container image : String) (pause : _)
    (message author : String)
    → Runs (Within d) Any (commit env rt (some d) container image pause message author)
unfolding commit exec_command
commit-Within env d (docker_runtime k) container image pause message author =
    search (runs_rules, tt {0}) depth 7
commit-Within env d (containerd_runtime k) container image pause message author =
    search (runs_rules, tt {0}) depth 7

-- For a container id of two parts, and a timeout that is a duration, `reconcileCommit` returns,
-- and every command that it runs has the task's timeout as its deadline, which is five minutes
-- where the task sets none.
pub reconcile_commit-Within :
    (env : Env) (r : TaskReconciler) (t : SnapshotPodTask) (d : Duration)
    → HasContainerId t
    → env.parse_duration (commit_timeout t) ≡ ok d
    → Runs (Within d) Any (reconcile_commit env r t)
unfolding reconcile_commit
reconcile_commit-Within env r t d h parsed =
    Runs-bind_free _ _ (runtime-Runs r t.spec.container_id h) λ found.
      Runs-handle found _ _ (λ x. Runs-pure _ tt)
        λ (name, rt, cid) e. rw parsed (commit-Within env d rt cid _ _ _ _)
