-- ===== src/Tests/ServerRuns.antt =====
-- Runs of the reconciler of tasks against a server that holds one task.
use kube_snapshot.Base.{◌+◌, ◌*◌, ◌≤◌, arith, ◌≡◌, refl, none, some, [], ◌∷◌, inl, split}
use kube_snapshot.Base.Int.{pos}
use kube_snapshot.Api.{SnapshotPodTask, ObjectKey, done_result, phase_completed}
use kube_snapshot.World.{Call, Trace, Env, ok, returns, update_task_status}
use kube_snapshot.Runtime.{docker_runtime}
use kube_snapshot.Condition.Done.{is_done}
use kube_snapshot.Task.Reconcile.{reconcile}
use kube_snapshot.Task.Progress.{Writes}
use kube_snapshot.Task.Server.{Server, Nothing}
use kube_snapshot.Task.Moves.{IsEnded}
use kube_snapshot.Task.Live.{Ready, reconciles, reconciles_end}
use kube_snapshot.Task.Machine.{Reach, view}
use kube_snapshot.Task.Refined.{reconciles_refine}
use kube_snapshot.Task.Safe.{IsSafe, reconciles-IsSafe}
use kube_snapshot.World.Count.{executed}
use kube_snapshot.Task.Bounded.{reconciles_cost}
use kube_snapshot.Task.Success.{Succeeds}
use kube_snapshot.Task.Completes.{reconcile_completes}
use kube_snapshot.Tests.Sample.{env, missing, reconciler, docker, task, task-IsContainerId}

-- the task with the last status that was submitted
abbrev stored_task : SnapshotPodTask → Trace → SnapshotPodTask
stored_task t [] = t
stored_task t (update_task_status u ∷ tr) = u
stored_task t (c ∷ tr) = stored_task t tr

-- an environment whose server holds the task
abbrev served : Env → SnapshotPodTask → Env
served e t = record e {
  task_at = λ tr key. ok (stored_task t tr);
  task_status_updated = λ tr u. ok u;
}

abbrev key : ObjectKey
key = record { namespace = "default"; name = "nginx-1-web" }

stored_task-keeps :
    (t : SnapshotPodTask) (c : Call) (tr : Trace)
    → Writes Nothing c
    → stored_task t (c ∷ tr) ≡ stored_task t tr
stored_task-keeps t (update_task_status u) tr w = absurd w
stored_task-keeps t c tr w = refl

abbrev served-Server : (e : Env) (t : SnapshotPodTask) → Server (served e t) key
served-Server e t = record {
  stored = stored_task t;
  gives = λ tr. refl;
  accepts = λ tr u. (
    u,
    refl,
    record {
      same_meta = refl;
      same_spec = refl;
      same_phase = refl;
      same_retries = refl;
      same_conditions = refl;
    },
    refl,
  );
  keeps = stored_task-keeps t;
}

-- every command fails
abbrev failing_env : Env
failing_env = record env { exec_error = λ tr ctx command argv. some missing }

-- every secret is there
abbrev working_env : Env
working_env = record env { secret_at = λ tr secret. ok [] }

task-Ready : Ready reconciler 3 0 task
task-Ready = record {
  mine = refl;
  live = refl;
  has_id = task-IsContainerId;
  in_steps = inl refl;
  budget = refl;
  counted = refl;
  left = omega arith;
}

reconciles_end_example :
    ((reconciles (served failing_env task) reconciler key 3 []).0 ≡ returns tt)
    × IsEnded 3 (stored_task task (reconciles (served failing_env task) reconciler key 3 []).1)
reconciles_end_example =
    reconciles_end (served-Server failing_env task) reconciler 3 (omega arith) 3 0 [] task-Ready
      (omega arith)

reconciles_refine_example :
    ((reconciles (served failing_env task) reconciler key 2 []).0 ≡ returns tt)
    × Reach 3
        (view task)
        (view (stored_task task (reconciles (served failing_env task) reconciler key 2 []).1))
reconciles_refine_example =
    reconciles_refine (served-Server failing_env task) reconciler 3 (omega arith) 2 0 [] task-Ready

task-IsSafe : IsSafe 3 (view task)
unfolding is_done
task-IsSafe = record {
  pushed_committed = λ h. h;
  committed_accepted = λ h. h;
  completed_all = λ h. cc h;
  gave_up_spent = λ h. cc h;
  bounded = omega arith;
}

reconciles-IsSafe_example :
    IsSafe 3 (view (stored_task task (reconciles (served failing_env task) reconciler key 4 []).1))
reconciles-IsSafe_example =
    reconciles-IsSafe (served-Server failing_env task) reconciler 3 (omega arith) 4 0 [] task-Ready
      task-IsSafe

task-Succeeds : Succeeds (served working_env task) reconciler task.spec
unfolding split
task-Succeeds = record {
  commands = record {
    executes = λ tr ctx command argv. refl;
    makes_dir = λ tr. ("/tmp/.docker-config-1", refl);
    writes = λ tr path text. refl;
  };
  typ = "docker";
  cid = "abc";
  others = [];
  parts = refl;
  rt = docker_runtime docker;
  has_runtime = refl;
  duration = pos 300000000000;
  parses_timeout = refl;
  reads_secret = λ tr secret. ([], refl);
  image = record {
    domain = "docker.io";
    path = "registry/nginx:snapped-1";
    tag = none;
    digest_hex = none;
  };
  parses_image = refl;
}

reconcile_completes_example :
    ((reconcile (served working_env task) reconciler key []).0 ≡ returns (done_result, none))
    × ((stored_task task (reconcile (served working_env task) reconciler key []).1).status.phase
        ≡ phase_completed)
reconcile_completes_example =
    reconcile_completes (served-Server working_env task) reconciler [] refl refl (inl refl)
      task-Succeeds

reconciles_cost_example :
    ((reconciles (served failing_env task) reconciler key 5 []).0 ≡ returns tt)
    × (executed (reconciles (served failing_env task) reconciler key 5 []).1 ≤ 6 * 3 + executed [])
reconciles_cost_example =
    reconciles_cost (served-Server failing_env task) reconciler 3 (omega arith) 5 0 3 [] task-Ready
      (omega arith)
