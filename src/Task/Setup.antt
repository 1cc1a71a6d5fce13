-- ===== src/Task/Setup.antt =====
-- internal/controller/snapshotpodtask_controller.go: `SetupWithManager`.
use kube_snapshot.Base.{String, [], ◌∷◌, sprint}
use kube_snapshot.World.{
  errorf, Result, ok, err, Env, M, ◌>>=◌, pure, ask, check, handle, setup, add_controller,
}
use kube_snapshot.Runtime.Setup.{new_docker_compatible_runtime, new_containerd_compatible_runtime}
use kube_snapshot.Task.Steps.{TaskReconciler}

abbrev pub docker_runtime_name : String
docker_runtime_name = "docker"

abbrev pub containerd_runtime_name : String
containerd_runtime_name = "containerd"

module _ (env : Env) where
  -- the reconciler of the node with its runtimes, once it is registered for the tasks
  unfoldable pub setup_with_manager : String → M (Result TaskReconciler)
  setup_with_manager node = do
    made ← new_containerd_compatible_runtime env "nerdctl" ("--debug" ∷ "-n" ∷ "k8s.io" ∷ [])
    handle made
        (λ e. pure (
          err (errorf (sprint ("failed to create containerd compatible runtime: " ∷ e.text ∷ [])))))
        λ containerd. do
          let docker = new_docker_compatible_runtime "docker" ("--debug" ∷ [])
          let r : TaskReconciler = record {
            node_name = node;
            runtime_map =
                (docker_runtime_name, docker) ∷ (containerd_runtime_name, containerd) ∷ [];
          }
          let add = add_controller "SnapshotPodTask"
          failure ← ask (setup add) (λ tr. env.host.setup_error tr add)
          check failure (λ e. pure (err e)) (pure (ok r))
