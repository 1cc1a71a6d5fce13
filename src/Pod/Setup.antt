-- ===== src/Pod/Setup.antt =====
-- internal/controller/snapshotpod_controller.go: `SetupWithManager`.
use kube_snapshot.Base.{Option}
use kube_snapshot.World.{Error, Env, M, ask, setup, add_controller}

unfoldable pub setup_with_manager : Env → M (Option Error)
setup_with_manager env =
    let add = add_controller "SnapshotPod" in ask (setup add) (λ tr. env.host.setup_error tr add)
