-- ===== src/Webhook/Setup.antt =====
-- internal/webhooks/pod.go: `SetupWebhookWithManager`.
use kube_snapshot.Base.{Option}
use kube_snapshot.World.{Error, Env, M, ◌>>◌, ask, tell, setup, register_handler, add_webhook}

unfoldable pub setup_webhook_with_manager : Env → M (Option Error)
setup_webhook_with_manager env = do
  tell (setup (register_handler "/mutate-v1-pod"))
  let add = add_webhook "Pod"
  ask (setup add) (λ tr. env.host.setup_error tr add)
