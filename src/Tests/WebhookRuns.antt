-- ===== src/Tests/WebhookRuns.antt =====
-- Requests to the admission webhook.
use mathlib.Core.List.{Memᴰ}
use kube_snapshot.Base.{◌≡◌, refl, ◌∷◌, [], Option, some, lookup, show_nat}
use mathlib.Core.Option
use kube_snapshot.Base.Int.{pos}
use kube_snapshot.Api.{SnapshotRunningStatus}
use kube_snapshot.World.{Env, ok, list_snapshot_pods, update_snapshot_pod}
use kube_snapshot.World.Logic.{Runs, Any}
use kube_snapshot.Webhook.Match.{targets}
use kube_snapshot.Webhook.Images.{ImageConfig, choose_images, config_of}
use kube_snapshot.Webhook.Handle.{text_value, patch_ops, Request, delete_op, handle_request}
use kube_snapshot.Webhook.Recovery.{Found, IsSortOf, recovers_latest}
use kube_snapshot.Webhook.Patch.{patch_ops-Memᴰ}
use kube_snapshot.Webhook.Round.{recovers_round}
use kube_snapshot.Webhook.Trigger.{bumped, delete_triggers}
use kube_snapshot.Webhook.Quiet.{Admits, handle_request-Runs}
use kube_snapshot.Tests.Sample.{env, pod, snapshot, snapshot_pod}

abbrev delete_request : Request
delete_request = record {
  uid = "1";
  group = "";
  version = "v1";
  resource = "pods";
  operation = delete_op;
  object = "";
  old_object = "pod";
}

-- the server lists the one object, and each request is for the one pod
abbrev listing_env : Env
listing_env = record env {
  snapshot_pods_in = λ tr ns. ok (snapshot_pod ∷ []);
  decode_pod = λ text. ok pod;
}

delete_triggers_example :
    (handle_request listing_env delete_request []).1
    ≡ update_snapshot_pod (bumped snapshot_pod) ∷ list_snapshot_pods (some "default") ∷ []
unfolding targets
delete_triggers_example =
    delete_triggers listing_env delete_request [] pod [] [] snapshot_pod refl refl refl refl refl tt
      refl refl

handle_request-Runs_example :
    Runs (Admits delete_op) Any (handle_request listing_env delete_request)
handle_request-Runs_example = handle_request-Runs listing_env delete_request

snapshots-IsSortOf : IsSortOf snapshot_pod.status.snapshots snapshot_pod.status.snapshots
snapshots-IsSortOf = record { descending = (tt, tt); keeps = λ q m. m; adds_none = λ q m. m }

recovers_latest_example :
    (o : Option SnapshotRunningStatus) × (lookup "web"
        (choose_images (λ ss. ss) snapshot_pod (pos 0))
      ≡ Option.map (config_of snapshot_pod.spec.image_save_options.registry_secret_ref) o)
    × Found "web" snapshot_pod.status.snapshots o
recovers_latest_example = recovers_latest (λ ss. ss) snapshot_pod "web" snapshots-IsSortOf

recovers_round_example :
    lookup "web" (choose_images (λ ss. ss) snapshot_pod (pos 1))
    ≡ some (config_of snapshot_pod.spec.image_save_options.registry_secret_ref (snapshot 1))
recovers_round_example =
    recovers_round (λ ss. ss) snapshot_pod "web" 0 [] [] (snapshot 1) refl refl tt

-- the image of the pod's container
abbrev web_config : ImageConfig
web_config = record { image = "registry/nginx:snapped-1"; pull_secret = "" }

patch_ops-Memᴰ_example :
    Memᴰ
      (record {
        operation = "replace";
        path = "/spec/containers/0/image";
        value = text_value web_config.image;
      })
      (patch_ops ("web" ∷ []) (("web", web_config) ∷ []) pod)
unfolding show_nat
patch_ops-Memᴰ_example =
    patch_ops-Memᴰ ("web" ∷ []) (("web", web_config) ∷ []) pod "web" web_config 0
      (record { name = "web"; image = "nginx" }) (Memᴰ.head refl) refl refl refl
