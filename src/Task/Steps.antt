-- ===== src/Task/Steps.antt =====
-- internal/controller/snapshotpodtask_controller.go: the steps of a task, Accept, Commit and Push.
use kube_snapshot.Base.{
  String, Option, none, some, List, [], ◌∷◌, ◌==◌, map, lookup, lookup_text, split, sprint,
  show_list, is_empty, if◌then◌else◌,
}
use kube_snapshot.Base.Int.{sub_ℕ}
use kube_snapshot.Api.{Time, Duration, SnapshotPodTask, ObjectKey, label_of, snapshot_name_label}
use kube_snapshot.World.{
  Error, errorf, Result, ok, err, Env, M, ◌>>=◌, ◌>>◌, pure, panic, ask, handle, check, now,
  get_secret,
}
use kube_snapshot.Metrics.{push_success, push_failed, record_image_push}
use kube_snapshot.Runtime.{Auth, Runtime, commit, image_exists, pull, push}

pub record TaskReconciler : Type 0 where
  pub node_name : String
  pub runtime_map : List (String × Runtime)

abbrev pub default_commit_timeout : String
default_commit_timeout = "5m"

-- The lookup of the runtime by its name, with the parts of the id that follow the name: where
-- there is none, `[1]` panics.
unfoldable pub pick_runtime :
    TaskReconciler → String → List String → Option Runtime → M (Result (String × Runtime × String))
pick_runtime r name rest none =
    let supported = show_list (map (λ e. e.0) r.runtime_map) in
    pure (
      err (
        errorf (
          sprint
            ("unsupported for runtime: " ∷ name ∷ ", current supported list: " ∷ supported ∷ []))))
pick_runtime r name [] (some rt) = panic
pick_runtime r name (cid ∷ others) (some rt) = pure (ok (name, rt, cid))

unfoldable pub pick_parts : TaskReconciler → List String → M (Result (String × Runtime × String))
pick_parts r [] = panic
pick_parts r (name ∷ rest) = pick_runtime r name rest (lookup name r.runtime_map)

unfoldable pub get_runtime_and_container_id :
    TaskReconciler → String → M (Result (String × Runtime × String))
get_runtime_and_container_id r container_id = pick_parts r (split container_id "://")

unfoldable pub get_snapshot_name : SnapshotPodTask → String
get_snapshot_name spt =
    let name = label_of spt.meta.labels snapshot_name_label in
    if is_empty name then "unknown" else name

-- the value where the error is dropped
abbrev pub auth_of : Result (Option Auth) → Option Auth
auth_of (ok a) = a
auth_of (err e) = none

module _ (env : Env) where
  -- `time.Since`
  abbrev pub since : Time → M Duration
  since start = do t ← ask now env.clock; pure (sub_ℕ t start)

  unfoldable pub get_image_auth_with_secret : String → String → String → M (Result (Option Auth))
  get_image_auth_with_secret namespace sec image = if is_empty sec then pure (ok none) else do
    let key : ObjectKey = record { namespace = namespace; name = sec }
    found ← ask (get_secret key) (λ tr. env.secret_at tr key)
    handle found (λ e. pure (err e))
        λ secret.
          handle (env.parse_reference image) (λ e. pure (err e))
            λ ref. pure (
              ok (
                some (record {
                  registry = ref.domain;
                  config_json = lookup_text ".dockerconfigjson" secret;
                })))

  -- the metric of a push that failed, with the time that it took
  unfoldable pub push_failure : String → SnapshotPodTask → Time → M Unit
  push_failure registry spt start = do
    took ← since start
    record_image_push push_failed registry spt.meta.namespace (get_snapshot_name spt) took

  -- see https://github.com/containerd/nerdctl/issues/3026: the origin image is pulled once more
  unfoldable pub pull_origin : String → Runtime → SnapshotPodTask → M Unit
  pull_origin name rt spt =
      if name == "containerd"
      then (do
        auth ←
            get_image_auth_with_secret spt.meta.namespace spt.spec.origin_registry_secret_ref
              spt.spec.origin_image
        pull env rt none spt.spec.origin_image (auth_of auth) ("--unpack=false" ∷ [])
        pure tt)
      else pure tt

  -- the registry of the image for the metrics
  abbrev pub registry_of : String → String
  registry_of image = elim (env.parse_reference image) [ ok ref ↦ ref.domain | err e ↦ "unknown" ]

  -- the part of `reconcilePushImage` for an image that is there
  unfoldable pub push_existing_image : String → Runtime → SnapshotPodTask → Time → M (Option Error)
  push_existing_image name rt spt start = do
    got ←
        get_image_auth_with_secret spt.meta.namespace spt.spec.registry_secret_ref
          spt.spec.commit_image
    handle got (λ e. do push_failure "unknown" spt start; pure (some e))
        λ auth. do
          pull_origin name rt spt
          let registry = registry_of spt.spec.commit_image
          failure ← push env rt none spt.spec.commit_image auth
          check failure (λ e. do push_failure registry spt start; pure (some e))
              do
                took ← since start
                record_image_push push_success registry spt.meta.namespace (get_snapshot_name spt)
                    took
                pure none

  unfoldable pub reconcile_push_image : TaskReconciler → SnapshotPodTask → M (Option Error)
  reconcile_push_image r spt = do
    start ← ask now env.clock
    found ← get_runtime_and_container_id r spt.spec.container_id
    handle found (λ e. do push_failure "unknown" spt start; pure (some e))
        λ (name, rt, cid). do
          exists ← image_exists env rt none spt.spec.commit_image
          if exists then push_existing_image name rt spt start else do
            push_failure "unknown" spt start
            pure (some (errorf (sprint ("image " ∷ spt.spec.commit_image ∷ " not exists" ∷ []))))

  unfoldable pub reconcile_commit : TaskReconciler → SnapshotPodTask → M (Option Error)
  reconcile_commit r spt = do
    found ← get_runtime_and_container_id r spt.spec.container_id
    let options = spt.spec.commit_options
    let timeout = if is_empty options.timeout then default_commit_timeout else options.timeout
    handle found (λ e. pure (some e))
        λ (name, rt, cid).
          handle (env.parse_duration timeout) (λ e. pure (some e))
            λ d.
              commit env rt (some d) cid spt.spec.commit_image options.pause_container
                options.message options.author

unfoldable pub reconcile_accept : SnapshotPodTask → M (Option Error)
reconcile_accept spt = pure none
