-- ===== src/Webhook/Handle.antt =====
-- internal/webhooks/pod.go: `Handle` and the two handlers behind it.
use kube_snapshot.Base.{
  ℕ, ◌+◌, String, Bool, false, Option, none, some, List, [], ◌∷◌, ◌++◌, map, ◌==◌, ◌&&◌, not,
  contains_text, is_empty, lookup, show_nat, sprint, if◌then◌else◌,
}
use kube_snapshot.Base.Int.{ℤ, pos, show_int, inc32}
use kube_snapshot.Api.{is_zero, SnapshotPod, PodObject, Container}
use kube_snapshot.World.{
  Error, Result, Env, M, ◌>>=◌, pure, ask, handle, range_keys, list_snapshot_pods,
  update_snapshot_pod,
}
use kube_snapshot.Webhook.Match.{find_target}
use kube_snapshot.Webhook.Images.{ImageConfig, Images, choose_images}

pub data Operation : Type 0 where
  create_op delete_op : Operation
  other_op : String → Operation

-- What `Handle` reads of an `admission.Request`
pub record Request : Type 0 where
  pub uid : String
  pub group : String
  pub version : String
  pub resource : String
  pub operation : Operation
  pub object : String
  pub old_object : String

pub data PatchValue : Type 0 where
  text_value : String → PatchValue
  secret_value : String → PatchValue
  secrets_value : List String → PatchValue

pub record PatchOp : Type 0 where
  pub operation : String
  pub path : String
  pub value : PatchValue

-- `admission.Allowed`, `admission.Errored`, and the response with patches
pub data Response : Type 0 where
  allowed : String → Response
  errored : ℕ → Error → Response
  patched : String → List PatchOp → Response

abbrev pub image_op : ℕ → ImageConfig → PatchOp
image_op i ic = record {
  operation = "replace";
  path = sprint ("/spec/containers/" ∷ show_nat i ∷ "/image" ∷ []);
  value = text_value ic.image;
}

-- JSON patch tells `nil` from an empty array, see kubernetes issue 70281.
abbrev pub secret_ops : List String → String → List PatchOp
secret_ops secrets secret =
    if is_empty secret then [] else if contains_text secrets secret then [] else elim secrets [
      | [] ↦
          record {
            operation = "add";
            path = "/spec/imagePullSecrets";
            value = secrets_value (secret ∷ []);
          }
          ∷ []
      | _ ∷ _ ↦
          record {
            operation = "add";
            path = "/spec/imagePullSecrets/-";
            value = secret_value secret;
          }
          ∷ []
    ]

-- the inner loop, from the container of index `i`
unfoldable pub container_ops :
    List String → String → ImageConfig → ℕ → List Container → List PatchOp
container_ops secrets name ic i [] = []
container_ops secrets name ic i (c ∷ cs) =
    let rest = container_ops secrets name ic (i + 1) cs in
    if c.name == name then image_op i ic ∷ (secret_ops secrets ic.pull_secret ++ rest) else rest

-- the outer loop, in the order of the map's keys
unfoldable pub patch_ops : List String → Images → PodObject → List PatchOp
patch_ops [] out p = []
patch_ops (k ∷ ks) out p = elim (lookup k out) [
  | none ↦ patch_ops ks out p
  | some ic ↦ container_ops p.image_pull_secrets k ic 0 p.containers ++ patch_ops ks out p
]

abbrev pub is_deleting : PodObject → Bool
is_deleting p = elim p.meta.deletion_timestamp [ none ↦ false | some t ↦ not (is_zero t) ]

module _ (env : Env) where
  abbrev pub list_in : String → M (Result (List SnapshotPod))
  list_in ns = ask (list_snapshot_pods (some ns)) (λ tr. env.snapshot_pods_in tr (some ns))

  -- the round of the object that was updated, where it saves at termination
  unfoldable pub trigger_round_of : Option SnapshotPod → M (ℤ × Option Error)
  trigger_round_of none = pure (pos 0, none)
  trigger_round_of (some sp) =
      if sp.spec.auto_save_options.auto_save_on_termination
      then (let sp' = record sp {
        spec = record sp.spec { trigger_round = inc32 sp.spec.trigger_round };
      } in
          do
            updated ← ask (update_snapshot_pod sp') (λ tr. env.snapshot_pod_updated tr sp')
            handle updated (λ e. pure (sp'.spec.trigger_round, some e))
                λ stored. pure (stored.spec.trigger_round, none))
      else pure (pos 0, none)

  unfoldable pub handle_pod_update : String → PodObject → M (ℤ × Option Error)
  handle_pod_update ns p = do
    listed ← list_in ns
    handle listed (λ e. pure (pos 0, some e)) λ sps. trigger_round_of (find_target sps p)

  -- the images, none of which means that no patch is needed
  unfoldable pub images_of : Option SnapshotPod → Images
  images_of none = []
  images_of (some sp) = choose_images env.sort_by_round sp sp.spec.recovery_round

  unfoldable pub handle_pod_create : PodObject → M Images
  handle_pod_create p = do
    listed ← list_in p.meta.namespace
    handle listed (λ e. pure []) λ sps. pure (images_of (find_target sps p))

  unfoldable pub handle_delete : Request → M Response
  handle_delete req =
      handle (env.decode_pod req.old_object) (λ e. pure (errored 500 e))
        λ p. if is_deleting p then pure (allowed "already handled") else do
          (round, failure) ← handle_pod_update p.meta.namespace p
          pure (allowed (sprint ("new round: " ∷ show_int round ∷ [])))

  unfoldable pub patch_pod : Request → PodObject → Images → M Response
  patch_pod req p [] = pure (allowed "no need to patch")
  patch_pod req p (e ∷ out) = do
    keys ← range_keys env (map (λ x. x.0) (e ∷ out))
    pure (patched req.uid (patch_ops keys (e ∷ out) p))

  unfoldable pub handle_create : Request → M Response
  handle_create req =
      handle (env.decode_pod req.object) (λ e. pure (errored 500 e))
        λ p. do out ← handle_pod_create p; patch_pod req p out

  unfoldable pub dispatch : Request → Operation → M Response
  dispatch req delete_op = handle_delete req
  dispatch req create_op = handle_create req
  dispatch req (other_op s) = pure (allowed "allowed")

  unfoldable pub handle_request : Request → M Response
  handle_request req =
      if is_empty req.group && (req.version == "v1" && req.resource == "pods")
      then dispatch req req.operation
      else pure (allowed "not pod")
