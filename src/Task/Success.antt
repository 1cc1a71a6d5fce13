-- ===== src/Task/Success.antt =====
-- `Reconcile` of a task where nothing fails: it completes the task in one call.
use kube_snapshot.Base.{
  String, ◌≡◌, refl, Option, none, some, List, ◌∷◌, lookup, split, is_empty, if◌then◌else◌,
}
use kube_snapshot.Api.{Time, Duration, SnapshotPodTask, SnapshotPodTaskSpec, ObjectKey}
use kube_snapshot.World.{Call, Trace, Context, Env, ok, Secret, Reference, now, get_secret}
use kube_snapshot.World.Logic.{
  Runs, Any, Runs-pure, Runs-ask, Runs-bind, Runs-bind_free, Runs-if, Runs-weaken, runs_rules,
}
use kube_snapshot.Metrics.{record_image_push}
use kube_snapshot.Runtime.{Auth, Runtime, pull}
use kube_snapshot.Runtime.Success.{
  CommandsSucceed, IsNone, then_check, commit-IsNone, image_exists-true, pull-IsNone, push-IsNone,
}
use kube_snapshot.Task.Steps.{
  TaskReconciler, default_commit_timeout, pick_runtime, pick_parts, get_runtime_and_container_id,
  get_image_auth_with_secret, pull_origin, push_existing_image, reconcile_push_image,
  reconcile_commit,
}
use kube_snapshot.Task.Retries.{Free}

-- the timeout of a commit
abbrev timeout_of : SnapshotPodTaskSpec → String
timeout_of s =
    if is_empty s.commit_options.timeout then default_commit_timeout else s.commit_options.timeout

-- Nothing fails for a task: the commands succeed, the node has the runtime of the container, the
-- timeout is a duration, and the secret and the reference of the image can be read.
pub record Succeeds (env : Env) (r : TaskReconciler) (s : SnapshotPodTaskSpec) : Type 0 where
  pub commands : CommandsSucceed env
  pub typ : String
  pub cid : String
  pub others : List String
  pub parts : split s.container_id "://" ≡ typ ∷ cid ∷ others
  pub rt : Runtime
  pub has_runtime : lookup typ r.runtime_map ≡ some rt
  pub duration : Duration
  pub parses_timeout : env.parse_duration (timeout_of s) ≡ ok duration
  pub reads_secret : (tr : Trace) (key : ObjectKey) → (x : Secret) × (env.secret_at tr key ≡ ok x)
  pub image : Reference
  pub parses_image : env.parse_reference s.commit_image ≡ ok image

free : (c : Call) → Free c
free c = tt

module _ {env : Env} {r : TaskReconciler} (t : SnapshotPodTask) (h : Succeeds env r t.spec) where
  runtime-ok :
      Runs Free
        (λ x. x ≡ ok (h.typ, h.rt, h.cid))
        (get_runtime_and_container_id r t.spec.container_id)
  unfolding get_runtime_and_container_id pick_parts pick_runtime
  runtime-ok = rw (h.parts, h.has_runtime) (Runs-pure _ refl)

  pub commit_step-IsNone : Runs Free IsNone (reconcile_commit env r t)
  unfolding reconcile_commit
  commit_step-IsNone =
      Runs-bind _ _ runtime-ok
        λ found e. rw (e, h.parses_timeout) (commit-IsNone h.commands free h.rt _ _ _ _ _ _)

  auth-ok :
      (namespace sec : String)
      → Runs Free
          (λ x. (a : Option Auth) × (x ≡ ok a))
          (get_image_auth_with_secret env namespace sec t.spec.commit_image)
  unfolding get_image_auth_with_secret
  auth-ok namespace sec =
      Runs-if (is_empty sec) _ _ (λ _. Runs-pure (ok none) (none, refl))
        λ _.
          Runs-bind _ _
            (Runs-ask {Q = λ x. (s : Secret) × (x ≡ ok s)} (get_secret _) _ tt
              (λ tr. h.reads_secret tr (record { namespace = namespace; name = sec })))
            λ found (s, e). rw (e, h.parses_image) (Runs-pure _ (_, refl))

  pull-Runs :
      (ctx : Context) (image : String) (auth : Option Auth) (args : List String)
      → Runs Free Any (pull env h.rt ctx image auth args)
  pull-Runs ctx image auth args =
      Runs-weaken (λ a _. tt) (pull-IsNone h.commands free h.rt ctx image auth args)

  origin-Runs : (name : String) → Runs Free Any (pull_origin env name h.rt t)
  unfolding pull_origin get_image_auth_with_secret
  origin-Runs name = search (runs_rules, pull-Runs, tt {0}) depth 12

  existing-IsNone : (start : Time) → Runs Free IsNone (push_existing_image env h.typ h.rt t start)
  unfolding push_existing_image record_image_push
  existing-IsNone start = Runs-bind _ _ (auth-ok _ _) λ got (auth, e). rw e (
      Runs-bind_free _ _ (origin-Runs h.typ) λ _.
        then_check h.commands free _ _ _ (push-IsNone h.commands free h.rt _ _ _)
          (search (runs_rules, tt {0}) depth 12))

  pub push_step-IsNone : Runs Free IsNone (reconcile_push_image env r t)
  unfolding reconcile_push_image
  push_step-IsNone = Runs-bind_free _ _ (Runs-ask now env.clock tt (λ tr. tt)) λ start.
      Runs-bind _ _ runtime-ok λ found e. rw e (
        Runs-bind _ _ (image_exists-true h.commands free h.rt _ _)
          λ b is_true. rw is_true (existing-IsNone start))
