-- ===== src/Task/Effort.antt =====
-- How many commands `Reconcile` of a task runs.
use kube_snapshot.Base.{String, Option, none, some, List, [], ◌∷◌, arith, ◌==◌}
use kube_snapshot.Api.{Time, SnapshotPodTask}
use kube_snapshot.World.{Env, now}
use kube_snapshot.World.Calls.{Makes, Makes-pure, Makes-panic, makes_rules}
use kube_snapshot.World.Count.{
  IsFree, AtMost, AtMost-Makes, AtMost-ask, AtMost-weaken, AtMost-bind, AtMost-if, AtMost-handle,
  AtMost-check,
}
use kube_snapshot.Metrics.{record_image_push}
use kube_snapshot.Runtime.{Runtime}
use kube_snapshot.Runtime.Effort.{commit-AtMost, image_exists-AtMost, pull-AtMost, push-AtMost}
use kube_snapshot.Task.Steps.{
  TaskReconciler, pick_runtime, pick_parts, get_runtime_and_container_id,
  get_image_auth_with_secret, push_failure, pull_origin, push_existing_image, reconcile_push_image,
  reconcile_commit,
}

pick_runtime-Makes :
    (r : TaskReconciler) (name : String) (rest : List String) (o : Option Runtime)
    → Makes IsFree (pick_runtime r name rest o)
unfolding pick_runtime
pick_runtime-Makes r name rest none = Makes-pure _
pick_runtime-Makes r name [] (some rt) = Makes-panic
pick_runtime-Makes r name (cid ∷ others) (some rt) = Makes-pure _

pick_parts-Makes : (r : TaskReconciler) (parts : List String) → Makes IsFree (pick_parts r parts)
unfolding pick_parts
pick_parts-Makes r [] = Makes-panic
pick_parts-Makes r (name ∷ rest) = pick_runtime-Makes r name rest _

runtime-Makes :
    (r : TaskReconciler) (id : String) → Makes IsFree (get_runtime_and_container_id r id)
unfolding get_runtime_and_container_id
runtime-Makes r id = pick_parts-Makes r _

module _ (env : Env) where
  auth-Makes : (ns sec image : String) → Makes IsFree (get_image_auth_with_secret env ns sec image)
  unfolding get_image_auth_with_secret
  auth-Makes ns sec image = search (makes_rules) depth 12

  failure-Makes :
      (registry : String) (t : SnapshotPodTask) (start : Time)
      → Makes IsFree (push_failure env registry t start)
  unfolding push_failure record_image_push
  failure-Makes registry t start = search (makes_rules) depth 12

  pub commit_step-AtMost :
      (r : TaskReconciler) (t : SnapshotPodTask) → AtMost 1 (reconcile_commit env r t)
  unfolding reconcile_commit
  commit_step-AtMost r t = AtMost-bind {j = 1} _ _ (AtMost-Makes (runtime-Makes r _)) λ found.
      AtMost-handle found _ _ (λ e. AtMost-weaken (omega arith) (AtMost-Makes (Makes-pure _)))
        λ (name, rt, cid).
          AtMost-handle (env.parse_duration _) _ _
            (λ e. AtMost-weaken (omega arith) (AtMost-Makes (Makes-pure _)))
            λ d. commit-AtMost env rt (some d) cid _ _ _ _

  origin-AtMost :
      (name : String) (rt : Runtime) (t : SnapshotPodTask) → AtMost 2 (pull_origin env name rt t)
  unfolding pull_origin
  origin-AtMost name rt t =
      AtMost-if (name == "containerd") _ _
        (AtMost-bind {j = 2} _ _ (AtMost-Makes (auth-Makes _ _ _)) λ auth.
          AtMost-bind {j = 0} _ _ (pull-AtMost env rt none _ _ _) λ _. AtMost-Makes (Makes-pure tt))
        (AtMost-weaken (omega arith) (AtMost-Makes (Makes-pure tt)))

  existing-AtMost :
      (name : String) (rt : Runtime) (t : SnapshotPodTask) (start : Time)
      → AtMost 4 (push_existing_image env name rt t start)
  unfolding push_existing_image record_image_push
  existing-AtMost name rt t start = AtMost-bind {j = 4} _ _ (AtMost-Makes (auth-Makes _ _ _)) λ got.
      AtMost-handle got _ _
        (λ e.
          AtMost-weaken (omega arith) (AtMost-Makes (search (makes_rules, failure-Makes) depth 9)))
        λ auth. AtMost-bind {j = 2} _ _ (origin-AtMost name rt t) λ _.
          AtMost-bind {j = 0} _ _ (push-AtMost env rt none _ auth) λ failure.
            AtMost-check failure _ _
              (λ e. AtMost-Makes (search (makes_rules, failure-Makes) depth 9))
              (AtMost-Makes (search (makes_rules) depth 12))

  pub push_step-AtMost :
      (r : TaskReconciler) (t : SnapshotPodTask) → AtMost 5 (reconcile_push_image env r t)
  unfolding reconcile_push_image
  push_step-AtMost r t = AtMost-bind {j = 5} _ _ (AtMost-ask now env.clock) λ start.
      AtMost-bind {j = 5} _ _ (AtMost-Makes (runtime-Makes r _)) λ found.
        AtMost-handle found _ _
          (λ e.
            AtMost-weaken (omega arith)
              (AtMost-Makes (search (makes_rules, failure-Makes) depth 9)))
          λ (name, rt, cid). AtMost-bind {j = 4} _ _ (image_exists-AtMost env rt none _) λ exists.
            AtMost-if exists _ _ (existing-AtMost name rt t start) (
              AtMost-weaken (omega arith)
                (AtMost-Makes (search (makes_rules, failure-Makes) depth 9)))
