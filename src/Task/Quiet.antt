-- ===== src/Task/Quiet.antt =====
-- The three steps of a task return, whatever the environment answers, and submit no status.
use kube_snapshot.Base.{String, ◌≡◌, Option, none, some, List, ◌∷◌, split, lookup}
use kube_snapshot.Api.{Time, SnapshotPodTask}
use kube_snapshot.World.{Call, Env, get_secret}
use kube_snapshot.World.Logic.{Runs, Any, Runs-pure, runs_rules}
use kube_snapshot.Runtime.{Runtime}
use kube_snapshot.Runtime.Quiet.{IsLocal, commit-Runs, image_exists-Runs, pull-Runs, push-Runs}
use kube_snapshot.Metrics.{record_image_push}
use kube_snapshot.Task.Steps.{
  TaskReconciler, pick_runtime, pick_parts, get_runtime_and_container_id,
  get_image_auth_with_secret, push_failure, pull_origin, push_existing_image, reconcile_push_image,
  reconcile_commit, reconcile_accept,
}
use kube_snapshot.Task.Progress.{Writes}
use kube_snapshot.Task.Rounds.{IsQuiet}

-- The container id that a kubelet reports, `<type>://<id>`
pub record IsContainerId (id : String) : Type 0 where
  pub typ : String
  pub cid : String
  pub others : List String
  pub parts : split id "://" ≡ typ ∷ cid ∷ others

abbrev pub HasContainerId : SnapshotPodTask → Type 0
HasContainerId t = IsContainerId t.spec.container_id

module _ {P : Call → Type 0} where
  pick_runtime-Runs :
      (r : TaskReconciler) (name cid : String) (others : List String) (o : Option Runtime)
      → Runs P Any (pick_runtime r name (cid ∷ others) o)
  unfolding pick_runtime
  pick_runtime-Runs r name cid others none = Runs-pure _ tt
  pick_runtime-Runs r name cid others (some rt) = Runs-pure _ tt

  pub runtime-Runs :
      (r : TaskReconciler) (id : String)
      → IsContainerId id
      → Runs P Any (get_runtime_and_container_id r id)
  unfolding get_runtime_and_container_id pick_parts
  runtime-Runs r id h =
      rw h.parts (pick_runtime-Runs r h.typ h.cid h.others (lookup h.typ r.runtime_map))

module _ {P : Call → Type 0} (p : IsLocal P) (env : Env) where
  open p use {clock, counts, observes}

  module _ (secrets : (key : _) → P (get_secret key)) where
    auth-Runs :
        (namespace sec image : String)
        → Runs P Any (get_image_auth_with_secret env namespace sec image)
    unfolding get_image_auth_with_secret
    auth-Runs namespace sec image = search (runs_rules, secrets, tt {0}) depth 9

    push_failure-Runs :
        (registry : String) (t : SnapshotPodTask) (start : Time)
        → Runs P Any (push_failure env registry t start)
    unfolding push_failure record_image_push
    push_failure-Runs registry t start =
        search (runs_rules, clock, counts, observes, tt {0}) depth 9

    pull_origin-Runs :
        (name : String) (rt : Runtime) (t : SnapshotPodTask)
        → Runs P Any (pull_origin env name rt t)
    unfolding pull_origin
    pull_origin-Runs name rt t = search (runs_rules, auth-Runs, pull-Runs p, tt {0}) depth 9

    push_existing_image-Runs :
        (name : String) (rt : Runtime) (t : SnapshotPodTask) (start : Time)
        → Runs P Any (push_existing_image env name rt t start)
    unfolding push_existing_image record_image_push
    push_existing_image-Runs name rt t start =
        search
          (
            runs_rules,
            auth-Runs,
            push_failure-Runs,
            pull_origin-Runs,
            push-Runs p,
            clock,
            counts,
            observes,
            tt {0},
          )
          depth 12

    reconcile_push_image-Runs :
        (r : TaskReconciler) (t : SnapshotPodTask)
        → HasContainerId t
        → Runs P Any (reconcile_push_image env r t)
    unfolding reconcile_push_image
    reconcile_push_image-Runs r t h =
        search
          (
            runs_rules,
            runtime-Runs,
            push_failure-Runs,
            image_exists-Runs p,
            push_existing_image-Runs,
            clock,
            tt {0},
          )
          depth 12

    reconcile_commit-Runs :
        (r : TaskReconciler) (t : SnapshotPodTask)
        → HasContainerId t
        → Runs P Any (reconcile_commit env r t)
    unfolding reconcile_commit
    reconcile_commit-Runs r t h = search (runs_rules, runtime-Runs, commit-Runs p, tt {0}) depth 9

Writes-IsLocal : (R : SnapshotPodTask → Type 0) → IsLocal (Writes R)
Writes-IsLocal R = record {
  clock = tt;
  execs = λ ctx command argv. tt;
  temp = tt;
  removes = λ dir. tt;
  sets = λ name value. tt;
  unsets = λ name. tt;
  writes = λ path text. tt;
  counts = λ v labels. tt;
  observes = λ v labels d. tt;
}

-- The commit and the push are quiet where the container id has its two parts; accepting always is.
pub commit-IsQuiet :
    (env : Env) (r : TaskReconciler)
    → IsQuiet HasContainerId (record { typ = "Commit"; run = reconcile_commit env r })
commit-IsQuiet env r = record {
  quiet = λ R t h. reconcile_commit-Runs (Writes-IsLocal R) env (λ key. tt) r t h;
}

pub push-IsQuiet :
    (env : Env) (r : TaskReconciler)
    → IsQuiet HasContainerId (record { typ = "Push"; run = reconcile_push_image env r })
push-IsQuiet env r = record {
  quiet = λ R t h. reconcile_push_image-Runs (Writes-IsLocal R) env (λ key. tt) r t h;
}

pub accept-IsQuiet : IsQuiet HasContainerId (record { typ = "Accept"; run = reconcile_accept })
unfolding reconcile_accept
accept-IsQuiet = record { quiet = λ R t h. Runs-pure none tt }
