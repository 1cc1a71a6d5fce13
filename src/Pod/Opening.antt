-- ===== src/Pod/Opening.antt =====
-- internal/controller/snapshotpod_controller.go: the first call of `Reconcile` for a round, where
-- nothing fails that the call needs.
use kube_snapshot.Base.{
  ◌≤◌, String, ◌≡◌, refl, sym, ◌∙◌, ap, Bool, true, false, Option, none, List, [], ◌∷◌, All, length,
  filter_by, is_empty, contains_text, ◌==◌,
}
use mathlib.Core.Path.{subst}
use kube_snapshot.Base.Int.{pos, ◌≤?◌}
use kube_snapshot.Api.{SnapshotPod, SnapshotPodSpec, SnapshotPodTask, PodObject, ContainerStatus}
use kube_snapshot.World.{Trace, Env, Error, Result, ok, returns, now, create_task}
use kube_snapshot.World.Logic.{
  Runs, Returns, Runs-pure, Runs-ask, Runs-bind, Runs-bind_free, Runs-both, Runs-map, Runs-weaken,
}
use kube_snapshot.Condition.Types.{types, IsTidy}
use kube_snapshot.Pod.Live.{steps}
use kube_snapshot.Pod.Target.{container_names, get_target_pod}
use kube_snapshot.Pod.Image.{render_new_image_name}
use kube_snapshot.Pod.Tasks.{
  append_suffix, round_containers, task_for, list_task, create_and_list, snapshot_status,
  snapshot_container, snapshot_containers, reconcile_tasks,
}
use kube_snapshot.Pod.Sound.{HasUuids, lists_round}
use kube_snapshot.Pod.Containers.{render-Runs}
use kube_snapshot.Pod.Listed.{Free, EndsWith, EndsWith-start, containers-EndsWith}
use kube_snapshot.Pod.Appends.{snapshot_containers-New}
use kube_snapshot.Pod.Closing.{is_closed, Alike, Alike-is_closed, Alike-lists_round, target-Runs}

-- The container has a status, with an id; and from its image an image is rendered as the spec says,
-- whatever the time and the uuid.
pub record IsStarted (env : Env) (spec : SnapshotPodSpec) (p : PodObject) (c : String)
    : Type 0 where
  pub status : ContainerStatus
  pub others : List ContainerStatus
  pub found :
      filter_by (λ (s : ContainerStatus). s.name == c) p.container_statuses ≡ status ∷ others
  pub started : is_empty status.container_id ≡ false
  pub renders :
      (tr : Trace)
      → (image : String) × ((render_new_image_name env status.image
            spec.image_save_options.image_ref_format
            (append_suffix spec.image_save_options.append_snapped_suffix)
            tr).0
          ≡ returns (ok image))

-- Whenever a task is created, that succeeds.
pub record CreatesAll (env : Env) : Type 0 where
  pub creates :
      (tr : Trace) (t : SnapshotPodTask) → (u : SnapshotPodTask) × (env.task_created tr t ≡ ok u)

abbrev NoError : SnapshotPod → SnapshotPod × Option Error → Type 0
NoError sp x = (x.1 ≡ none) × (x.0.spec ≡ sp.spec)

module _ (env : Env) (uuids : HasUuids env) (w : CreatesAll env) where
  list_task-NoError :
      (sp : SnapshotPod) (c : String) (t : SnapshotPodTask)
      → Runs Free (NoError sp) (list_task env sp c t)
  unfolding list_task
  list_task-NoError sp c t =
      Runs-bind_free _ _ (Runs-ask now env.clock tt (λ tr. tt)) λ at. Runs-pure _ (refl, refl)

  create_and_list-NoError :
      (sp : SnapshotPod) (c : String) (t : SnapshotPodTask)
      → Runs Free (NoError sp) (create_and_list env sp c t)
  unfolding create_and_list
  create_and_list-NoError sp c t =
      Runs-bind {Q = λ (made : Result SnapshotPodTask). (u : SnapshotPodTask) × (made ≡ ok u)} _ _
        (Runs-ask (create_task t) _ tt (λ tr. w.creates tr t))
        λ made (u, e). rw e (list_task-NoError sp c u)

  rendered-Runs :
      (origin format : String) (append : Bool)
      → ((tr : Trace)
          → (image : String) × ((render_new_image_name env origin format append tr).0
              ≡ returns (ok image)))
      → Runs Free
          (λ (r : Result String). (image : String) × (r ≡ ok image))
          (render_new_image_name env origin format append)
  rendered-Runs origin format append renders = record {
    calls = (Runs-map (λ c _. tt) (render-Runs env uuids origin format append)).calls;
    result = λ tr.
        let (image, e) = renders tr in
        subst (Returns (λ (r : Result String). (image : String) × (r ≡ ok image))) (sym e)
          (image, refl);
  }

  snapshot_container-NoError :
      (sp : SnapshotPod) (p : PodObject) (c : String)
      → IsStarted env sp.spec p c
      → Runs Free (NoError sp) (snapshot_container env sp p c)
  unfolding snapshot_container snapshot_status
  snapshot_container-NoError sp p c s =
      rw (s.found, snapshot_status, s.started)
        (Runs-bind _ _ (rendered-Runs _ _ _ s.renders) λ rendered (image, e).
          rw e (create_and_list-NoError sp c (task_for env sp p c s.status image)))

  snapshot_containers-NoError :
      (p : PodObject) (cs : List String) (sp : SnapshotPod)
      → All (IsStarted env sp.spec p) cs
      → Runs Free (NoError sp) (snapshot_containers env sp p cs)
  unfolding snapshot_containers
  snapshot_containers-NoError p [] sp a = Runs-pure (sp, none) (refl, refl)
  snapshot_containers-NoError p (c ∷ cs) sp a =
      Runs-bind _ _ (snapshot_container-NoError sp p c a.0) λ (u, failure) (fine, same_spec).
        rw fine (
          Runs-weaken (λ x (ok_all, same). (ok_all, same ∙ same_spec))
            (snapshot_containers-NoError p cs u
              (subst (λ spec. All (IsStarted env spec p) cs) (sym same_spec) a.1)))

-- An object whose round is open and has no snapshot, for which nothing fails: whenever the target is
-- looked up it is found, and the containers `cs` of the round have started.
pub record Fresh (env : Env) (cs : List String) (sp : SnapshotPod) : Type 0 where
  pub wanted : (sp.spec.trigger_round ≤? pos 0) ≡ false
  pub open_round : is_closed sp ≡ false
  pub unlisted : lists_round sp ≡ false
  pub tidy : IsTidy steps (types sp.status.conditions)
  pub target :
      (tr : Trace)
      → (p : PodObject) × ((get_target_pod env sp tr).0 ≡ returns (ok p))
        × (All (λ c. contains_text (container_names p) c ≡ true) sp.spec.target.containers
            × (round_containers sp p ≡ cs)
            × All (IsStarted env sp.spec p) cs)
  pub first : String
  pub rest : List String
  pub some_container : cs ≡ first ∷ rest
  pub few : length cs ≤ 5

-- the object once the containers `cs` were listed
pub record Opened (cs : List String) (sp v : SnapshotPod) : Type 0 where
  pub same_meta : v.meta ≡ sp.meta
  pub same_spec : v.spec ≡ sp.spec
  pub ends : EndsWith sp.spec.trigger_round cs v.status.snapshots

module _ (env : Env) (uuids : HasUuids env) (w : CreatesAll env) (cs : List String)
    (sp : SnapshotPod) (y : Fresh env cs sp) (u : SnapshotPod) (k : Alike sp u) where
  containers-Opened :
      (p : PodObject)
      → All (IsStarted env sp.spec p) cs
      → Runs Free
          (λ (x : SnapshotPod × Option Error).
            (x.1 ≡ none) × (x.0.status.conditions ≡ u.status.conditions) × Opened cs sp x.0)
          (snapshot_containers env u p cs)
  containers-Opened p started =
      Runs-weaken
        (λ x ((fine, same), (n, ends)). (
          fine,
          n.same_conditions,
          record {
            same_meta = n.same_meta ∙ k.same_meta;
            same_spec = n.same_spec ∙ k.same_spec;
            ends = ends fine;
          },
        ))
        (Runs-both
          (snapshot_containers-NoError env uuids w p cs u
            (subst (λ spec. All (IsStarted env spec p) cs) (sym k.same_spec) started))
          (Runs-both {P' = Free} (snapshot_containers-New env uuids u p cs) (
            containers-EndsWith env uuids sp.spec.trigger_round u p [] cs
              (ap (λ (s : SnapshotPodSpec). s.trigger_round) k.same_spec)
              (EndsWith-start sp.spec.trigger_round u.status.snapshots) y.few)))

  pub reconcile_tasks-Opened :
      Runs Free
        (λ (x : SnapshotPod × Option Error).
          (x.1 ≡ none) × (x.0.status.conditions ≡ u.status.conditions) × Opened cs sp x.0)
        (reconcile_tasks env u)
  unfolding reconcile_tasks
  reconcile_tasks-Opened =
      rw (Alike-is_closed k ∙ y.open_round, Alike-lists_round k ∙ y.unlisted)
        (Runs-bind _ _ (Runs-map (λ c _. tt) (target-Runs env _ k y.target))
          λ got (p, is, (_, these, started)).
            let names : round_containers u p ≡ cs = rw k.same_spec these in
            rw (is, names) (containers-Opened p started))
