-- ===== src/Pod/Containers.antt =====
-- The tasks that `reconcileTasks` creates, and what it leaves in the status.
use kube_snapshot.Base.{
  String, ◌≡◌, refl, sym, ap, Bool, true, Option, none, some, List, [], ◌∷◌, ◌⊎◌, inl, inr, arith,
  is_empty, not, contains,
}
use mathlib.Core.Path.{subst}
use kube_snapshot.Base.Int.{◌==ℤ◌, ==ℤ_refl, ==ℤ_iff}
use kube_snapshot.Api.{
  SnapshotPod, SnapshotPodTask, SnapshotRunningStatus, PodObject, ContainerStatus, Time,
}
use kube_snapshot.World.{
  Trace, Env, Error, returns, now, pure, ◌>>=◌, is_already_exists, create_task, new_uuid,
}
use kube_snapshot.World.Logic.{
  Runs, Any, Runs-pure, Runs-ask, Runs-if, Runs-check, Runs-handle, Runs-bind, Runs-bind_free,
  Runs-weaken, Runs-map, runs_rules,
}
use kube_snapshot.Pod.Target.{pod_by_selector, get_target_pod}
use kube_snapshot.Pod.Image.{short_uuid, tag_with, with_random_tag, render_new_image_name}
use kube_snapshot.Pod.Tasks.{
  round_containers, task_for, running_status, list_task, create_and_list, snapshot_status,
  snapshot_container, snapshot_containers, reconcile_tasks,
}
use kube_snapshot.Pod.Sound.{
  lists_round, Reads, clock, uuid, pod, pods, Reads-Allows, Keeps, IsTaskOf, Allows, HasUuids,
  range_keys-Runs, append_snapshot-few, append_snapshot-some_by,
}

module _ (env : Env) (uuids : HasUuids env) where
  tag_with-Runs :
      (tag : String) (t : Time) (o : Option String)
      → (s : String) × (o ≡ some s)
      → Runs Reads Any (tag_with tag t o)
  unfolding tag_with
  tag_with-Runs tag t none (s, e) = cc
  tag_with-Runs tag t (some x) h = Runs-pure _ tt

  with_random_tag-Runs :
      (tag : String) (append : Bool) → Runs Reads Any (with_random_tag env tag append)
  unfolding with_random_tag
  with_random_tag-Runs tag append =
      Runs-if (not append) _ _ (λ _. Runs-pure tag tt)
        λ _.
          Runs-if (contains tag "snapped-") _ _ (λ _. Runs-pure tag tt)
            λ _. Runs-bind_free _ _ (Runs-ask now env.clock clock (λ tr. tt)) λ t.
              Runs-bind {Q = λ u. (s : String) × (short_uuid u ≡ some s)} _ _
                (Runs-ask new_uuid env.uuid uuid uuids.at)
                λ u short. tag_with-Runs tag t (short_uuid u) short

  pub render-Runs :
      (origin format : String) (append : Bool)
      → Runs Reads Any (render_new_image_name env origin format append)
  unfolding render_new_image_name
  render-Runs origin format append =
      search (runs_rules, range_keys-Runs env, with_random_tag-Runs, tt {0}) depth 9

pod_by_selector-Runs :
    (env : Env) (sp : SnapshotPod) (o : Option (List (String × String)))
    → Runs Reads Any (pod_by_selector env sp o)
unfolding pod_by_selector
pod_by_selector-Runs env sp none = Runs-pure _ tt
pod_by_selector-Runs env sp (some selector) = search (runs_rules, pods, tt {0}) depth 9

pub get_target_pod-Runs : (env : Env) (sp : SnapshotPod) → Runs Reads Any (get_target_pod env sp)
unfolding get_target_pod
get_target_pod-Runs env sp =
    search (runs_rules, pod, pod_by_selector-Runs env sp sp.spec.target.selector, tt {0}) depth 7

-- What becomes of the object: it is kept, and either its snapshots are as before or the round is
-- among them.
pub record Lists (sp₀ sp u : SnapshotPod) : Type 0 where
  pub keeps : Keeps sp₀ u
  pub either : (u ≡ sp) ⊎ (lists_round u ≡ true)

abbrev pub ListsFor : SnapshotPod → SnapshotPod → SnapshotPod × Option Error → Type 0
ListsFor sp₀ sp (u, failure) = Lists sp₀ sp u

Lists-refl : {sp₀ sp : SnapshotPod} → Keeps sp₀ sp → Lists sp₀ sp sp
Lists-refl k = record { keeps = k; either = inl refl }

Lists-trans : {sp₀ sp u v : SnapshotPod} → Lists sp₀ sp u → Lists sp₀ u v → Lists sp₀ sp v
Lists-trans {sp₀} {sp} {u} {v} a b = elim b.either [
  | inr listed ↦ record { keeps = b.keeps; either = inr listed }
  | inl e ↦ subst (λ x. Lists sp₀ sp x) (sym e) a
]

module _ (env : Env) {sp₀ : SnapshotPod} where
  list_task-Lists :
      (sp : SnapshotPod) (c : String) (t : SnapshotPodTask)
      → Keeps sp₀ sp
      → Runs (Allows sp₀) (ListsFor sp₀ sp) (list_task env sp c t)
  unfolding list_task running_status
  list_task-Lists sp c t k = Runs-bind_free _ _ (Runs-ask now env.clock tt (λ tr. tt)) λ at.
      Runs-pure _ (record {
        keeps = record {
          same_meta = k.same_meta;
          same_spec = k.same_spec;
          few = append_snapshot-few sp.status.snapshots (running_status env sp c t at);
        };
        either = inr (
            append_snapshot-some_by
              (λ (s : SnapshotRunningStatus). s.trigger_round ==ℤ sp.spec.trigger_round)
              sp.status.snapshots (running_status env sp c t at) (==ℤ_refl sp.spec.trigger_round));
      })

  task_for-IsTaskOf :
      (sp : SnapshotPod) (p : PodObject) (c : String) (cs : ContainerStatus) (image : String)
      → Keeps sp₀ sp
      → IsTaskOf sp₀ (task_for env sp p c cs image)
  unfolding task_for
  task_for-IsTaskOf sp p c cs image k = record {
    same_namespace = ap (λ m. m.namespace) k.same_meta;
    labelled = rw k.same_meta refl;
    container = c;
    named = rw (k.same_meta, k.same_spec) refl;
  }

  create_and_list-Lists :
      (sp : SnapshotPod) (c : String) (t : SnapshotPodTask)
      → Keeps sp₀ sp
      → IsTaskOf sp₀ t
      → Runs (Allows sp₀) (ListsFor sp₀ sp) (create_and_list env sp c t)
  unfolding create_and_list
  create_and_list-Lists sp c t k is_task =
      Runs-bind_free _ _ (Runs-ask (create_task t) _ is_task (λ tr. tt)) λ made.
        Runs-handle made _ _
          (λ e.
            Runs-if (is_already_exists e) _ (pure (sp, some e)) (λ _. list_task-Lists sp c t k)
              (λ _. Runs-pure (sp, some e) (Lists-refl k)))
          (λ stored _. list_task-Lists sp c stored k)

module _ (env : Env) (uuids : HasUuids env) {sp₀ : SnapshotPod} where
  snapshot_status-Lists :
      (sp : SnapshotPod) (p : PodObject) (c : String) (found : List ContainerStatus)
      → Keeps sp₀ sp
      → Runs (Allows sp₀) (ListsFor sp₀ sp) (snapshot_status env sp p c found)
  unfolding snapshot_status
  snapshot_status-Lists sp p c [] k = Runs-pure _ (Lists-refl k)
  snapshot_status-Lists sp p c (cs ∷ others) k =
      Runs-if (is_empty cs.container_id) _ _ (λ _. Runs-pure (sp, some _) (Lists-refl k))
        λ _.
          Runs-bind_free _ _ (Runs-map (Reads-Allows _) (render-Runs env uuids _ _ _)) λ rendered.
            Runs-handle rendered _ _ (λ e. Runs-pure (sp, some e) (Lists-refl k))
              λ image _.
                create_and_list-Lists env sp c (task_for env sp p c cs image) k
                  (task_for-IsTaskOf env sp p c cs image k)

  snapshot_containers-Lists :
      (sp : SnapshotPod) (p : PodObject) (cs : List String)
      → Keeps sp₀ sp
      → Runs (Allows sp₀) (ListsFor sp₀ sp) (snapshot_containers env sp p cs)
  unfolding snapshot_containers snapshot_container
  snapshot_containers-Lists sp p [] k = Runs-pure _ (Lists-refl k)
  snapshot_containers-Lists sp p (c ∷ cs) k =
      Runs-bind _ _ (snapshot_status-Lists sp p c _ k) λ (u, failure) l.
        Runs-check failure _ _ (λ e. Runs-pure _ l)
          λ _. Runs-weaken (λ (v, f) m. Lists-trans l m) (snapshot_containers-Lists u p cs l.keeps)

-- The object after a call that found its round listed: the round is closed.
abbrev pub closed : SnapshotPod → SnapshotPod
closed sp = record sp { status = record sp.status { last_trigger_round = sp.spec.trigger_round } }

-- the call that finds the round listed, or closed before
pub listed_closes :
    (env : Env) (sp : SnapshotPod) (tr : Trace)
    → lists_round sp ≡ true
    → reconcile_tasks env sp tr ≡ (returns (closed sp, none), tr)
unfolding reconcile_tasks ◌>>=◌
listed_closes env sp tr listed =
    ground (arith, listed, ==ℤ_iff sp.status.last_trigger_round sp.spec.trigger_round)

abbrev pub Settles : Env → SnapshotPod → SnapshotPod → SnapshotPod × Option Error → Type 0
Settles env sp₀ sp (u, failure) =
    Keeps sp₀ u
    × ((u ≡ sp) ⊎ ((tr : Trace) → reconcile_tasks env u tr ≡ (returns (closed u, none), tr)))

Lists-Settles :
    (env : Env) {sp₀ sp : SnapshotPod} (u : SnapshotPod × Option Error)
    → ListsFor sp₀ sp u
    → Settles env sp₀ sp u
Lists-Settles env (u, failure) l = elim l.either [
  | inl e ↦ (l.keeps, inl e)
  | inr listed ↦ (l.keeps, inr (λ tr. listed_closes env u tr listed))
]

-- From an object with at most twenty snapshots, and where a uuid has eight characters besides its
-- dashes, `reconcileTasks` returns, creates only tasks of the object, and leaves at most twenty
-- snapshots; and where it changes the object at all, with an error or without, the next call
-- makes no call: it closes the round.
pub reconcile_tasks-Settles :
    (env : Env)
    → HasUuids env
    → (sp₀ sp : SnapshotPod) → Keeps sp₀ sp
    → Runs (Allows sp₀) (Settles env sp₀ sp) (reconcile_tasks env sp)
unfolding reconcile_tasks
reconcile_tasks-Settles env uuids sp₀ sp k =
    Runs-if (sp.status.last_trigger_round ==ℤ sp.spec.trigger_round) (pure (sp, none)) _
      (λ _. Runs-pure (sp, none) (k, inl refl))
      λ _.
        Runs-if (lists_round sp) (pure (closed sp, none)) _
          (λ listed.
            Runs-pure (closed sp, none)
              (
                record { same_meta = k.same_meta; same_spec = k.same_spec; few = k.few },
                inr (λ tr. listed_closes env (closed sp) tr listed),
              ))
          λ _. Runs-bind_free _ _ (Runs-map (Reads-Allows _) (get_target_pod-Runs env sp)) λ got.
            Runs-handle got _ _ (λ e. Runs-pure (sp, some e) (k, inl refl))
              λ p _.
                Runs-weaken (Lists-Settles env)
                  (snapshot_containers-Lists env uuids sp p (round_containers sp p) k)
