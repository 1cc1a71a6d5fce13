-- ===== src/Pod/Closing.antt =====
-- internal/controller/snapshotpod_controller.go: the three steps of `Reconcile` for a round that is
-- listed, once its tasks have ended.
use kube_snapshot.Base.{
  ◌≡◌, refl, sym, ◌∙◌, ap, Bool, true, Option, none, List, [], ◌∷◌, ◌⊎◌, inl, inr, All,
  contains_text,
}
use mathlib.Core.Bool.{true≢false}
use mathlib.Core.Path.{subst}
use kube_snapshot.Base.Int.{◌==ℤ◌, ==ℤ_refl, ==ℤ_iff}
use kube_snapshot.Api.{
  ObjectMeta, SnapshotPod, SnapshotPodSpec, SnapshotPodTask, SnapshotRunningStatus, PodObject,
  snapshot_name_label,
}
use kube_snapshot.World.{
  Call, Trace, Env, Error, Result, ok, Exit, returns, pure, list_tasks, ◌>>=◌,
}
use kube_snapshot.World.Logic.{Runs, Returns, Runs-pure, Runs-if, Runs-bind}
use kube_snapshot.World.State.{Holds, After, Holds-pure, Holds-bind, Holds-Runs, Holds-given}
use kube_snapshot.Pod.Target.{
  container_names, check_containers, pod_by_selector, get_target_pod, validate,
}
use kube_snapshot.Pod.Tasks.{with_snapshots, reconcile_tasks}
use kube_snapshot.Pod.Status.{is_ended, copy_tasks, reconcile_tasks_status}
use kube_snapshot.Pod.Sound.{Reads, lists_round}
use kube_snapshot.Pod.Choice.{without-nil}
use kube_snapshot.Pod.Containers.{closed, listed_closes, get_target_pod-Runs}
use kube_snapshot.Pod.Ends.{CanEnd, copy_tasks-ended}
use kube_snapshot.Pod.Passes.{Fine, Passes}

-- the round of the spec is closed
abbrev pub is_closed : SnapshotPod → Bool
is_closed sp = sp.status.last_trigger_round ==ℤ sp.spec.trigger_round

-- The target is found whenever it is looked up, and has the containers that it names.
abbrev pub HasTarget : Env → SnapshotPod → Type 0
HasTarget env sp =
    (tr : Trace)
    → (p : PodObject) × ((get_target_pod env sp tr).0 ≡ returns (ok p))
      × All (λ c. contains_text (container_names p) c ≡ true) sp.spec.target.containers

-- the same object, but for its conditions
pub record Alike (sp u : SnapshotPod) : Type 0 where
  pub same_meta : u.meta ≡ sp.meta
  pub same_spec : u.spec ≡ sp.spec
  pub same_last : u.status.last_trigger_round ≡ sp.status.last_trigger_round
  pub same_snapshots : u.status.snapshots ≡ sp.status.snapshots

pub Alike-refl : (sp : SnapshotPod) → Alike sp sp
Alike-refl sp = record {
  same_meta = refl;
  same_spec = refl;
  same_last = refl;
  same_snapshots = refl;
}

-- its round is closed, and its snapshots have ended
pub record Ended (sp u : SnapshotPod) : Type 0 where
  pub same_meta : u.meta ≡ sp.meta
  pub same_spec : u.spec ≡ sp.spec
  pub over : is_closed u ≡ true
  pub all_ended : All (λ (s : SnapshotRunningStatus). is_ended s.result ≡ true) u.status.snapshots

pub Alike-is_closed : {sp u : SnapshotPod} → Alike sp u → is_closed u ≡ is_closed sp
Alike-is_closed k = rw (k.same_last, k.same_spec) refl

pub Alike-lists_round : {sp u : SnapshotPod} → Alike sp u → lists_round u ≡ lists_round sp
Alike-lists_round k = rw (k.same_snapshots, k.same_spec) refl

module _ (env : Env) {sp : SnapshotPod} where
  target_same : {u : SnapshotPod} → Alike sp u → get_target_pod env u ≡ get_target_pod env sp
  unfolding get_target_pod pod_by_selector
  target_same k = rw (k.same_spec, k.same_meta) refl

  pub target-Runs :
      {u : SnapshotPod} (Good : PodObject → Type 0)
      → Alike sp u
      → ((tr : Trace) → (p : PodObject) × ((get_target_pod env sp tr).0 ≡ returns (ok p)) × Good p)
      → Runs Reads
          (λ (got : Result PodObject). (p : PodObject) × (got ≡ ok p) × Good p)
          (get_target_pod env u)
  target-Runs {u} Good k target = record {
    calls = (get_target_pod-Runs env u).calls;
    result = λ tr.
        let (p, found, good) = target tr in
        subst (Returns (λ (got : Result PodObject). (p : PodObject) × (got ≡ ok p) × Good p))
          (sym (ap (λ m. (m tr).0) (target_same k) ∙ found)) (p, refl, good);
  }

  pub validate_passes :
      (is_closed sp ≡ true) ⊎ HasTarget env sp
      → (u : SnapshotPod) → Alike sp u
      → Runs Reads
          (λ (x : SnapshotPod × Option Error).
            (x.1 ≡ none) × (x.0.status.conditions ≡ u.status.conditions) × Alike sp x.0)
          (validate env u)
  unfolding validate check_containers
  validate_passes can u k =
      Runs-if (is_closed u) (pure (u, none)) _ (λ _. Runs-pure (u, none) (refl, refl, k))
        λ open_round. elim can [
          | inl over ↦ absurd (true≢false (sym over ∙ sym (Alike-is_closed k) ∙ open_round))
          | inr target ↦ Runs-bind _ _ (target-Runs _ k target) λ got (p, is, all_of).
              let all =
                subst
                  (λ (s : SnapshotPodSpec).
                    All (λ c. contains_text (container_names p) c ≡ true) s.target.containers)
                  (sym k.same_spec) all_of in
              rw is (
                Runs-pure _ (
                  rw
                      (
                        check_containers,
                        (without-nil u.spec.target.containers (container_names p)).1 all,
                      )
                      refl,
                  refl,
                  k,
                ))
        ]

  -- where the round is listed or closed
  tasks_close :
      (is_closed sp ≡ true) ⊎ (lists_round sp ≡ true)
      → (u : SnapshotPod) → Alike sp u
      → (tr : Trace)
      → (v : SnapshotPod) × (reconcile_tasks env u tr ≡ (returns (v, none), tr))
        × (v.status.conditions ≡ u.status.conditions)
        × Alike (closed sp) v
  unfolding reconcile_tasks ◌>>=◌
  tasks_close (inl over) u k tr =
      let done = Alike-is_closed k ∙ over in
      (
        u,
        rw done refl,
        refl,
        record {
          same_meta = k.same_meta;
          same_spec = k.same_spec;
          same_last = ==ℤ_iff _ _ done ∙ ap (λ (s : SnapshotPodSpec). s.trigger_round) k.same_spec;
          same_snapshots = k.same_snapshots;
        },
      )
  tasks_close (inr listed) u k tr = (
    closed u,
    listed_closes env u tr (Alike-lists_round k ∙ listed),
    refl,
    record {
      same_meta = k.same_meta;
      same_spec = k.same_spec;
      same_last = ap (λ (s : SnapshotPodSpec). s.trigger_round) k.same_spec;
      same_snapshots = k.same_snapshots;
    },
  )

-- a listing of the tasks that lets every snapshot of `sp` end
abbrev pub ListsEnds : Env → SnapshotPod → Trace → Type 0
ListsEnds env sp tr =
    (ts : List SnapshotPodTask) × (env.tasks_with tr ((snapshot_name_label, sp.meta.name) ∷ [])
      ≡ ok ts)
    × All (CanEnd ts) sp.status.snapshots

-- the steps in a world of which `I` holds, and later too
module _ (env : Env) (I : Trace → Type 0) (later : (c : Call) (tr : Trace) → I tr → I (c ∷ tr))
    (sp : SnapshotPod) where
  pub accept-Passes :
      (is_closed sp ≡ true) ⊎ HasTarget env sp
      → Passes I (Alike sp) (Alike sp) (record { typ = "Accept"; run = validate env })
  accept-Passes can u k = Holds-Runs I (λ c tr _. later c tr) (validate_passes env can u k)

  pub tasks-Passes :
      (is_closed sp ≡ true) ⊎ (lists_round sp ≡ true)
      → Passes I
          (Alike sp)
          (Alike (closed sp))
          (record { typ = "Tasks"; run = reconcile_tasks env })
  tasks-Passes can u k = record {
    at = λ tr i.
        let (v, e, same, l) = tasks_close env can u k tr in
        subst
          (λ (x : Exit (SnapshotPod × Option Error) × Trace).
            After (Fine I (Alike (closed sp)) u) x.0 x.1)
          (sym e) ((refl, same, l), i);
  }

  module _ (lists : (tr : Trace) → I tr → ListsEnds env sp tr) (u : SnapshotPod)
      (k : Alike (closed sp) u) where
    copied_ends :
        (ts : List SnapshotPodTask)
        → All (CanEnd ts) sp.status.snapshots
        → Holds I
            (copy_tasks env ts u.status.snapshots >>= λ ss. pure (with_snapshots u ss, none))
            (Fine I (Ended sp) u)
    copied_ends ts can =
        Holds-bind _ _
          (Holds-Runs I (λ c tr _. later c tr)
            (copy_tasks-ended env ts u.status.snapshots
              (subst (All (CanEnd ts)) (sym k.same_snapshots) can)))
          λ ss. Holds-given λ ended. Holds-pure _ (λ tr i. (
            (
              refl,
              refl,
              record {
                same_meta = k.same_meta;
                same_spec = k.same_spec;
                over = Alike-is_closed k ∙ ==ℤ_refl sp.spec.trigger_round;
                all_ended = ended;
              },
            ),
            i,
          ))

  pub status-Passes :
      ((tr : Trace) → I tr → ListsEnds env sp tr)
      → Passes I
          (Alike (closed sp))
          (Ended sp)
          (record { typ = "TaskStatus"; run = reconcile_tasks_status env })
  unfolding reconcile_tasks_status ◌>>=◌
  status-Passes lists u k = record {
    at = λ tr i.
        let (ts, listed, can) = lists tr i in
        let name_of : env.tasks_with tr ((snapshot_name_label, u.meta.name) ∷ []) ≡ ok ts =
          ap (λ (m : ObjectMeta). env.tasks_with tr ((snapshot_name_label, m.name) ∷ []))
            k.same_meta
          ∙ listed in
        rw name_of (
          (copied_ends lists u k ts can).at
            (list_tasks ((snapshot_name_label, u.meta.name) ∷ []) ∷ tr) (later _ _ i));
  }
