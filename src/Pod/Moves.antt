-- ===== src/Pod/Moves.antt =====
-- internal/controller/snapshotpod_controller.go: each step of `Reconcile` moves the object as the
-- machine of its round does.
use kube_snapshot.Base.{
  String, ◌≡◌, refl, sym, ◌∙◌, ap, Bool, true, false, Option, none, some, List, [], ◌∷◌, map,
  some_by, All, Pairwise,
}
use mathlib.Core.Path.{subst}
use kube_snapshot.Base.Int.{◌==ℤ◌}
use kube_snapshot.Api.{
  SnapshotRunningResult, created, running, failed, succeed, result_other, ObjectMeta, SnapshotPod,
  SnapshotPodSpec, SnapshotPodTask, SnapshotRunningStatus, SnapshotPodTaskPhase, phase_created,
  phase_completed, phase_failed, phase_other, snapshot_name_label,
}
use kube_snapshot.World.{Trace, Env, Error, ok, now, pure}
use kube_snapshot.World.Logic.{
  Runs, Runs-pure, Runs-ask, Runs-if, Runs-handle, Runs-bind, Runs-bind_free, Runs-map, Runs-weaken,
}
use kube_snapshot.Pod.Target.{check_containers, validate}
use kube_snapshot.Pod.Tasks.{with_snapshots, round_containers, reconcile_tasks}
use kube_snapshot.Pod.Status.{
  is_ended, task_named, copy_phase, copy_task, copy_tasks, reconcile_tasks_status,
}
use kube_snapshot.Pod.Sound.{clock, tasks, HasUuids, lists_round}
use kube_snapshot.Pod.Containers.{closed, get_target_pod-Runs}
use kube_snapshot.Pod.Appends.{Creates, reads, ListsNew, snapshot_containers-New, some_by-entry}
use kube_snapshot.Pod.Machine.{
  is_final, entry, View, view, has_round, IsNew, Next, stays, succeeds, fails, lost, Step, list,
  close, follow, Reach, go,
}

-- A listing of the object's tasks gave a task of that name, in that phase.
pub record Seen (env : Env) (name task : String) (phase : SnapshotPodTaskPhase) : Type 0 where
  pub before : Trace
  pub given : List SnapshotPodTask
  pub listed : env.tasks_with before ((snapshot_name_label, name) ∷ []) ≡ ok given
  pub one : SnapshotPodTask
  pub found : task_named task given ≡ some one
  pub in_phase : one.status.phase ≡ phase

-- The object is the one of the call, and its view is reached from the first one.
pub record Tracks (env : Env) (sp u : SnapshotPod) : Type 0 where
  pub same_meta : u.meta ≡ sp.meta
  pub same_spec : u.spec ≡ sp.spec
  pub reached : Reach (Seen env sp.meta.name) sp.spec.trigger_round (view sp) (view u)

-- the same, and the conditions of `sp` were left alone
abbrev pub Moved : Env → SnapshotPod → SnapshotPod → SnapshotPod × Option Error → Type 0
Moved env sp₀ sp x = Tracks env sp₀ x.0 × (x.0.status.conditions ≡ sp.status.conditions)

is_final_lem : (r : SnapshotRunningResult) → is_final r ≡ is_ended r
is_final_lem created = refl
is_final_lem running = refl
is_final_lem failed = refl
is_final_lem succeed = refl
is_final_lem (result_other s) = refl

module _ (env : Env) (name : String) where
  copy_phase-Next :
      (s : SnapshotRunningStatus) (t : SnapshotPodTask) (phase : SnapshotPodTaskPhase)
      → is_final s.result ≡ false
      → Seen env name s.task_name phase
      → Runs Creates (λ s'. Next (Seen env name) (entry s) (entry s')) (copy_phase env s t phase)
  unfolding copy_phase
  copy_phase-Next s t phase_completed live seen =
      Runs-bind_free _ _ (Runs-ask now env.clock (reads clock) (λ tr. tt))
        λ at. Runs-pure _ (succeeds live seen)
  copy_phase-Next s t phase_failed live seen = Runs-pure _ (fails live seen)
  copy_phase-Next s t phase_created live seen = Runs-pure s stays
  copy_phase-Next s t (phase_other p) live seen = Runs-pure s stays

  module _ (before : Trace) (given : List SnapshotPodTask)
      (listed : env.tasks_with before ((snapshot_name_label, name) ∷ []) ≡ ok given) where
    copy_task-Next :
        (s : SnapshotRunningStatus) (o : Option SnapshotPodTask)
        → task_named s.task_name given ≡ o
        → is_final s.result ≡ false
        → Runs Creates (λ s'. Next (Seen env name) (entry s) (entry s')) (copy_task env s o)
    unfolding copy_task
    copy_task-Next s none found live = Runs-pure _ (lost live)
    copy_task-Next s (some t) found live = copy_phase-Next s t t.status.phase live (record {
      before = before;
      given = given;
      listed = listed;
      one = t;
      found = found;
      in_phase = refl;
    })

    copy_tasks-Next :
        (ss : List SnapshotRunningStatus)
        → Runs Creates
            (λ ss'. Pairwise (Next (Seen env name)) (map entry ss) (map entry ss'))
            (copy_tasks env given ss)
    unfolding copy_tasks
    copy_tasks-Next [] = Runs-pure [] tt
    copy_tasks-Next (s ∷ ss) =
        Runs-bind _ _
          (Runs-if (is_ended s.result) _ _ (λ _. Runs-pure s stays)
            (λ live.
              copy_task-Next s (task_named s.task_name given) refl (is_final_lem s.result ∙ live)))
          λ s' f. Runs-bind _ _ (copy_tasks-Next ss) λ ss' fs. Runs-pure (s' ∷ ss') (f, fs)

module _ (env : Env) {sp₀ : SnapshotPod} where
  Tracks-step :
      {sp u : SnapshotPod}
      → Tracks env sp₀ sp
      → u.meta ≡ sp.meta
      → u.spec ≡ sp.spec
      → Step (Seen env sp₀.meta.name) sp₀.spec.trigger_round (view sp) (view u)
      → Tracks env sp₀ u
  Tracks-step k same_meta same_spec s = record {
    same_meta = same_meta ∙ k.same_meta;
    same_spec = same_spec ∙ k.same_spec;
    reached = go k.reached s;
  }

  round-of : {sp : SnapshotPod} → Tracks env sp₀ sp → sp.spec.trigger_round ≡ sp₀.spec.trigger_round
  round-of k = ap (λ (s : SnapshotPodSpec). s.trigger_round) k.same_spec

  module _ {sp : SnapshotPod} (k : Tracks env sp₀ sp)
      (open_round : (sp.status.last_trigger_round ==ℤ sp.spec.trigger_round) ≡ false) where
    open-round : (sp.status.last_trigger_round ==ℤ sp₀.spec.trigger_round) ≡ false
    open-round = ap (λ r. sp.status.last_trigger_round ==ℤ r) (sym (round-of k)) ∙ open_round

    has_round-of :
        {b : Bool}
        → lists_round sp ≡ b
        → has_round sp₀.spec.trigger_round (map entry sp.status.snapshots) ≡ b
    has_round-of e =
        sym (some_by-entry sp₀.spec.trigger_round sp.status.snapshots)
        ∙ ap
            (λ r.
              some_by (λ (s : SnapshotRunningStatus). s.trigger_round ==ℤ r) sp.status.snapshots)
            (sym (round-of k))
        ∙ e

    ListsNew-Tracks : {u : SnapshotPod} → lists_round sp ≡ false → ListsNew sp u → Tracks env sp₀ u
    ListsNew-Tracks {u} unlisted l = Tracks-step k l.same_meta l.same_spec (
        subst (λ (v : View). Step (Seen env sp₀.meta.name) sp₀.spec.trigger_round (view sp) v)
          (λ i. record { entries = sym l.appended i; last = sym l.same_last i })
          (list (view sp) l.new open-round (has_round-of unlisted)
            (subst (λ r. All (IsNew r) l.new) (round-of k) l.all_new)))

    closed-Tracks : lists_round sp ≡ true → Tracks env sp₀ (closed sp)
    closed-Tracks listed = Tracks-step k refl refl (
        subst (λ (v : View). Step (Seen env sp₀.meta.name) sp₀.spec.trigger_round (view sp) v)
          (λ i. record (view sp) { last = sym (round-of k) i })
          (close (view sp) open-round (has_round-of listed)))

  pub reconcile_tasks-Tracks :
      HasUuids env
      → (sp : SnapshotPod) → Tracks env sp₀ sp
      → Runs Creates (Moved env sp₀ sp) (reconcile_tasks env sp)
  unfolding reconcile_tasks
  reconcile_tasks-Tracks uuids sp k =
      Runs-if (sp.status.last_trigger_round ==ℤ sp.spec.trigger_round) (pure (sp, none)) _
        (λ _. Runs-pure (sp, none) (k, refl))
        λ open_round.
          Runs-if (lists_round sp) (pure (closed sp, none)) _
            (λ listed. Runs-pure (closed sp, none) (closed-Tracks k open_round listed, refl))
            λ unlisted.
              Runs-bind_free _ _ (Runs-map (λ c. reads) (get_target_pod-Runs env sp)) λ got.
                Runs-handle got _ _ (λ e. Runs-pure (sp, some e) (k, refl))
                  λ p _.
                    Runs-weaken
                      (λ x l. (ListsNew-Tracks k open_round unlisted l, l.same_conditions))
                      (snapshot_containers-New env uuids sp p (round_containers sp p))

  pub validate-Tracks :
      (sp : SnapshotPod) → Tracks env sp₀ sp → Runs Creates (Moved env sp₀ sp) (validate env sp)
  unfolding validate
  validate-Tracks sp k =
      Runs-if (sp.status.last_trigger_round ==ℤ sp.spec.trigger_round) (pure (sp, none)) _
        (λ _. Runs-pure (sp, none) (k, refl))
        λ _. Runs-bind_free _ _ (Runs-map (λ c. reads) (get_target_pod-Runs env sp)) λ got.
          Runs-handle got _ _ (λ e. Runs-pure (sp, some e) (k, refl))
            λ p _. Runs-pure (sp, check_containers env sp.spec.target.containers p) (k, refl)

  pub reconcile_tasks_status-Tracks :
      (sp : SnapshotPod)
      → Tracks env sp₀ sp
      → Runs Creates (Moved env sp₀ sp) (reconcile_tasks_status env sp)
  unfolding reconcile_tasks_status
  reconcile_tasks_status-Tracks sp k =
      let name_of = λ (m : ObjectMeta). m.name in
      Runs-bind
        {Q = λ r. (tr : Trace) × (r ≡ env.tasks_with tr ((snapshot_name_label, sp.meta.name) ∷ []))}
        _ _ (Runs-ask _ _ (reads (tasks _)) (λ tr. (tr, refl)))
        λ listed (tr, from).
          Runs-handle listed _ _ (λ e. Runs-pure (sp, some e) (k, refl))
            λ ts is.
              Runs-bind _ _
                (copy_tasks-Next env sp₀.meta.name tr ts
                  (ap (λ (m : ObjectMeta). env.tasks_with tr ((snapshot_name_label, m.name) ∷ []))
                      (sym k.same_meta)
                    ∙ sym from
                    ∙ is)
                  sp.status.snapshots)
                λ ss next.
                  Runs-pure (with_snapshots sp ss, none)
                    (Tracks-step k refl refl (follow (view sp) (map entry ss) next), refl)
