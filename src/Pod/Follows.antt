-- ===== src/Pod/Follows.antt =====
-- internal/controller/snapshotpod_controller.go: how the snapshots follow their tasks.
use kube_snapshot.Base.{
  ◌≡◌, ◌≢◌, refl, sym, ◌∙◌, ap, true, false, Option, none, some, List, [], ◌∷◌, ◌⊎◌, inl, inr,
  Pairwise,
}
use mathlib.Core.Bool.{true≢false}
use kube_snapshot.Base.AllLaws.{Pairwise-length}
use kube_snapshot.Api.{
  SnapshotPod, SnapshotPodTask, SnapshotRunningStatus, SnapshotPodTaskPhase, failed, succeed,
  phase_created, phase_completed, phase_failed, phase_other,
}
use kube_snapshot.World.{Env, Error, now}
use kube_snapshot.World.Logic.{
  Runs, Runs-pure, Runs-ask, Runs-if, Runs-handle, Runs-bind, Runs-bind_free, Runs-map,
}
use kube_snapshot.Pod.Tasks.{with_snapshots}
use kube_snapshot.Pod.Status.{
  is_ended, task_named, failure_reason, copy_phase, copy_task, copy_tasks, reconcile_tasks_status,
}
use kube_snapshot.Pod.Sound.{Keeps, Allows, Reads, clock, Reads-Allows}

-- A snapshot before and after, where `o` is the task of its name. One that has ended stays as it
-- is; otherwise it ends as its task did, and it succeeds in no other way.
pub record Follows (o : Option SnapshotPodTask) (s s' : SnapshotRunningStatus) : Type 0 where
  pub same_round : s'.trigger_round ≡ s.trigger_round
  pub same_task : s'.task_name ≡ s.task_name
  pub same_container : s'.container_name ≡ s.container_name
  pub same_image : s'.image_ref ≡ s.image_ref
  pub keeps : is_ended s.result ≡ true → s' ≡ s
  pub completed :
      (t : SnapshotPodTask)
      → is_ended s.result ≡ false
      → o ≡ some t
      → t.status.phase ≡ phase_completed
      → s'.result ≡ succeed
  pub fails :
      (t : SnapshotPodTask)
      → is_ended s.result ≡ false
      → o ≡ some t
      → t.status.phase ≡ phase_failed
      → (s'.result ≡ failed) × (s'.failed_reason ≡ failure_reason t)
  pub succeeds :
      s'.result ≡ succeed
      → (s.result ≡ succeed)
        ⊎ ((t : SnapshotPodTask) × (o ≡ some t) × (t.status.phase ≡ phase_completed))

ended-Follows :
    (o : Option SnapshotPodTask) (s : SnapshotRunningStatus)
    → is_ended s.result ≡ true
    → Follows o s s
ended-Follows o s e = record {
  same_round = refl;
  same_task = refl;
  same_container = refl;
  same_image = refl;
  keeps = λ _. refl;
  completed = λ t live is_t c. absurd (true≢false (sym e ∙ live));
  fails = λ t live is_t c. absurd (true≢false (sym e ∙ live));
  succeeds = λ h. inl h;
}

some-injective : {A : Type 0} {a b : A} → some a ≡ some b → a ≡ b
some-injective {A} {a} {b} e = ap (λ (o : Option A). elim o as (λ x. A) [ some x ↦ x | none ↦ a ]) e

-- a snapshot that has not ended, and whose task has not either
live-Follows :
    (t : SnapshotPodTask) (s : SnapshotRunningStatus)
    → is_ended s.result ≡ false
    → t.status.phase ≢ phase_completed
    → t.status.phase ≢ phase_failed
    → Follows (some t) s s
live-Follows t s live not_completed not_failed = record {
  same_round = refl;
  same_task = refl;
  same_container = refl;
  same_image = refl;
  keeps = λ _. refl;
  completed = λ u _ is_t c. absurd (not_completed (rw (some-injective is_t) c));
  fails = λ u _ is_t c. absurd (not_failed (rw (some-injective is_t) c));
  succeeds = λ h. inl h;
}

module _ (env : Env) where
  copy_phase-Follows :
      (s : SnapshotRunningStatus) (t : SnapshotPodTask) (phase : SnapshotPodTaskPhase)
      → is_ended s.result ≡ false
      → t.status.phase ≡ phase
      → Runs Reads (Follows (some t) s) (copy_phase env s t phase)
  unfolding copy_phase
  copy_phase-Follows s t phase_completed live e =
      Runs-bind_free _ _ (Runs-ask now env.clock clock (λ tr. tt)) λ at. Runs-pure _ (record {
        same_round = refl;
        same_task = refl;
        same_container = refl;
        same_image = refl;
        keeps = λ h. absurd (true≢false (sym h ∙ live));
        completed = λ u _ is_t c. refl;
        fails = λ u _ is_t f. cc (e, is_t, f);
        succeeds = λ h. inr (t, refl, e);
      })
  copy_phase-Follows s t phase_failed live e = Runs-pure _ (record {
    same_round = refl;
    same_task = refl;
    same_container = refl;
    same_image = refl;
    keeps = λ h. absurd (true≢false (sym h ∙ live));
    completed = λ u _ is_t c. cc (e, is_t, c);
    fails = λ u _ is_t f. (refl, ap failure_reason (some-injective is_t));
    succeeds = λ h. cc h;
  })
  copy_phase-Follows s t phase_created live e =
      Runs-pure s (live-Follows t s live (λ c. cc (e, c)) (λ c. cc (e, c)))
  copy_phase-Follows s t (phase_other p) live e =
      Runs-pure s (live-Follows t s live (λ c. cc (e, c)) (λ c. cc (e, c)))

  copy_task-Follows :
      (s : SnapshotRunningStatus) (o : Option SnapshotPodTask)
      → is_ended s.result ≡ false
      → Runs Reads (Follows o s) (copy_task env s o)
  unfolding copy_task
  copy_task-Follows s none live = Runs-pure _ (record {
    same_round = refl;
    same_task = refl;
    same_container = refl;
    same_image = refl;
    keeps = λ h. absurd (true≢false (sym h ∙ live));
    completed = λ u _ is_t c. cc is_t;
    fails = λ u _ is_t f. cc is_t;
    succeeds = λ h. cc h;
  })
  copy_task-Follows s (some t) live = copy_phase-Follows s t t.status.phase live refl

  -- The loop over the snapshots returns, and every snapshot follows the task of its name: one
  -- that has ended stays as it is, another ends as its task did, and it succeeds in no other way.
  pub copy_tasks-Follows :
      (ts : List SnapshotPodTask) (ss : List SnapshotRunningStatus)
      → Runs Reads (Pairwise (λ s. Follows (task_named s.task_name ts) s) ss) (copy_tasks env ts ss)
  unfolding copy_tasks
  copy_tasks-Follows ts [] = Runs-pure [] tt
  copy_tasks-Follows ts (s ∷ ss) =
      Runs-bind _ _
        (Runs-if (is_ended s.result) _ _
          (λ ended. Runs-pure s (ended-Follows (task_named s.task_name ts) s ended))
          (λ live. copy_task-Follows s (task_named s.task_name ts) live))
        λ s' f. Runs-bind _ _ (copy_tasks-Follows ts ss) λ ss' fs. Runs-pure (s' ∷ ss') (f, fs)

  pub reconcile_tasks_status-Keeps :
      {sp₀ : SnapshotPod} (sp : SnapshotPod)
      → Keeps sp₀ sp
      → Runs
          (Allows sp₀)
          (λ (x : SnapshotPod × Option Error). Keeps sp₀ x.0)
          (reconcile_tasks_status env sp)
  unfolding reconcile_tasks_status
  reconcile_tasks_status-Keeps sp k = Runs-bind_free _ _ (Runs-ask _ _ tt (λ tr. tt)) λ listed.
      Runs-handle listed _ _ (λ e. Runs-pure (sp, some e) k)
        λ ts _.
          Runs-bind _ _ (Runs-map (Reads-Allows _) (copy_tasks-Follows ts sp.status.snapshots))
            λ ss fs.
              Runs-pure (with_snapshots sp ss, none)
                (record {
                  same_meta = k.same_meta;
                  same_spec = k.same_spec;
                  few = rw (Pairwise-length _ sp.status.snapshots ss fs) k.few;
                })
