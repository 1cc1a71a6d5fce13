-- ===== src/Task/Moves.antt =====
-- The end of `Reconcile` against a server that holds the task: the task ends, or one of its
-- retries is used.
use kube_snapshot.Base.{
  ℕ, suc, ◌≤◌, ◌<◌, String, ◌≡◌, refl, sym, ◌∙◌, ap, true, false, Option, none, some, List, [], ◌∷◌,
  ◌⊎◌, inl, inr, every_by, arith, Bool-cases,
}
use mathlib.Core.Path.{subst}
use kube_snapshot.Base.Int.{pos}
use kube_snapshot.Api.{
  Time, Condition, is_cond_true, SnapshotPodTask, SnapshotPodTaskSpec, ObjectKey, phase_completed,
  ReconcileResult,
}
use kube_snapshot.World.{Env, Error, ok, M, ask}
use kube_snapshot.World.Logic.{
  Runs, Runs-pure, Runs-if, Runs-bind, Runs-both, Runs-weaken, runs_rules,
}
use kube_snapshot.World.State.{Holds, Holds-bind, Holds-Runs, Holds-weaken}
use kube_snapshot.Metrics.{record_snapshot_task_retry, record_task_failed}
use kube_snapshot.Task.Loop.{update_status}
use kube_snapshot.Task.Reconcile.{
  effective_max_retries, is_terminal, clamp_retries, some_unfinished, count_retry, update_phase,
  conclude, finish_task,
}
use kube_snapshot.Task.Steps.{get_snapshot_name}
use kube_snapshot.Task.Progress.{Writes, SameTask, Kept}
use kube_snapshot.Task.Order.{conclude-Runs}
use kube_snapshot.Task.Outcome.{fetched}
use kube_snapshot.Task.Retries.{Free, IsSpent, Retried, count_retry-Retried}
use kube_snapshot.Condition.Types.{types}
use kube_snapshot.Task.Types.{InSteps, SameTask-types}
use kube_snapshot.Task.Server.{Server, Nothing}
use kube_snapshot.Task.Served.{all_true}

-- COMPLETED, or FAILED with the budget `max` of retries used up
abbrev pub IsEnded : ℕ → SnapshotPodTask → Type 0
IsEnded max u = (u.status.phase ≡ phase_completed) ⊎ IsSpent max u

-- the retry after `c` of `max`
pub record Waits (max c : ℕ) (u : SnapshotPodTask) : Type 0 where
  pub live : is_terminal u.status.phase ≡ false
  pub counted : u.status.retry_count ≡ pos (suc c)
  pub left : suc c < max

-- What `Reconcile` makes of the task `t` after `c` retries of `max`
pub record Moves (max c : ℕ) (t u : SnapshotPodTask) : Type 0 where
  pub same_spec : u.spec ≡ t.spec
  pub in_steps : InSteps (types u.status.conditions)
  pub outcome : IsEnded max u ⊎ Waits max c u

pub Moves-SameTask :
    {max c : ℕ} {t u v : SnapshotPodTask} → Moves max c t u → SameTask u v → Moves max c t v
Moves-SameTask {max} {c} m s = record {
  same_spec = s.same_spec ∙ m.same_spec;
  in_steps = subst InSteps (sym (SameTask-types s)) m.in_steps;
  outcome = elim m.outcome [
    | inl (inl e) ↦ inl (inl (s.same_phase ∙ e))
    | inl (inr x) ↦ inl (
        inr (record {
          failing = s.same_phase ∙ x.failing;
          all_counted = s.same_retries ∙ x.all_counted;
        }))
    | inr w ↦ inr (record {
      live = ap is_terminal s.same_phase ∙ w.live;
      counted = s.same_retries ∙ w.counted;
      left = w.left;
    })
  ];
}

module _ (env : Env) where
  -- After an error, a condition that is not true asks for another run.
  pub unfinished-true :
      (e : Error) (cs : List Condition)
      → every_by (λ (c : Condition). is_cond_true c.status) cs ≡ false
      → Runs Free (λ b. b ≡ true) (some_unfinished env (some e) cs)
  unfolding some_unfinished
  unfinished-true e [] h = cc
  unfinished-true e (c ∷ cs) h =
      Runs-if (is_cond_true c.status) _ _ (λ d. unfinished-true e cs (ground arith))
        (λ d. Runs-pure true refl)

  count_retry-spec :
      (s : SnapshotPodTask) (snapshot : String)
      → Runs Free (λ (u : SnapshotPodTask). u.spec ≡ s.spec) (count_retry env s snapshot)
  unfolding count_retry record_snapshot_task_retry record_task_failed
  count_retry-spec s snapshot = search (runs_rules, tt {0}) depth 12

  pub count_retry-conditions :
      (s : SnapshotPodTask) (snapshot : String)
      → Runs Free
          (λ (u : SnapshotPodTask). u.status.conditions ≡ s.status.conditions)
          (count_retry env s snapshot)
  unfolding count_retry record_snapshot_task_retry record_task_failed
  count_retry-conditions s snapshot = search (runs_rules, tt {0}) depth 12

  module _ (max c : ℕ) (small : max ≤ 2147483647) (t s : SnapshotPodTask) (k : Kept (fetched t) s)
      (at : effective_max_retries t.spec.max_retries ≡ pos max)
      (count : clamp_retries t.status.retry_count ≡ pos c) (within : c < max)
      (live : is_terminal t.status.phase ≡ false) (i : InSteps (types s.status.conditions)) where
    retry_step-Moves :
        (u : SnapshotPodTask)
        → Retried max c u
        → (u.spec ≡ s.spec) × (u.status.conditions ≡ s.status.conditions)
        → Moves max c t u
    retry_step-Moves u r (spec, conditions) = record {
      same_spec = spec ∙ k.same_spec;
      in_steps = subst (λ cs. InSteps (types cs)) (sym conditions) i;
      outcome = elim (Bool-cases (is_terminal u.status.phase)) [
        | inl ended ↦ inl (inr (r.ended ended))
        | inr more ↦ inr (record { live = more; counted = r.counted; left = r.left more })
      ];
    }

    count_retry-Moves : (snapshot : String) → Runs Free (Moves max c t) (count_retry env s snapshot)
    count_retry-Moves snapshot =
        Runs-weaken (λ u (r, same). retry_step-Moves u r same)
          (Runs-both
            (count_retry-Retried env snapshot max small s c
              (ap (λ (x : SnapshotPodTaskSpec). effective_max_retries x.max_retries) k.same_spec
                ∙ at)
              (k.same_retries ∙ count) within (ap is_terminal k.same_phase ∙ live))
            (Runs-both (count_retry-spec s snapshot) (count_retry-conditions s snapshot)))

    completed-Moves :
        Moves max c t (record s { status = record s.status { phase = phase_completed } })
    completed-Moves = record { same_spec = k.same_spec; in_steps = i; outcome = inl (inl refl) }

    pub update_phase-passed :
        all_true s ≡ true → Runs Free (Moves max c t) (update_phase env s none)
    unfolding update_phase
    update_phase-passed every = rw every (Runs-pure _ completed-Moves)

    pub update_phase-failed :
        (e : Error) → all_true s ≡ false → Runs Free (Moves max c t) (update_phase env s (some e))
    unfolding update_phase
    update_phase-failed e every = rw every (
        Runs-bind _ _ (unfinished-true e s.status.conditions every)
          λ b is_true. rw is_true (count_retry-Moves (get_snapshot_name s)))

module _ {env : Env} {key : ObjectKey} (sv : Server env key) where
  -- an action that submits no status leaves what the server holds
  pub Holds-quiet :
      {A : Type 0} {Q : A → Type 0} {m : M A} (I : SnapshotPodTask → Type 0)
      → Runs (Writes Nothing) Q m
      → Holds (λ tr. I (sv.stored tr)) m (λ a tr. Q a × I (sv.stored tr))
  Holds-quiet I k =
      Holds-Runs (λ tr. I (sv.stored tr)) (λ c tr w i. subst I (sym (sv.keeps c tr w)) i) k

  -- an update that the server accepts is what it holds
  update_Holds :
      (u : SnapshotPodTask)
      → Holds
          (λ tr. Unit)
          (update_status env u)
          (λ r tr. (v : SnapshotPodTask) × (r ≡ ok v) × SameTask u v × (sv.stored tr ≡ v))
  unfolding ask
  update_Holds u = record { at = λ tr _. sv.accepts tr u }

  conclude-Holds :
      {D : ReconcileResult × Option Error → Type 0} (u : SnapshotPodTask) (snapshot : String)
      (start : Time) (C : SnapshotPodTask → Type 0)
      → C u
      → Runs Free D (conclude env u snapshot start)
      → Holds
          (λ tr. sv.stored tr ≡ u)
          (conclude env u snapshot start)
          (λ a tr. D a × C (sv.stored tr))
  conclude-Holds u snapshot start C i k =
      Holds-weaken (λ tr e. e) (λ a tr ((_, d), e). (d, subst C (sym e) i))
        (Holds-quiet (λ s. s ≡ u) (Runs-both (conclude-Runs env u snapshot start) k))

  -- What the phase makes true of the task is true of the task that the server holds in the end.
  pub finish_task-Holds :
      {D : ReconcileResult × Option Error → Type 0} (C : SnapshotPodTask → Type 0)
      → ((u v : SnapshotPodTask) → C u → SameTask u v → C v)
      → (s : SnapshotPodTask) (last : Option Error) (start : Time)
      → ((u : SnapshotPodTask) (snapshot : String)
          → C u
          → Runs Free D (conclude env u snapshot start))
      → Runs Free C (update_phase env s last)
      → Holds (λ tr. Unit) (finish_task env s last start) (λ a tr. D a × C (sv.stored tr))
  unfolding finish_task
  finish_task-Holds C stable s last start concludes k =
      Holds-bind _ _ (Holds-Runs (λ tr. Unit) (λ x tr _ _. tt) k) λ phased. record {
        at = λ tr (m, _).
            (Holds-bind _ _ (update_Holds phased) λ r. record {
              at = λ tr (v, e, same, held).
                  let i = stable phased v m same in
                  rw e (
                    (conclude-Holds v (get_snapshot_name s) start C i
                        (concludes v (get_snapshot_name s) i)).at
                      tr held);
            }).at
              tr tt;
      }
