-- ===== src/Task/Outcome.antt =====
-- The whole of `Reconcile` for a task: what it submits, how it ends, and what it leaves alone.
use kube_snapshot.Metrics.{
  record_snapshot_task, record_snapshot_task_retry, record_task_failed, record_controller_reconcile,
}
use kube_snapshot.Base.{
  ℕ, zero, suc, ◌*◌, String, ◌≡◌, refl, ap, true, false, Option, none, some, List, [], ◌∷◌, arith,
  ◌∙◌, All, ◌⊎◌, inl, inr, ◌<◌,
}
use mathlib.Core.Path.{subst}
use kube_snapshot.Base.Int.{ℤ, pos, negsuc, inc32}
use kube_snapshot.Api.{
  Time, Condition, is_cond_true, SnapshotPodTask, ReconcileResult, done_result, second,
  SnapshotPodTaskSpec,
}
use kube_snapshot.World.{now, Env, Error, Result, ok, err, M}
use kube_snapshot.World.Logic.{
  Runs, Any, Runs-pure, Runs-bind, Runs-bind_free, Runs-if, Runs-check, Runs-ask, Runs-tell,
  Runs-handle, Runs-weaken, runs_rules,
}
use kube_snapshot.Task.Steps.{get_snapshot_name}
use kube_snapshot.Task.Loop.{Rec, RoundExit, goes_on, breaks, gives_up, proceed, run_recs}
use kube_snapshot.Task.Reconcile.{
  is_terminal, retry_delay, clamp_retries, some_unfinished, count_retry, update_phase, conclude,
  finish_task, run_task,
}
use kube_snapshot.Task.Progress.{
  Writes, Echoes, done, Kept, Kept-refl, Kept-trans, Advances, Kept-Advances, Advances-SameTask,
}
use kube_snapshot.Task.Rounds.{Ends, IsQuiet, run_rec-Ends, update_Runs}
use kube_snapshot.Task.Quiet.{HasContainerId}

-- How the loop over `steps` ends for the task `t`: after its last round every step is done.
abbrev pub LoopEnds : List Rec → SnapshotPodTask → Result (SnapshotPodTask × Option Error) → Type 0
LoopEnds steps t (ok (u, none)) = Kept t u × All (λ rec. done rec.typ u ≡ true) steps
LoopEnds steps t (ok (u, some e)) = Kept t u
LoopEnds steps t (err x) = Unit

pub Kept-HasContainerId : {t u : SnapshotPodTask} → Kept t u → HasContainerId t → HasContainerId u
Kept-HasContainerId k h = rw k.same_spec h

LoopEnds-cons :
    (rec : Rec) (rest : List Rec) {t u : SnapshotPodTask}
    → Kept t u
    → done rec.typ u ≡ true
    → (r : Result (SnapshotPodTask × Option Error)) → LoopEnds rest u r
    → LoopEnds (rec ∷ rest) t r
LoopEnds-cons rec rest k d (ok (v, none)) e = (Kept-trans k e.0, (e.0.keeps_done rec.typ d, e.1))
LoopEnds-cons rec rest k d (ok (v, some x)) e = Kept-trans k e
LoopEnds-cons rec rest k d (err x) e = tt

pub LoopEnds-Kept :
    (steps : List Rec) {t s : SnapshotPodTask} (last : Option Error)
    → LoopEnds steps t (ok (s, last))
    → Kept t s
LoopEnds-Kept steps none ends = ends.0
LoopEnds-Kept steps (some x) ends = ends

module _ {R : SnapshotPodTask → Type 0} (rec : Rec) (rest : List Rec) (t : SnapshotPodTask) where
  proceed-Ends :
      (next : SnapshotPodTask → M (Result (SnapshotPodTask × Option Error)))
      → ((u : SnapshotPodTask) → Kept t u → Runs (Writes R) (LoopEnds rest u) (next u))
      → (exit : RoundExit) → Ends rec.typ t exit
      → Runs (Writes R) (LoopEnds (rec ∷ rest) t) (proceed exit next)
  proceed-Ends next runs (goes_on u) (round, d) =
      Runs-weaken (LoopEnds-cons rec rest round.kept d) (runs u round.kept)
  proceed-Ends next runs (breaks u e) (round, d) = Runs-pure _ round.kept
  proceed-Ends next runs (gives_up x) ends = Runs-pure _ tt

module _ {env : Env} (echo : Echoes env) {R : SnapshotPodTask → Type 0} where
  pub run_recs-Ends :
      (steps : List Rec) (t : SnapshotPodTask)
      → All (IsQuiet HasContainerId) steps
      → HasContainerId t
      → ((u : SnapshotPodTask) → Kept t u → R u)
      → Runs (Writes R) (LoopEnds steps t) (run_recs env steps t)
  unfolding run_recs
  run_recs-Ends [] t quiet h wants = Runs-pure _ (Kept-refl t, tt)
  run_recs-Ends (rec ∷ rest) t quiet h wants =
      Runs-bind _ _ (run_rec-Ends echo rec quiet.0 t (λ u r. wants u r.kept) (λ cs. h)) (
        proceed-Ends rec rest t (run_recs env rest) (λ u k.
          run_recs-Ends rest u quiet.1 (Kept-HasContainerId k h) (λ v l. wants v (Kept-trans k l))))

-- What a run returns for the stored task `u` of `t`: no other call is asked for exactly if it has
-- ended, and otherwise one after the delay of the task, which is positive.
abbrev pub Concludes : SnapshotPodTask → SnapshotPodTask → ReconcileResult × Option Error → Type 0
Concludes t u (r, some e) = ⊥
Concludes t u (r, none) =
    ((is_terminal u.status.phase ≡ true) × (r ≡ done_result))
    ⊎ ((is_terminal u.status.phase ≡ false)
        × ((d : ℕ) × (r.requeue_after ≡ pos d)
            × (retry_delay t.spec.retry_delay_seconds ≡ pos d)
            × (0 < d)))

-- the delay that is asked for is positive
retry_delay_positive : (n : ℤ) → (d : ℕ) × (retry_delay n ≡ pos d) × (0 < d)
retry_delay_positive (pos zero) = (30000000000, refl, omega arith)
retry_delay_positive (pos (suc n)) = (second * suc n, ground arith, omega arith)
retry_delay_positive (negsuc n) = (30000000000, refl, omega arith)

ends_now :
    (t u : SnapshotPodTask) → is_terminal u.status.phase ≡ true → Concludes t u (done_result, none)
ends_now t u e = inl (e, refl)

asks_later :
    {t u : SnapshotPodTask}
    → Advances t u
    → is_terminal u.status.phase ≡ false
    → Concludes t u (record { requeue_after = retry_delay u.spec.retry_delay_seconds }, none)
asks_later {t} {u} a live =
    let (d, e, positive) = retry_delay_positive t.spec.retry_delay_seconds in
    inr (
      live,
      (
        d,
        ap (λ (s : SnapshotPodTaskSpec). retry_delay s.retry_delay_seconds) a.same_spec ∙ e,
        e,
        positive,
      ),
    )

module _ {R : SnapshotPodTask → Type 0} (env : Env) where
  pub conclude-Concludes :
      (t u : SnapshotPodTask) (snapshot : String) (start : Time)
      → Advances t u
      → Runs (Writes R) (Concludes t u) (conclude env u snapshot start)
  unfolding conclude record_snapshot_task record_controller_reconcile
  conclude-Concludes t u snapshot start a =
      search (runs_rules, ends_now t u, asks_later a, tt {0}) depth 12

  pub some_unfinished-Runs :
      (last : Option Error) (cs : List Condition)
      → Runs (Writes R) Any (some_unfinished env last cs)
  unfolding some_unfinished
  some_unfinished-Runs last [] = Runs-pure _ tt
  some_unfinished-Runs last (c ∷ cs) =
      Runs-if (is_cond_true c.status) _ _ (λ _. some_unfinished-Runs last cs)
        λ _.
          Runs-check last _ _ (λ e. Runs-pure _ tt)
            λ _.
              Runs-bind_free _ _ (Runs-ask now env.clock tt (λ tr. tt))
                λ time. Runs-if _ _ _ (λ _. Runs-pure true tt) (λ _. some_unfinished-Runs last cs)

  module _ {t s : SnapshotPodTask} (live : is_terminal t.status.phase ≡ false) (k : Kept t s) where
    count_retry-Advances :
        (snapshot : String) → Runs (Writes R) (Advances t) (count_retry env s snapshot)
    unfolding count_retry record_snapshot_task_retry record_task_failed
    count_retry-Advances snapshot =
        Runs-bind_free _ _ (Runs-ask now env.clock tt (λ tr. tt)) λ time.
          Runs-bind_free _ _ (Runs-tell _ tt tt) λ _.
            Runs-if _ _ _
              (λ spent. Runs-bind_free _ _ (Runs-tell _ tt tt) λ _. Runs-pure _ (record {
                same_meta = k.same_meta;
                same_spec = k.same_spec;
                keeps_done = k.keeps_done;
                completed_done = λ h. cc;
                failed_exhausted = λ h. spent;
                retries = inr (ap inc32 k.same_retries);
              }))
              λ left. Runs-pure _ (record {
                same_meta = k.same_meta;
                same_spec = k.same_spec;
                keeps_done = k.keeps_done;
                completed_done = λ h. absurd (ground (arith, k.same_phase));
                failed_exhausted = λ h. absurd (ground (arith, k.same_phase));
                retries = inr (ap inc32 k.same_retries);
              })

    pub update_phase-Advances :
        (last : Option Error) → Runs (Writes R) (Advances t) (update_phase env s last)
    unfolding update_phase
    update_phase-Advances last =
        Runs-if _ _ _
          (λ all_true. Runs-pure _ (record {
            same_meta = k.same_meta;
            same_spec = k.same_spec;
            keeps_done = k.keeps_done;
            completed_done = λ h. all_true;
            failed_exhausted = λ h. cc;
            retries = inl k.same_retries;
          }))
          λ _. Runs-bind_free _ _ (some_unfinished-Runs last s.status.conditions) λ unfinished.
            Runs-if unfinished _ _ (λ _. count_retry-Advances (get_snapshot_name s))
              λ _. Runs-pure _ (record {
                same_meta = k.same_meta;
                same_spec = k.same_spec;
                keeps_done = k.keeps_done;
                completed_done = λ h. cc;
                failed_exhausted = λ h. cc;
                retries = inl k.same_retries;
              })

-- the task as the loop gets it: a negative count of retries starts at 0
abbrev pub fetched : SnapshotPodTask → SnapshotPodTask
fetched t = record t {
  status = record t.status { retry_count = clamp_retries t.status.retry_count };
}

module _ {env : Env} (echo : Echoes env) where
  pub finish_task-Advances :
      {t s : SnapshotPodTask}
      → is_terminal t.status.phase ≡ false
      → Kept t s
      → (last : Option Error) (start : Time)
      → Runs (Writes (Advances t)) Any (finish_task env s last start)
  unfolding finish_task
  finish_task-Advances {t} {s} live k last start =
      Runs-bind _ _ (update_phase-Advances env live k last) λ phased a.
        Runs-bind _ _ (update_Runs echo phased a) λ r same.
          Runs-handle r _ _ (λ x. Runs-pure _ tt)
            λ u e.
              Runs-weaken (λ x k. tt)
                (conclude-Concludes env t u (get_snapshot_name s) start
                  (Advances-SameTask a (same u e)))

  pub run_task-Advances :
      (steps : List Rec) (t : SnapshotPodTask) (start : Time)
      → All (IsQuiet HasContainerId) steps
      → is_terminal t.status.phase ≡ false
      → HasContainerId t
      → Runs (Writes (Advances t)) Any (run_task env steps t start)
  unfolding run_task
  run_task-Advances steps t start quiet live h =
      Runs-bind _ _ (run_recs-Ends echo steps t quiet h (λ u k. Kept-Advances live k)) λ r ends.
        Runs-handle r _ _ (λ x. Runs-pure _ tt)
          λ (s, last) e.
            finish_task-Advances live (LoopEnds-Kept steps last (subst (LoopEnds steps t) e ends))
              last start
