-- ===== src/Task/Refused.antt =====
-- internal/controller/snapshotpodtask_controller.go: the loop of `Reconcile` gives up only where the
-- API server refuses the status that it submitted last.
use kube_snapshot.Base.{ℕ, ◌≡◌, refl, Option, none, some, List, [], ◌∷◌}
use kube_snapshot.Api.{Condition, is_cond_true, SnapshotPodTask}
use kube_snapshot.World.{Trace, Env, Error, Result, ok, err, pure, handle, update_task_status}
use kube_snapshot.World.Ensures.{
  Ensures, Ensures-pure, Ensures-panic, Ensures-ask, Ensures-if, Ensures-check, Ensures-bind,
  Ensures-any,
}
use kube_snapshot.Task.Loop.{
  Rec, RoundExit, goes_on, breaks, gives_up, proceed, update_status, fail_round, pass_round,
  round_at, run_rec, run_recs,
}

-- the last call submitted a status, and was answered with this error
abbrev pub Refused : Env → Error → Trace → Type 0
Refused env x [] = ⊥
Refused env x (update_task_status u ∷ tr) = env.task_status_updated tr u ≡ err x
Refused env x (c ∷ tr) = ⊥

abbrev pub Refuses : {A : Type 0} → Env → Result A → Trace → Type 0
Refuses env (ok a) tr = Unit
Refuses env (err x) tr = Refused env x tr

-- how a round ends
abbrev Exits : Env → RoundExit → Trace → Type 0
Exits env (gives_up x) tr = Refused env x tr
Exits env (goes_on u) tr = Unit
Exits env (breaks u e) tr = Unit

pub answer-Refuses :
    (env : Env) (s : SnapshotPodTask) (tr : Trace) (r : Result SnapshotPodTask)
    → env.task_status_updated tr s ≡ r
    → Refuses env r (update_task_status s ∷ tr)
answer-Refuses env s tr (ok u) e = tt
answer-Refuses env s tr (err x) e = e

module _ (env : Env) where
  update-Refuses :
      (s : SnapshotPodTask) → Ensures (λ tr. Unit {0}) (update_status env s) (Refuses env)
  update-Refuses s = Ensures-ask _ _ (λ tr p. answer-Refuses env s tr _ refl)

  module _ (after : SnapshotPodTask → RoundExit)
      (goes : (u : SnapshotPodTask) (tr : Trace) → Exits env (after u) tr) where
    answered-Exits :
        (r : Result SnapshotPodTask)
        → Ensures
            (Refuses env r)
            (handle r (λ x. pure (gives_up x)) λ u. pure (after u))
            (Exits env)
    answered-Exits (ok u) = Ensures-pure (after u) (λ tr p. goes u tr)
    answered-Exits (err x) = Ensures-pure (gives_up x) (λ tr p. p)

  fail_round-Exits :
      (i : ℕ) (t : SnapshotPodTask) (e : Error)
      → Ensures (λ tr. Unit {0}) (fail_round env i t e) (Exits env)
  unfolding fail_round
  fail_round-Exits i t e =
      Ensures-bind _ _ (update-Refuses _) (answered-Exits (λ u. breaks u e) (λ u tr. tt))

  pass_round-Exits :
      (i : ℕ) (old : Condition) (t : SnapshotPodTask)
      → Ensures (λ tr. Unit {0}) (pass_round env i old t) (Exits env)
  unfolding pass_round
  pass_round-Exits i old t =
      Ensures-bind _ _ (Ensures-any _)
        λ time. Ensures-bind _ _ (update-Refuses _) (answered-Exits goes_on (λ u tr. tt))

  round_at-Exits :
      (rec : Rec) (i : ℕ) (t : SnapshotPodTask) (o : Option Condition)
      → Ensures (λ tr. Unit {0}) (round_at env rec i t o) (Exits env)
  unfolding round_at
  round_at-Exits rec i t none = Ensures-panic
  round_at-Exits rec i t (some old) =
      Ensures-if (is_cond_true old.status) _ _ (λ e. Ensures-pure (goes_on t) (λ tr p. tt))
        λ e. Ensures-bind _ _ (Ensures-any _) λ failure.
          Ensures-check failure _ _ (fail_round-Exits i t) (λ e. pass_round-Exits i old t)

  run_rec-Exits :
      (rec : Rec) (t : SnapshotPodTask) → Ensures (λ tr. Unit {0}) (run_rec env rec t) (Exits env)
  unfolding run_rec
  run_rec-Exits rec t = Ensures-bind _ _ (Ensures-any _) λ (i, cs). round_at-Exits rec i _ _

  pub run_recs-Refuses :
      (steps : List Rec) (t : SnapshotPodTask)
      → Ensures (λ tr. Unit {0}) (run_recs env steps t) (Refuses env)
  unfolding run_recs
  run_recs-Refuses [] t = Ensures-pure (ok (t, none)) (λ tr p. tt)
  run_recs-Refuses (rec ∷ steps) t =
      Ensures-bind _ _ (run_rec-Exits rec t) (after (run_recs-Refuses steps))
    where
      after :
          ((u : SnapshotPodTask) → Ensures (λ tr. Unit {0}) (run_recs env steps u) (Refuses env))
          → (exit : RoundExit)
          → Ensures (Exits env exit) (proceed exit (run_recs env steps)) (Refuses env)
      after runs (goes_on u) = runs u
      after runs (breaks u e) = Ensures-pure _ (λ tr p. tt)
      after runs (gives_up x) = Ensures-pure _ (λ tr p. p)
