-- ===== src/Task/Bounded.antt =====
-- How many commands a task costs, however often `Reconcile` is called.
use kube_snapshot.Base.{
  ℕ, zero, suc, ◌+◌, ◌*◌, ◌≤◌, String, ◌≡◌, refl, ◌∙◌, ap, Option, none, some, List, [], ◌∷◌, true,
  arith, inl, inr,
}
use kube_snapshot.Api.{Time, Condition, is_cond_true, SnapshotPodTask, ObjectKey}
use kube_snapshot.World.{Trace, Env, Error, Result, ok, returns, M, now, get_task, pure}
use kube_snapshot.World.Calls.{
  Makes, Makes-pure, Makes-panic, Makes-ask, Makes-if, Makes-check, Makes-bind, makes_rules,
}
use kube_snapshot.World.State.{Holds, Holds-pure, Holds-bind, After-returns}
use kube_snapshot.World.Count.{
  IsFree, executed, AtMost, AtMost-Makes, AtMost-ask, AtMost-weaken, AtMost-bind, AtMost-if,
  AtMost-handle, AtMost-check, Holds-AtMost,
}
use kube_snapshot.Metrics.{
  record_snapshot_task, record_snapshot_task_retry, record_task_failed, record_controller_reconcile,
  record_controller_error,
}
use kube_snapshot.Condition.{ensure_at, ensure_condition}
use kube_snapshot.Task.Steps.{TaskReconciler, reconcile_accept}
use kube_snapshot.Task.Loop.{
  Rec, RoundExit, goes_on, breaks, gives_up, proceed, fail_round, stamp, pass_round, round_at,
  run_rec, run_recs, recs,
}
use kube_snapshot.Task.Reconcile.{
  is_terminal, some_unfinished, count_retry, update_phase, conclude, finish_task, run_task,
  reconcile_task, reconcile,
}
use kube_snapshot.Task.Effort.{commit_step-AtMost, push_step-AtMost}
use kube_snapshot.Task.Idle.{reconcile_idle}
use kube_snapshot.Task.Server.{Server}
use kube_snapshot.Task.Live.{Ready, reconciles, reconcile-Ready, IsEnded-is_terminal}

module _ (env : Env) where
  ensure-Makes :
      (typ : String) (cs : List Condition) (o : Option ℕ) → Makes IsFree (ensure_at env typ cs o)
  unfolding ensure_at
  ensure-Makes typ cs none = search (makes_rules) depth 9
  ensure-Makes typ cs (some i) = Makes-pure _

  fail-Makes : (i : ℕ) (t : SnapshotPodTask) (e : Error) → Makes IsFree (fail_round env i t e)
  unfolding fail_round
  fail-Makes i t e = search (makes_rules) depth 9

  pass-Makes :
      (i : ℕ) (old : Condition) (t : SnapshotPodTask) → Makes IsFree (pass_round env i old t)
  unfolding pass_round stamp
  pass-Makes i old t = search (makes_rules) depth 12

  module _ (n : ℕ) (rec : Rec) (runs : (t : SnapshotPodTask) → AtMost n (rec.run t)) where
    round_at-AtMost :
        (i : ℕ) (t : SnapshotPodTask) (o : Option Condition) → AtMost n (round_at env rec i t o)
    unfolding round_at
    round_at-AtMost i t none = AtMost-weaken (omega arith) (AtMost-Makes Makes-panic)
    round_at-AtMost i t (some old) =
        AtMost-if _ _ _ (AtMost-weaken (omega arith) (AtMost-Makes (Makes-pure _))) (
          AtMost-weaken {i = n + 0} (omega arith) (
            AtMost-bind {j = 0} _ _ (runs t) λ failure.
              AtMost-check failure _ _ (λ e. AtMost-Makes (fail-Makes i t e))
                (AtMost-Makes (pass-Makes i old t))))

    run_rec-AtMost : (t : SnapshotPodTask) → AtMost n (run_rec env rec t)
    unfolding run_rec ensure_condition
    run_rec-AtMost t = AtMost-weaken {i = 0 + n} (omega arith) (
        AtMost-bind {j = n} _ _ (AtMost-Makes (ensure-Makes _ _ _))
          λ (i, cs). round_at-AtMost i _ _)

  proceed-AtMost :
      (n : ℕ) (exit : RoundExit)
      (next : SnapshotPodTask → M (Result (SnapshotPodTask × Option Error)))
      → ((u : SnapshotPodTask) → AtMost n (next u))
      → AtMost n (proceed exit next)
  proceed-AtMost n (goes_on u) next k = k u
  proceed-AtMost n (breaks u e) next k = AtMost-weaken (omega arith) (AtMost-Makes (Makes-pure _))
  proceed-AtMost n (gives_up x) next k = AtMost-weaken (omega arith) (AtMost-Makes (Makes-pure _))

  run_recs-AtMost :
      (r : TaskReconciler) (t : SnapshotPodTask) → AtMost 6 (run_recs env (recs env r) t)
  unfolding run_recs reconcile_accept
  run_recs-AtMost r t =
      AtMost-bind {j = 6} _ _ (run_rec-AtMost 0 _ (λ u. AtMost-Makes (Makes-pure _)) t) λ exit.
        proceed-AtMost 6 exit _ λ u.
          AtMost-bind {j = 5} _ _ (run_rec-AtMost 1 _ (commit_step-AtMost env r) u) λ exit.
            proceed-AtMost 5 exit _ λ v.
              AtMost-bind {j = 0} _ _ (run_rec-AtMost 5 _ (push_step-AtMost env r) v)
                λ exit. proceed-AtMost 0 exit _ λ w. AtMost-Makes (Makes-pure _)

  unfinished-Makes :
      (last : Option Error) (cs : List Condition) → Makes IsFree (some_unfinished env last cs)
  unfolding some_unfinished
  unfinished-Makes last [] = Makes-pure _
  unfinished-Makes last (c ∷ cs) =
      let later = unfinished-Makes last cs in
      Makes-if (is_cond_true c.status) _ _ (λ _. later)
        λ _.
          Makes-check last _ _ (λ e. Makes-pure true)
            λ _.
              Makes-bind _ _ (Makes-ask now env.clock refl)
                λ t. Makes-if _ (pure true) _ (λ _. Makes-pure true) (λ _. later)

  phase-Makes : (t : SnapshotPodTask) (last : Option Error) → Makes IsFree (update_phase env t last)
  unfolding update_phase count_retry record_snapshot_task_retry record_task_failed
  phase-Makes t last = search (makes_rules, unfinished-Makes) depth 15

  conclude-Makes :
      (t : SnapshotPodTask) (snapshot : String) (start : Time)
      → Makes IsFree (conclude env t snapshot start)
  unfolding conclude record_snapshot_task record_controller_reconcile
  conclude-Makes t snapshot start = search (makes_rules) depth 15

  finish-Makes :
      (t : SnapshotPodTask) (last : Option Error) (start : Time)
      → Makes IsFree (finish_task env t last start)
  unfolding finish_task
  finish-Makes t last start = search (makes_rules, phase-Makes, conclude-Makes) depth 12

  reconcile_task-AtMost :
      (r : TaskReconciler) (t : SnapshotPodTask) (start : Time)
      → AtMost 6 (reconcile_task env r t start)
  unfolding reconcile_task run_task
  reconcile_task-AtMost r t start =
      AtMost-if _ _ _
        (AtMost-if _ _ _ (AtMost-weaken (omega arith) (AtMost-Makes (Makes-pure _))) (
          AtMost-bind {j = 0} _ _ (run_recs-AtMost r _) λ ran.
            AtMost-handle ran _ _ (λ x. AtMost-Makes (Makes-pure _))
              λ (s, last). AtMost-Makes (finish-Makes s last start)))
        (AtMost-weaken (omega arith) (AtMost-Makes (Makes-pure _)))

  reconcile-AtMost : (r : TaskReconciler) (key : ObjectKey) → AtMost 6 (reconcile env r key)
  unfolding reconcile record_controller_error record_controller_reconcile
  reconcile-AtMost r key = AtMost-bind {j = 6} _ _ (AtMost-ask now env.clock) λ start.
      AtMost-bind {j = 6} _ _ (AtMost-ask (get_task key) _) λ got.
        AtMost-handle got _ _
          (λ e. AtMost-weaken (omega arith) (AtMost-Makes (search (makes_rules) depth 15)))
          λ t. reconcile_task-AtMost r t start

module _ {env : Env} {key : ObjectKey} (sv : Server env key) (r : TaskReconciler) (max : ℕ)
    (small : max ≤ 2147483647) where
  -- the call for a task that has ended runs none
  ended_idle :
      (t : SnapshotPodTask) (b : ℕ)
      → is_terminal t.status.phase ≡ true
      → Holds
          (λ tr. (sv.stored tr ≡ t) × (executed tr ≤ b))
          (reconcile env r key)
          (λ a tr. (sv.stored tr ≡ t) × (executed tr ≤ b))
  ended_idle t b ended = record {
    at = λ tr (e, h).
        let held = sv.keeps (get_task key) (now ∷ tr) tt ∙ (sv.keeps now tr tt ∙ e) in
        let got = sv.gives (now ∷ tr) ∙ ap ok (sv.keeps now tr tt ∙ e) in
        rw (reconcile_idle env r key tr t got (inr ended)) (held, omega arith);
  }

  ended_calls :
      (n : ℕ) (t : SnapshotPodTask) (b : ℕ)
      → is_terminal t.status.phase ≡ true
      → Holds
          (λ tr. (sv.stored tr ≡ t) × (executed tr ≤ b))
          (reconciles env r key n)
          (λ a tr. executed tr ≤ b)
  unfolding reconciles
  ended_calls zero t b ended = Holds-pure tt (λ tr (_, h). h)
  ended_calls (suc n) t b ended = Holds-bind _ _ (ended_idle t b ended) λ a. ended_calls n t b ended

  -- `b` commands are left after the `d` that were run, six for each retry that is left
  live_calls :
      (n c d b : ℕ) (t : SnapshotPodTask)
      → Ready r max c t
      → d + 6 * max ≤ b + 6 * c
      → Holds
          (λ tr. (sv.stored tr ≡ t) × (executed tr ≤ d))
          (reconciles env r key n)
          (λ a tr. executed tr ≤ b)
  unfolding reconciles
  live_calls zero c d b t y h = Holds-pure tt (λ tr (_, g). let left = y.left in omega arith)
  live_calls (suc n) c d b t y h =
      Holds-bind _ _
        (Holds-AtMost (reconcile-Ready sv r max small c t y) (reconcile-AtMost env r key) d)
        λ a. record {
          at = λ tr (next, g). elim next [
            | inl ended ↦
                (ended_calls n (sv.stored tr) b (IsEnded-is_terminal ended)).at tr
                  (refl, let left = y.left in omega arith)
            | inr z ↦
                (live_calls n (suc c) (6 + d) b (sv.stored tr) z (omega arith)).at tr (refl, g)
          ];
        }

  -- Against a server that holds the task, accepts every update of its status and has no other
  -- client, for a task of this node that has not ended, with a container id of two parts,
  -- conditions that the loop makes, and `c` retries counted of a budget `max` in int32 of which `k`
  -- are left: however often `Reconcile` is called, and whatever the commands, the clock and the
  -- secrets answer, the calls return, and run `6 * k` commands at most.
  pub reconciles_cost :
      (n c k : ℕ) (tr : Trace)
      → Ready r max c (sv.stored tr)
      → c + k ≡ max
      → ((reconciles env r key n tr).0 ≡ returns tt)
        × (executed (reconciles env r key n tr).1 ≤ 6 * k + executed tr)
  reconciles_cost n c k tr y left =
      After-returns (λ tr'. executed tr' ≤ 6 * k + executed tr) _ _
        ((live_calls n c (executed tr) (6 * k + executed tr) (sv.stored tr) y (omega arith)).at tr
          (refl, omega arith))
