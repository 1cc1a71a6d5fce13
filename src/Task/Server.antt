-- ===== src/Task/Server.antt =====
-- An API server that holds one task, and the loop of `Reconcile` against it.
use kube_snapshot.Base.{ℕ, String, ◌≡◌, refl, sym, ◌∙◌, some, List, ◌∷◌, get_elem?}
use mathlib.Core.Path.{subst}
use kube_snapshot.Api.{Condition, is_cond_true, SnapshotPodTask, ObjectKey}
use kube_snapshot.World.{Call, Trace, Env, Error, Result, ok, update_task_status}
use kube_snapshot.World.Logic.{
  Runs, Runs-pure, Runs-ask, Runs-bind, Runs-bind_free, Runs-if, Runs-check, Runs-both,
}
use kube_snapshot.Condition.Done.{index_of-get_elem?-some, ensure_condition-Located}
use kube_snapshot.Task.Loop.{
  Rec, RoundExit, goes_on, breaks, gives_up, with_conditions, modify_condition, update_status,
  fail_round, pass_round, round_at, run_rec,
}
use kube_snapshot.Task.Progress.{Writes, SameTask, Echoes}
use kube_snapshot.Task.Rounds.{Ends, IsQuiet, run_rec-Ends, stamp-Runs}
use kube_snapshot.Task.Quiet.{HasContainerId}
use kube_snapshot.Condition.Types.{types, add_type, types-modify, ensure_condition-types}
use kube_snapshot.Task.Types.{SameTask-types}

abbrev pub Anything : SnapshotPodTask → Type 0
Anything u = Unit

abbrev pub Nothing : SnapshotPodTask → Type 0
Nothing u = ⊥

-- The server gives the task that it holds, accepts each update of its status, whose times it may
-- round, and holds what it answered from then on. No other client writes.
pub record Server (env : Env) (key : ObjectKey) : Type 0 where
  pub stored : Trace → SnapshotPodTask
  pub gives : (tr : Trace) → env.task_at tr key ≡ ok (stored tr)
  pub accepts :
      (tr : Trace) (t : SnapshotPodTask)
      → (u : SnapshotPodTask) × (env.task_status_updated tr t ≡ ok u)
        × SameTask t u
        × (stored (update_task_status t ∷ tr) ≡ u)
  pub keeps : (c : Call) (tr : Trace) → Writes Nothing c → stored (c ∷ tr) ≡ stored tr

ok-Injective : {A : Type 0} {a b : A} → ok a ≡ ok b → a ≡ b
ok-Injective h = cc h

-- How a round for the step `typ` of the task `t` leaves the types of the conditions
abbrev pub RoundTypes : String → SnapshotPodTask → RoundExit → Type 0
RoundTypes typ t (goes_on u) = types u.status.conditions ≡ add_type typ (types t.status.conditions)
RoundTypes typ t (breaks u e) = types u.status.conditions ≡ add_type typ (types t.status.conditions)
RoundTypes typ t (gives_up x) = ⊥

module _ {env : Env} {key : ObjectKey} (sv : Server env key) where
  pub Server-Echoes : Echoes env
  Server-Echoes = record {
    at = λ tr t u e.
        let (v, f, same, _) = sv.accepts tr t in subst (SameTask t) (ok-Injective (sym f ∙ e)) same;
  }

  pub update_Stores :
      (u : SnapshotPodTask)
      → Runs
          (Writes Anything)
          (λ (r : Result SnapshotPodTask). (s : SnapshotPodTask) × (r ≡ ok s) × SameTask u s)
          (update_status env u)
  update_Stores u =
      Runs-ask (update_task_status u) _ tt
        λ tr. let (v, f, same, _) = sv.accepts tr u in (v, f, same)

  module _ (typ : String) (t : SnapshotPodTask) (cs : List Condition) (i : ℕ) (old : Condition)
      (there : get_elem? cs i ≡ some old)
      (added : types cs ≡ add_type typ (types t.status.conditions)) where
    written-types :
        (f : Condition → Condition) (u : SnapshotPodTask)
        → (f old).typ ≡ old.typ
        → SameTask (modify_condition i f (with_conditions t cs)) u
        → types u.status.conditions ≡ add_type typ (types t.status.conditions)
    written-types f u e s = SameTask-types s ∙ types-modify i f cs old there e ∙ added

    fail_round-types :
        (e : Error)
        → Runs (Writes Anything) (RoundTypes typ t) (fail_round env i (with_conditions t cs) e)
    unfolding fail_round
    fail_round-types e =
        Runs-bind _ _ (update_Stores _)
          λ r (s, f, same). rw f (Runs-pure (breaks s e) (written-types _ s refl same))

    pass_round-types :
        Runs (Writes Anything) (RoundTypes typ t) (pass_round env i old (with_conditions t cs))
    unfolding pass_round
    pass_round-types = Runs-bind_free _ _ (stamp-Runs env old _) λ time.
        Runs-bind _ _ (update_Stores _)
          λ r (s, f, same). rw f (Runs-pure (goes_on s) (written-types _ s refl same))

  module _ (rec : Rec) (q : IsQuiet HasContainerId rec) (t : SnapshotPodTask)
      (h : HasContainerId t) where
    round_at-types :
        (cs : List Condition) (i : ℕ) (old : Condition)
        → get_elem? cs i ≡ some old
        → types cs ≡ add_type rec.typ (types t.status.conditions)
        → Runs
            (Writes Anything)
            (RoundTypes rec.typ t)
            (round_at env rec i (with_conditions t cs) (some old))
    unfolding round_at
    round_at-types cs i old there added =
        Runs-if (is_cond_true old.status) _ _
          (λ _. Runs-pure (goes_on (with_conditions t cs)) added)
          λ _. Runs-bind_free _ _ (q.quiet Anything (with_conditions t cs) h) λ failure.
            Runs-check failure _ _ (fail_round-types rec.typ t cs i old there added)
              (λ _. pass_round-types rec.typ t cs i old there added)

    run_rec-types : Runs (Writes Anything) (RoundTypes rec.typ t) (run_rec env rec t)
    unfolding run_rec
    run_rec-types =
        Runs-bind _ _
          (Runs-both {P' = Writes Anything}
            (ensure_condition-Located env rec.typ t.status.conditions tt)
            (ensure_condition-types env rec.typ t.status.conditions tt))
          λ (i, cs) (located, added).
            let (old, there) = index_of-get_elem?-some rec.typ cs i located.0 in
            rw there (round_at-types cs i old there added)

    pub run_rec-both :
        Runs
          (Writes Anything)
          (λ exit. Ends rec.typ t exit × RoundTypes rec.typ t exit)
          (run_rec env rec t)
    run_rec-both =
        Runs-both (run_rec-Ends Server-Echoes rec q t (λ u r. tt) (λ cs. h)) run_rec-types
