-- ===== src/Pod/Live.antt =====
-- Once its tasks have ended, one call of `Reconcile` ends a SnapshotPod whose round is listed.
use kube_snapshot.Base.{
  String, ◌≡◌, refl, sym, ◌∙◌, ap, Bool, true, false, Option, none, List, [], ◌∷◌, ◌⊎◌, inl, inr,
  All, contains_text, map, Bool-cases, eq_iff, arith, ◌==◌, ◌↔◌,
}
use mathlib.Core.Path.{subst}
use kube_snapshot.Base.Int.{pos, ◌≤?◌, ◌==ℤ◌}
use kube_snapshot.Api.{
  Time, Condition, is_cond_true, SnapshotPod, ObjectKey, ReconcileResult, done_result,
}
use kube_snapshot.World.{
  Call, Trace, Env, Error, ok, Exit, returns, panics, now, get_snapshot_pod, ◌>>=◌,
}
use kube_snapshot.World.Logic.{Grows, same, more}
use kube_snapshot.World.State.{Holds, After, Holds-pure, Holds-bind, Holds-given, Holds-weaken}
use kube_snapshot.Metrics.{record_controller_reconcile}
use kube_snapshot.Condition.Done.{is_done, untimed}
use kube_snapshot.Condition.Types.{types, add_type, IsTidy, add_type-IsTidy, all_done}
use kube_snapshot.Pod.Status.{is_ended}
use kube_snapshot.Pod.Reconcile.{run_recs, recs, finish, reconcile_snapshot_pod, reconcile}
use kube_snapshot.Pod.Requeue.{IsFinished, is_unfinished-IsFinished}
use kube_snapshot.Pod.Sound.{lists_round}
use kube_snapshot.Pod.Containers.{closed}
use kube_snapshot.Pod.Machine.{Entry, entry, View}
use kube_snapshot.Pod.Passes.{Passed, Ignores, run_rec-Passed}
use kube_snapshot.Pod.Closing.{
  is_closed, HasTarget, Alike, Alike-refl, Ended, ListsEnds, accept-Passes, tasks-Passes,
  status-Passes,
}
use kube_snapshot.Pod.Server.{SameObject, Server}

abbrev pub steps : List String
steps = "Accept" ∷ "Tasks" ∷ "TaskStatus" ∷ []

-- a step of the loop is one of the three
one_of :
    (P : String → Type 0)
    → P "Accept"
    → P "Tasks"
    → P "TaskStatus"
    → (t : String) → contains_text steps t ≡ true
    → P t
one_of P a b c t h = elim (Bool-cases ("Accept" == t)) [
  | inl e ↦ subst P ((eq_iff "Accept" t).0 e) a
  | inr not_a ↦ elim (Bool-cases ("Tasks" == t)) [
    | inl e ↦ subst P ((eq_iff "Tasks" t).0 e) b
    | inr not_b ↦ elim (Bool-cases ("TaskStatus" == t)) [
      | inl e ↦ subst P ((eq_iff "TaskStatus" t).0 e) c
      | inr not_c ↦ absurd (ground (arith, not_a, not_b, not_c, h))
    ]
  ]
]

known-of :
    (p : String → Bool) (ts : List String) (t : String)
    → All (λ s. p s ≡ true) ts
    → contains_text ts t ≡ true
    → p t ≡ true
known-of p [] t a h = cc h
known-of p (s ∷ ts) t a h = elim (Bool-cases (s == t)) [
  | inl e ↦ subst (λ s. p s ≡ true) ((eq_iff s t).0 e) a.0
  | inr other ↦ known-of p ts t a.1 (ground (arith, other, h))
]

-- After three rounds without an error every condition is true.
module _ {K L N : SnapshotPod → Type 0} {sp u v w : SnapshotPod} (a : Passed K "Accept" sp u)
    (b : Passed L "Tasks" u v) (c : Passed N "TaskStatus" v w)
    (tidy : IsTidy steps (types sp.status.conditions)) where
  IsTidy-after : IsTidy steps (types w.status.conditions)
  IsTidy-after =
      subst (IsTidy steps)
        (sym (c.added ∙ ap (add_type "TaskStatus") (b.added ∙ ap (add_type "Tasks") a.added)))
        (add_type-IsTidy steps _ "TaskStatus" refl
          (add_type-IsTidy steps _ "Tasks" refl (add_type-IsTidy steps _ "Accept" refl tidy)))

  all_true : All (λ (d : Condition). is_cond_true d.status ≡ true) w.status.conditions
  all_true = all_done w.status.conditions IsTidy-after.distinct λ t there.
      one_of (λ t. is_done t w.status.conditions ≡ true)
        (c.before "Accept" (b.before "Accept" a.this)) (c.before "Tasks" b.this) c.this t
        (known-of (contains_text steps) (types w.status.conditions) t IsTidy-after.known there)

-- The object of a round that is listed or closed, which can be accepted, and whose conditions are
-- those of the loop
pub record Listed (env : Env) (sp : SnapshotPod) : Type 0 where
  pub wanted : (sp.spec.trigger_round ≤? pos 0) ≡ false
  pub accepted : (is_closed sp ≡ true) ⊎ HasTarget env sp
  pub listed : (is_closed sp ≡ true) ⊎ (lists_round sp ≡ true)
  pub tidy : IsTidy steps (types sp.status.conditions)

pub Alike-Ignores : (sp : SnapshotPod) → Ignores (Alike sp)
Alike-Ignores sp u cs k = record {
  same_meta = k.same_meta;
  same_spec = k.same_spec;
  same_last = k.same_last;
  same_snapshots = k.same_snapshots;
}

Ended-Ignores : (sp : SnapshotPod) → Ignores (Ended sp)
Ended-Ignores sp u cs k = record {
  same_meta = k.same_meta;
  same_spec = k.same_spec;
  over = k.over;
  all_ended = k.all_ended;
}

module _ (env : Env) (I : Trace → Type 0) (later : (c : Call) (tr : Trace) → I tr → I (c ∷ tr))
    (sp : SnapshotPod) (y : Listed env sp) (lists : (tr : Trace) → I tr → ListsEnds env sp tr) where
  run_recs-Ended : Holds I (run_recs env (recs env) sp) (λ w tr. (Ended sp w × IsFinished w) × I tr)
  unfolding run_recs
  run_recs-Ended =
      Holds-bind _ _
        (run_rec-Passed env I later (Alike sp) (Alike sp) (Alike-Ignores sp) (Alike-Ignores sp) _
          (accept-Passes env I later sp y.accepted) sp (Alike-refl sp))
        λ (u, on_a). Holds-given λ (goes_a, a). rw goes_a (
          Holds-bind _ _
            (run_rec-Passed env I later (Alike sp) (Alike (closed sp)) (Alike-Ignores sp)
              (Alike-Ignores (closed sp)) _ (tasks-Passes env I later sp y.listed) u a.result)
            λ (v, on_b). Holds-given λ (goes_b, b). rw goes_b (
              Holds-bind _ _
                (run_rec-Passed env I later (Alike (closed sp)) (Ended sp)
                  (Alike-Ignores (closed sp)) (Ended-Ignores sp) _
                  (status-Passes env I later sp lists) v b.result)
                λ (w, on_c). Holds-given λ (goes_c, c). rw goes_c (
                  Holds-pure w
                    (λ tr i. ((c.result, (c.result.all_ended, all_true a b c y.tidy)), i)))))

-- What the server answers is finished too.
All-map :
    {A B : Type 0} (P : B → Type 0) (f : A → B) (xs : List A)
    → All (λ x. P (f x)) xs ↔ All P (map f xs)
All-map P f [] = (λ a. a, λ a. a)
All-map P f (x ∷ xs) = let (to, from) = All-map P f xs in (λ a. (a.0, to a.1), λ a. (a.0, from a.1))

SameObject-IsFinished : {w u : SnapshotPod} → SameObject w u → IsFinished w → IsFinished u
SameObject-IsFinished {w} {u} s (ended, true_all) = (
  (All-map (λ (e : Entry). is_ended e.result ≡ true) entry u.status.snapshots).1 (
      subst (λ (v : View). All (λ (e : Entry). is_ended e.result ≡ true) v.entries)
        (sym s.same_view)
        ((All-map (λ (e : Entry). is_ended e.result ≡ true) entry w.status.snapshots).0 ended)),
  (All-map (λ (c : Condition). is_cond_true c.status ≡ true) untimed u.status.conditions).1 (
      subst (All (λ (c : Condition). is_cond_true c.status ≡ true)) (sym s.same_conditions) (
        (All-map (λ (c : Condition). is_cond_true c.status ≡ true) untimed w.status.conditions).0
          true_all)),
)

SameObject-Ended : {sp w u : SnapshotPod} → SameObject w u → IsFinished w → Ended sp w → Ended sp u
SameObject-Ended {w} s f e = record {
  same_meta = s.same_meta ∙ e.same_meta;
  same_spec = s.same_spec ∙ e.same_spec;
  over = rw (s.same_spec) (ap (λ (v : View). v.last ==ℤ w.spec.trigger_round) s.same_view ∙ e.over);
  all_ended = (SameObject-IsFinished s f).0;
}

-- the answer of a call that ends the object's round, and the object that is stored
pub record Finishes (sp : SnapshotPod) (r : ReconcileResult × Option Error) (u : SnapshotPod)
    : Type 0 where
  pub answer : r ≡ (done_result, none)
  pub ended : Ended sp u
  pub finished : IsFinished u

module _ {env : Env} {key : ObjectKey} (sv : Server env key) where
  finish-Finishes :
      (sp w : SnapshotPod) (start : Time)
      → Ended sp w
      → IsFinished w
      → Holds (λ tr. Unit) (finish env w start) (λ r tr. Finishes sp r (sv.stored tr))
  unfolding finish record_controller_reconcile ◌>>=◌
  finish-Finishes sp w start e f = record {
    at = λ tr _.
        let (u, taken, alike, held) = sv.accepts tr w in
        let done = (is_unfinished-IsFinished u).1 (SameObject-IsFinished alike f) in
        let stays = sv.keeps _ _ tt ∙ (sv.keeps _ _ tt ∙ (sv.keeps _ _ tt ∙ held)) in
        rw (taken, done)
          (record {
            answer = refl;
            ended = subst (Ended sp) (sym stays) (SameObject-Ended alike f e);
            finished = subst IsFinished (sym stays) (SameObject-IsFinished alike f);
          });
  }

  after_recs :
      (I : Trace → Type 0) (later : (c : Call) (tr : Trace) → I tr → I (c ∷ tr)) (sp : SnapshotPod)
      (y : Listed env sp) (start : Time)
      → ((tr : Trace) → I tr → ListsEnds env sp tr)
      → Holds I (reconcile_snapshot_pod env sp start) (λ r tr. Finishes sp r (sv.stored tr))
  unfolding reconcile_snapshot_pod
  after_recs I later sp y start lists = rw y.wanted (
      Holds-bind _ _ (run_recs-Ended env I later sp y lists) λ w.
        Holds-given
          λ (e, f). Holds-weaken (λ tr _. tt) (λ r tr done. done) (finish-Finishes sp w start e f))

  returned :
      (sp : SnapshotPod) (r : Exit (ReconcileResult × Option Error)) (tr : Trace)
      → After (λ x t. Finishes sp x (sv.stored t)) r tr
      → (r ≡ returns (done_result, none)) × Ended sp (sv.stored tr) × IsFinished (sv.stored tr)
  returned sp (returns a) tr h = (ap returns h.answer, h.ended, h.finished)
  returned sp panics tr h = absurd h

  -- Against a server that holds the SnapshotPod, accepts every update of its status and has no other
  -- client: where the object has a positive round that is listed or closed, can be accepted, has only
  -- conditions of the loop, and from now on each listing of its tasks has, for each of its snapshots
  -- that has not ended, a task that has, one call of `Reconcile` returns without an error, asks for
  -- no other call, and leaves the round closed, every snapshot ended and every condition true.
  pub reconcile_ends :
      (tr : Trace)
      → Listed env (sv.stored tr)
      → ((tr' : Trace) → Grows (λ c. Unit) tr tr' → ListsEnds env (sv.stored tr) tr')
      → ((reconcile env key tr).0 ≡ returns (done_result, none))
        × Ended (sv.stored tr) (sv.stored (reconcile env key tr).1)
        × IsFinished (sv.stored (reconcile env key tr).1)
  unfolding reconcile ◌>>=◌
  reconcile_ends tr y lists =
      let got = sv.gives (now ∷ tr) ∙ ap ok (sv.keeps now tr tt) in
      rw got (
        returned (sv.stored tr) _ _ (
          (after_recs (Grows (λ c. Unit) tr) (λ c tr' g. more c tt g) (sv.stored tr) y
              (env.clock tr) lists).at
            (get_snapshot_pod key ∷ now ∷ tr) (more _ tt (more _ tt same))))
