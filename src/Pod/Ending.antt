-- ===== src/Pod/Ending.antt =====
-- The life of a round of a SnapshotPod: the call that lists its containers, any calls in which their
-- tasks go on, and the call after which it has ended.
use kube_snapshot.Base.{
  Bool-cases, List, String, ap, inl, inr, none, refl, suc, sym, true, ℕ, ◌∙◌, ◌∷◌, ◌≡◌,
}
use mathlib.Core.Path.{subst}
use kube_snapshot.Api.{Time, SnapshotPod, ObjectKey, done_result}
use kube_snapshot.World.{◌>>=◌, ok, now, get_snapshot_pod, Trace, Env, Exit, returns}
use kube_snapshot.World.Logic.{Grows}
use kube_snapshot.World.State.{
  Holds, After, After-returns, Holds-bind, Holds-Runs, Holds-given, Holds-weaken,
}
use kube_snapshot.Metrics.{record_controller_reconcile}
use kube_snapshot.Pod.Reconcile.{is_unfinished, finish, reconcile_snapshot_pod, reconcile}
use kube_snapshot.Pod.Requeue.{IsFinished}
use kube_snapshot.Pod.Sound.{HasUuids}
use kube_snapshot.Pod.Entries.{EntriesEnd}
use kube_snapshot.Pod.Machine.{view}
use kube_snapshot.Pod.Closing.{is_closed, ListsEnds}
use kube_snapshot.Pod.Live.{reconcile_ends}
use kube_snapshot.Pod.Server.{SameObject, Server}
use kube_snapshot.Pod.Refined.{reconciles}
use kube_snapshot.Pod.Steady.{Continued, reconcile-Continued, reconciles-Continued}
use kube_snapshot.Pod.Opening.{CreatesAll, Fresh}
use kube_snapshot.Pod.Begun.{Begun, run_recs-Begun, Begun-SameObject, Begun-Continued}

module _ {env : Env} {key : ObjectKey} (sv : Server env key) where
  -- whatever the answer, the object that was submitted is stored
  finish-Stored :
      (R : SnapshotPod → Type 0)
      → ((v u : SnapshotPod) → SameObject v u → R v → R u)
      → (v : SnapshotPod) (start : Time) → R v
      → Holds (λ tr. Unit {0}) (finish env v start) (λ a tr. R (sv.stored tr))
  unfolding finish record_controller_reconcile ◌>>=◌
  finish-Stored R alike v start r = record {
    at = λ tr _.
        let (u, taken, same_object, held) = sv.accepts tr v in
        let kept =
          λ (t : Trace) (stays : sv.stored t ≡ u). subst R (sym stays) (alike v u same_object r) in
        elim (Bool-cases (is_unfinished u)) [
          | inl more ↦
              rw (taken, more)
                (kept _ (sv.keeps _ _ tt ∙ (sv.keeps _ _ tt ∙ (sv.keeps _ _ tt ∙ held))))
          | inr done ↦
              rw (taken, done)
                (kept _ (sv.keeps _ _ tt ∙ (sv.keeps _ _ tt ∙ (sv.keeps _ _ tt ∙ held))))
        ];
  }

-- what is known of the value and the trace of an action that returned
returned :
    {A : Type 0} (Q : A → Trace → Type 0) (r : Exit A) (a : A) (tr : Trace)
    → After Q r tr
    → r ≡ returns a
    → Q a tr
returned Q r a tr q e = subst (λ x. After Q x tr) e q

module _ {env : Env} {key : ObjectKey} (sv : Server env key) (uuids : HasUuids env)
    (w : CreatesAll env) (cs : List String) where
  reconcile_snapshot_pod-Begun :
      (sp : SnapshotPod) (start : Time)
      → Fresh env cs sp
      → Holds
          (λ tr. Unit {0})
          (reconcile_snapshot_pod env sp start)
          (λ a tr. Begun env cs sp (sv.stored tr))
  unfolding reconcile_snapshot_pod
  reconcile_snapshot_pod-Begun sp start y = rw y.wanted (
      Holds-bind _ _
        (Holds-Runs (λ tr. Unit {0}) (λ c tr _ _. tt) (run_recs-Begun env uuids w cs sp y))
        λ v.
          Holds-given
            λ b. finish-Stored sv (Begun env cs sp) (Begun-SameObject env cs sp) v start b)

  reconcile-Begun :
      (sp : SnapshotPod)
      → Fresh env cs sp
      → Holds (λ tr. sv.stored tr ≡ sp) (reconcile env key) (λ a tr. Begun env cs sp (sv.stored tr))
  unfolding reconcile ◌>>=◌
  reconcile-Begun sp y = record {
    at = λ tr e. rw (sv.gives (now ∷ tr) ∙ ap ok (sv.keeps now tr tt ∙ e)) (
        (reconcile_snapshot_pod-Begun sp (env.clock tr) y).at (get_snapshot_pod key ∷ now ∷ tr) tt);
  }

  reconciles-Begun :
      (m : ℕ) (sp : SnapshotPod)
      → Fresh env cs sp
      → Holds
          (λ tr. sv.stored tr ≡ sp)
          (reconciles env key (suc m))
          (λ a tr. Begun env cs sp (sv.stored tr))
  unfolding reconciles
  reconciles-Begun m sp y = Holds-bind _ _ (reconcile-Begun sp y) λ a. record {
    at = λ tr b.
        (Holds-weaken (λ tr e. e) (λ x tr' k. Begun-Continued b k)
            (reconciles-Continued sv uuids m (sv.stored tr) b.listed)).at
          tr refl;
  }

  -- Against a server that holds the SnapshotPod, accepts every update of its status and has no other
  -- client, where a uuid has eight characters besides its dashes and every task that is created is
  -- accepted: for an object with a positive round that is open and of which no snapshot is listed,
  -- conditions of the loop, and a target that is found whenever it is looked up, in the later calls
  -- too, with at most five containers for the round, at least one, all started, whose new image names
  -- are rendered without an error, any number of calls of `Reconcile` but 0 returns, whatever the
  -- listings answer. Once from then on each listing has, for each snapshot that has not ended, a
  -- task that has, one more call returns without an error, asks for no other call, and leaves the
  -- round closed, every snapshot ended, every condition true, and the last snapshots of the status
  -- of the round, one for each container in their order.
  pub reconciles_settle :
      (m : ℕ) (tr : Trace)
      → Fresh env cs (sv.stored tr)
      → ((tr' : Trace)
          → Grows (λ c. Unit) (reconciles env key (suc m) tr).1 tr'
          → ListsEnds env (sv.stored (reconciles env key (suc m) tr).1) tr')
      → ((reconciles env key (suc m) tr).0 ≡ returns tt)
        × ((reconcile env key (reconciles env key (suc m) tr).1).0 ≡ returns (done_result, none))
        × (is_closed (sv.stored (reconcile env key (reconciles env key (suc m) tr).1).1) ≡ true)
        × IsFinished (sv.stored (reconcile env key (reconciles env key (suc m) tr).1).1)
        × EntriesEnd
            (sv.stored tr).spec.trigger_round
            cs
            (view (sv.stored (reconcile env key (reconciles env key (suc m) tr).1).1)).entries
  reconciles_settle m tr y lists =
      let (ends, b) =
        After-returns (λ t. Begun env cs (sv.stored tr) (sv.stored t)) _ _
          ((reconciles-Begun m (sv.stored tr) y).at tr refl) in
      let (done, ended, finished) = reconcile_ends sv _ b.listed lists in
      let kept =
        returned (λ a t. Continued env (sv.stored (reconciles env key (suc m) tr).1) (sv.stored t))
          _ _ _
          ((reconcile-Continued sv uuids (sv.stored (reconciles env key (suc m) tr).1) b.listed).at
            (reconciles env key (suc m) tr).1 refl)
          done in
      (ends, done, ended.over, finished, (Begun-Continued b kept).entries)
