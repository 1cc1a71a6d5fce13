-- ===== src/Pod/Refined.antt =====
-- The whole of `Reconcile` of a SnapshotPod refines the machine of its round, against a server that
-- holds the object.
use kube_snapshot.Base.{ℕ, zero, suc, ◌≡◌, refl, sym, ◌∙◌, ap, none, ◌∷◌, List}
use mathlib.Core.Path.{subst}
use kube_snapshot.Base.Int.{pos, ◌≤?◌}
use kube_snapshot.Api.{
  Time, Condition, SnapshotPod, ObjectMeta, SnapshotPodSpec, ObjectKey, done_result,
}
use kube_snapshot.World.{Call, Trace, Env, ok, returns, M, pure, now, get_snapshot_pod, ◌>>=◌, ◌>>◌}
use kube_snapshot.World.Logic.{
  Runs, Any, Runs-pure, Runs-if, Runs-bind, Runs-map, Runs-weaken, runs_rules,
}
use kube_snapshot.World.State.{Holds, Holds-bind, Holds-Runs, Holds-weaken, After-returns}
use kube_snapshot.Metrics.{record_controller_reconcile}
use kube_snapshot.Pod.Reconcile.{
  with_conditions, run_recs, recs, finish, reconcile_snapshot_pod, reconcile,
}
use kube_snapshot.Pod.Sound.{Reads, clock, HasUuids}
use kube_snapshot.Pod.Rounds.{run_recs-Keeps}
use kube_snapshot.Pod.Appends.{Creates, reads, creates}
use kube_snapshot.Pod.Machine.{Reach, stay, Reach-trans, view}
use kube_snapshot.Pod.Moves.{
  Seen, Tracks, validate-Tracks, reconcile_tasks-Tracks, reconcile_tasks_status-Tracks,
}
use kube_snapshot.Pod.Server.{Writes, SameObject, Server, stored-Writes}

-- `n` calls of `Reconcile`, whatever each returns
unfoldable pub reconciles : Env → ObjectKey → ℕ → M (Unit {0})
reconciles env key zero = pure tt
reconciles env key (suc n) = do reconcile env key; reconciles env key n

pub Creates-Writes : (R : SnapshotPod → Type 0) (c : Call) → Creates c → Writes R c
Creates-Writes R c (creates t) = tt
Creates-Writes R c (reads r) = from_reads r
  where
    from_reads : {c : Call} → Reads c → Writes R c
    from_reads clock = tt
    from_reads _ = tt

pub Tracks-refl : (env : Env) (sp : SnapshotPod) → Tracks env sp sp
Tracks-refl env sp = record { same_meta = refl; same_spec = refl; reached = stay }

pub Tracks-trans :
    {env : Env} {s t u : SnapshotPod} → Tracks env s t → Tracks env t u → Tracks env s u
Tracks-trans {env} {s} {t} {u} a b = record {
  same_meta = b.same_meta ∙ a.same_meta;
  same_spec = b.same_spec ∙ a.same_spec;
  reached = Reach-trans _ a.reached (
      subst
        (λ (p : ObjectMeta × SnapshotPodSpec).
          Reach (Seen env p.0.name) p.1.trigger_round (view t) (view u))
        (λ i. (a.same_meta i, a.same_spec i)) b.reached);
}

module _ (env : Env) (uuids : HasUuids env) (sp : SnapshotPod) where
  pub Tracks-with_conditions :
      (u : SnapshotPod) (cs : List Condition)
      → Tracks env sp u
      → Tracks env sp (with_conditions u cs)
  Tracks-with_conditions u cs k = record {
    same_meta = k.same_meta;
    same_spec = k.same_spec;
    reached = k.reached;
  }

  pub run_recs-Tracks : Runs Creates (Tracks env sp) (run_recs env (recs env) sp)
  run_recs-Tracks =
      run_recs-Keeps (reads clock) (Tracks env sp) Tracks-with_conditions env (recs env)
        (
          (λ u k. Runs-weaken (λ x m. m.0) (validate-Tracks env u k)),
          (
            (λ u k. Runs-weaken (λ x m. m.0) (reconcile_tasks-Tracks env uuids u k)),
            ((λ u k. Runs-weaken (λ x m. m.0) (reconcile_tasks_status-Tracks env u k)), tt),
          ),
        )
        sp (Tracks-refl env sp)

-- A claim on the object that the loop leaves is one on the object that is stored.
module _ (env : Env) (R : SnapshotPod → Type 0) where
  finish-Writes : (u : SnapshotPod) (start : Time) → R u → Runs (Writes R) Any (finish env u start)
  unfolding finish record_controller_reconcile
  finish-Writes u start r = search (runs_rules, r, tt {0}) depth 12

  reconcile_snapshot_pod-Writes :
      (sp : SnapshotPod) (start : Time)
      → Runs Creates R (run_recs env (recs env) sp)
      → Runs (Writes R) Any (reconcile_snapshot_pod env sp start)
  unfolding reconcile_snapshot_pod
  reconcile_snapshot_pod-Writes sp start k =
      Runs-if (sp.spec.trigger_round ≤? pos 0) (pure (done_result, none)) _
        (λ _. Runs-pure (done_result, none) tt)
        λ _. Runs-bind _ _ (Runs-map (Creates-Writes R) k) λ u r. finish-Writes u start r

  pub reconcile-stored :
      {key : ObjectKey} (sv : Server env key)
      → ((sp u : SnapshotPod) → SameObject sp u → R sp → R u)
      → (sp : SnapshotPod) → R sp
      → Runs Creates R (run_recs env (recs env) sp)
      → Holds (λ tr. sv.stored tr ≡ sp) (reconcile env key) (λ a tr. R (sv.stored tr))
  unfolding reconcile ◌>>=◌
  reconcile-stored {key} sv alike sp r k = record {
    at = λ tr e.
        let got = sv.gives (now ∷ tr) ∙ ap ok (sv.keeps now tr tt ∙ e) in
        let held : sv.stored (get_snapshot_pod key ∷ now ∷ tr) ≡ sp =
          sv.keeps (get_snapshot_pod key) (now ∷ tr) tt ∙ (sv.keeps now tr tt ∙ e) in
        rw got (
          (Holds-weaken (λ tr x. x) (λ a tr (_, k). k)
              (Holds-Runs (λ tr. R (sv.stored tr)) (stored-Writes sv R alike)
                (reconcile_snapshot_pod-Writes sp (env.clock tr) k))).at
            (get_snapshot_pod key ∷ now ∷ tr) (subst R (sym held) r));
  }

pub Tracks-SameObject :
    (env : Env) (sp u v : SnapshotPod) → SameObject u v → Tracks env sp u → Tracks env sp v
Tracks-SameObject env sp u v s k = record {
  same_meta = s.same_meta ∙ k.same_meta;
  same_spec = s.same_spec ∙ k.same_spec;
  reached =
      subst (λ w. Reach (Seen env sp.meta.name) sp.spec.trigger_round (view sp) w) (sym s.same_view)
        k.reached;
}

module _ {env : Env} {key : ObjectKey} (sv : Server env key) (uuids : HasUuids env) where
  pub reconcile-Tracks :
      (sp : SnapshotPod)
      → Holds (λ tr. sv.stored tr ≡ sp) (reconcile env key) (λ a tr. Tracks env sp (sv.stored tr))
  reconcile-Tracks sp =
      reconcile-stored env (Tracks env sp) sv (Tracks-SameObject env sp) sp (Tracks-refl env sp)
        (run_recs-Tracks env uuids sp)

  pub reconciles-Tracks :
      (n : ℕ) (sp : SnapshotPod)
      → Holds
          (λ tr. sv.stored tr ≡ sp)
          (reconciles env key n)
          (λ a tr. Tracks env sp (sv.stored tr))
  unfolding reconciles pure
  reconciles-Tracks zero sp = record {
    at = λ tr e. subst (Tracks env sp) (sym e) (Tracks-refl env sp);
  }
  reconciles-Tracks (suc n) sp = Holds-bind _ _ (reconcile-Tracks sp) λ a. record {
    at = λ tr k.
        (Holds-weaken (λ tr e. e) (λ a tr later. Tracks-trans k later)
            (reconciles-Tracks n (sv.stored tr))).at
          tr refl;
  }

  -- Against a server that holds the SnapshotPod, accepts every update of its status and has no other
  -- client, and where a uuid has eight characters besides its dashes, any number of calls of
  -- `Reconcile` returns, keeps the metadata and the spec of the stored object, and moves its status
  -- as the machine of the round does, whatever the pods, the creates and the listings answer: the
  -- round is listed only while it is open and without an entry, closed only once it has one, and an
  -- entry ends once, as its task did in a listing.
  pub reconciles_refine_round :
      (n : ℕ) (tr : Trace)
      → ((reconciles env key n tr).0 ≡ returns tt)
        × Tracks env (sv.stored tr) (sv.stored (reconciles env key n tr).1)
  reconciles_refine_round n tr =
      After-returns (λ tr'. Tracks env (sv.stored tr) (sv.stored tr')) _ _
        ((reconciles-Tracks n (sv.stored tr)).at tr refl)
