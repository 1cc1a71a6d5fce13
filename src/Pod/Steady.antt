-- ===== src/Pod/Steady.antt =====
-- What a call of `Reconcile` keeps of a SnapshotPod whose round is listed, also where steps fail.
use kube_snapshot.Base.{ℕ, zero, suc, ◌≡◌, refl, sym, ◌∙◌, ap, true, ◌⊎◌, inl, inr, Pairwise, map}
use mathlib.Core.Path.{subst}
use kube_snapshot.Base.Int.{◌==ℤ◌, pos, ◌≤?◌}
use kube_snapshot.Api.{SnapshotPod, SnapshotPodSpec, ObjectKey}
use kube_snapshot.World.{Env, pure}
use kube_snapshot.World.Logic.{Runs-both}
use kube_snapshot.World.State.{Holds, Holds-bind, Holds-weaken}
use kube_snapshot.Condition.Types.{types, types-untimed, IsTidy}
use kube_snapshot.Pod.Target.{pod_by_selector, get_target_pod}
use kube_snapshot.Pod.Reconcile.{reconcile}
use kube_snapshot.Pod.Sound.{HasUuids, lists_round}
use kube_snapshot.Pod.Appends.{some_by-entry}
use kube_snapshot.Pod.Machine.{entry, view, has_round}
use kube_snapshot.Pod.Moves.{Seen, Tracks}
use kube_snapshot.Base.AllLaws.{Pairwise-refl, Pairwise-trans}
use kube_snapshot.Pod.Safe.{Stays, Stays-refl, Stays-trans, Reach-Closed}
use kube_snapshot.Pod.Continues.{IsListed, Reach-Continues}
use kube_snapshot.Pod.Closing.{is_closed, HasTarget}
use kube_snapshot.Pod.Live.{steps, Listed}
use kube_snapshot.Pod.Server.{SameObject, Server}
use kube_snapshot.Pod.Refined.{
  reconciles, Tracks-refl, Tracks-trans, run_recs-Tracks, Tracks-SameObject, reconcile-stored,
}
use kube_snapshot.Pod.Tidy.{recs-IsTidy}

pub target_kept :
    (env : Env) (sp u : SnapshotPod)
    → u.meta ≡ sp.meta
    → u.spec ≡ sp.spec
    → HasTarget env sp
    → HasTarget env u
unfolding get_target_pod pod_by_selector
target_kept env sp u m s target = rw (m, s) target

module _ (env : Env) {sp u : SnapshotPod} (k : Tracks env sp u) where
  -- what the machine says of the round, for the object
  closed-of : (u.status.last_trigger_round ==ℤ sp.spec.trigger_round) ≡ true → is_closed u ≡ true
  closed-of h =
      ap (λ (s : SnapshotPodSpec). u.status.last_trigger_round ==ℤ s.trigger_round) k.same_spec ∙ h

  listed-of :
      IsListed sp.spec.trigger_round (view u) → (is_closed u ≡ true) ⊎ (lists_round u ≡ true)
  listed-of (inl over) = inl (closed-of over)
  listed-of (inr there) = inr (
      some_by-entry u.spec.trigger_round u.status.snapshots
      ∙ ap (λ (s : SnapshotPodSpec). has_round s.trigger_round (map entry u.status.snapshots))
          k.same_spec
      ∙ there)

  IsListed-of :
      (is_closed sp ≡ true) ⊎ (lists_round sp ≡ true) → IsListed sp.spec.trigger_round (view sp)
  IsListed-of (inl over) = inl over
  IsListed-of (inr there) =
      inr (sym (some_by-entry sp.spec.trigger_round sp.status.snapshots) ∙ there)

  accepted-of : (is_closed sp ≡ true) ⊎ HasTarget env sp → (is_closed u ≡ true) ⊎ HasTarget env u
  accepted-of (inl over) =
      inl (closed-of (Reach-Closed (Seen env sp.meta.name) sp.spec.trigger_round over k.reached).0)
  accepted-of (inr target) = inr (target_kept env sp u k.same_meta k.same_spec target)

  pub Listed-Tracks :
      Listed env sp
      → IsTidy steps (types u.status.conditions)
      → Listed env u × Pairwise Stays (map entry sp.status.snapshots) (map entry u.status.snapshots)
  Listed-Tracks y tidy =
      let (l, stay) =
        Reach-Continues (Seen env sp.meta.name) sp.spec.trigger_round (IsListed-of y.listed)
          k.reached in
      (
        record {
          wanted = ap (λ (s : SnapshotPodSpec). s.trigger_round ≤? pos 0) k.same_spec ∙ y.wanted;
          accepted = accepted-of y.accepted;
          listed = listed-of l;
          tidy = tidy;
        },
        stay,
      )

pub IsTidy-SameObject :
    (w u : SnapshotPod)
    → SameObject w u
    → IsTidy steps (types w.status.conditions)
    → IsTidy steps (types u.status.conditions)
IsTidy-SameObject w u s t =
    subst (IsTidy steps)
      (sym (types-untimed w.status.conditions)
        ∙ ap types (sym s.same_conditions)
        ∙ types-untimed u.status.conditions)
      t

-- the object is still of a listed round, of which it has the same snapshots
abbrev pub Continued : Env → SnapshotPod → SnapshotPod → Type 0
Continued env sp u =
    Listed env u
    × Tracks env sp u
    × Pairwise Stays (map entry sp.status.snapshots) (map entry u.status.snapshots)

module _ {env : Env} {key : ObjectKey} (sv : Server env key) (uuids : HasUuids env) where
  pub reconcile-Continued :
      (sp : SnapshotPod)
      → Listed env sp
      → Holds
          (λ tr. sv.stored tr ≡ sp)
          (reconcile env key)
          (λ a tr. Continued env sp (sv.stored tr))
  reconcile-Continued sp y =
      Holds-weaken (λ tr e. e)
        (λ a tr (k, tidy). let (l, stay) = Listed-Tracks env k y tidy in (l, k, stay))
        (reconcile-stored env (λ u. Tracks env sp u × IsTidy steps (types u.status.conditions)) sv
          (λ w u s (k, t). (Tracks-SameObject env sp w u s k, IsTidy-SameObject w u s t)) sp
          (Tracks-refl env sp, y.tidy)
          (Runs-both (run_recs-Tracks env uuids sp) (recs-IsTidy env uuids sp y.tidy)))

  pub reconciles-Continued :
      (n : ℕ) (sp : SnapshotPod)
      → Listed env sp
      → Holds
          (λ tr. sv.stored tr ≡ sp)
          (reconciles env key n)
          (λ a tr. Continued env sp (sv.stored tr))
  unfolding reconciles pure
  reconciles-Continued zero sp y = record {
    at = λ tr e.
        subst (Continued env sp) (sym e)
          (y, Tracks-refl env sp, Pairwise-refl Stays Stays-refl (map entry sp.status.snapshots));
  }
  reconciles-Continued (suc n) sp y = Holds-bind _ _ (reconcile-Continued sp y) λ a. record {
    at = λ tr (l, k, stay).
        (Holds-weaken (λ tr e. e)
            (λ a tr' (l', k', stay').
              (l', Tracks-trans k k', Pairwise-trans Stays-trans _ _ _ stay stay'))
            (reconciles-Continued n (sv.stored tr) l)).at
          tr refl;
  }
