-- ===== src/Pod/Tidy.antt =====
-- internal/controller/snapshotpod_controller.go: which conditions the loop of `Reconcile` leaves, also
-- where steps fail.
use kube_snapshot.Base.{
  ℕ, ◌≡◌, refl, sym, ◌∙◌, ap, Bool, true, Option, some, List, [], ◌∷◌, All, contains_text,
  get_elem?,
}
use mathlib.Core.Path.{subst}
use kube_snapshot.Api.{Condition, cond_true, SnapshotPod}
use kube_snapshot.World.{Env, Error, M, now}
use kube_snapshot.World.Logic.{
  Runs, Runs-pure, Runs-ask, Runs-if, Runs-check, Runs-bind, Runs-bind_free, Runs-both, Runs-weaken,
}
use kube_snapshot.Condition.{cmp_condition_without_time}
use kube_snapshot.Condition.Done.{index_of-get_elem?-some, ensure_condition-Located}
use kube_snapshot.Condition.Types.{
  types, add_type, types-modify, ensure_condition-types, IsTidy, add_type-IsTidy,
}
use kube_snapshot.Pod.Reconcile.{
  Rec, with_conditions, modify_condition, pass_round, round_at, run_rec, run_recs, recs,
}
use kube_snapshot.Pod.Sound.{HasUuids, clock}
use kube_snapshot.Pod.Appends.{Creates, reads}
use kube_snapshot.Pod.Moves.{
  Tracks, validate-Tracks, reconcile_tasks-Tracks, reconcile_tasks_status-Tracks,
}
use kube_snapshot.Pod.Live.{steps}
use kube_snapshot.Pod.Refined.{Tracks-refl}

-- a step that leaves the conditions alone, with an error or without
abbrev pub IsCalm : Rec → Type 0
IsCalm rec =
    (sp : SnapshotPod)
    → Runs Creates
        (λ (x : SnapshotPod × Option Error). x.0.status.conditions ≡ sp.status.conditions)
        (rec.run sp)

module _ (env : Env) where
  module _ (i : ℕ) (cs : List Condition) (old : Condition) (there : get_elem? cs i ≡ some old)
      (u : SnapshotPod) (same : u.status.conditions ≡ cs) where
    modified-types :
        (f : Condition → Condition)
        → (f old).typ ≡ old.typ
        → types (modify_condition i f u).status.conditions ≡ types cs
    modified-types f e =
        ap (λ c. types (modify_condition i f (with_conditions u c)).status.conditions) same
        ∙ types-modify i f cs old there e

    pass_round-types :
        Runs Creates (λ v. types v.status.conditions ≡ types cs) (pass_round env i old u)
    unfolding pass_round
    pass_round-types =
        Runs-if (cmp_condition_without_time old (record old { status = cond_true })) _ _
          (λ _. Runs-pure _ (modified-types _ refl))
          λ _.
            Runs-bind_free _ _ (Runs-ask now env.clock (reads clock) (λ tr. tt))
              λ t. Runs-pure _ (modified-types _ refl)

  module _ (rec : Rec) (calm : IsCalm rec) (sp : SnapshotPod) where
    round_at-types :
        (i : ℕ) (cs : List Condition) (old : Condition)
        → get_elem? cs i ≡ some old
        → Runs Creates
            (λ (x : SnapshotPod × Bool). types x.0.status.conditions ≡ types cs)
            (round_at env rec i (with_conditions sp cs) (some old))
    unfolding round_at
    round_at-types i cs old there =
        Runs-bind _ _ (calm (with_conditions sp cs)) λ (u, failure) same.
          Runs-check failure _ _ (λ e. Runs-pure _ (modified-types i cs old there u same _ refl))
            λ _. Runs-bind _ _ (pass_round-types i cs old there u same) λ v e. Runs-pure (v, true) e

    run_rec-types :
        Runs Creates
          (λ (x : SnapshotPod × Bool).
            types x.0.status.conditions ≡ add_type rec.typ (types sp.status.conditions))
          (run_rec env rec sp)
    unfolding run_rec
    run_rec-types =
        Runs-bind _ _
          (Runs-both {P' = Creates}
            (ensure_condition-Located env rec.typ sp.status.conditions (reads clock))
            (ensure_condition-types env rec.typ sp.status.conditions (reads clock)))
          λ (i, cs) (located, added).
            let (old, there) = index_of-get_elem?-some rec.typ cs i located.0 in
            rw there (Runs-weaken (λ x e. e ∙ added) (round_at-types i cs old there))

  pub run_recs-IsTidy :
      (rs : List Rec)
      → All (λ rec. IsCalm rec × (contains_text steps rec.typ ≡ true)) rs
      → (sp : SnapshotPod) → IsTidy steps (types sp.status.conditions)
      → Runs Creates (λ v. IsTidy steps (types v.status.conditions)) (run_recs env rs sp)
  unfolding run_recs
  run_recs-IsTidy [] calm sp t = Runs-pure sp t
  run_recs-IsTidy (rec ∷ rs) calm sp t =
      Runs-bind _ _ (run_rec-types rec calm.0.0 sp) λ (u, goes_on) e.
        let tidy = subst (IsTidy steps) (sym e) (add_type-IsTidy steps _ rec.typ calm.0.1 t) in
        Runs-if goes_on _ _ (λ _. run_recs-IsTidy rs calm.1 u tidy) (λ _. Runs-pure u tidy)

  -- each step leaves the conditions alone, whatever it moves of the rest
  pub calm_of :
      (f : SnapshotPod → M (SnapshotPod × Option Error))
      → ((u : SnapshotPod)
          → Tracks env u u
          → Runs Creates
              (λ (x : SnapshotPod × Option Error).
                Tracks env u x.0 × (x.0.status.conditions ≡ u.status.conditions))
              (f u))
      → (u : SnapshotPod)
      → Runs Creates
          (λ (x : SnapshotPod × Option Error). x.0.status.conditions ≡ u.status.conditions)
          (f u)
  calm_of f moves u = Runs-weaken (λ x m. m.1) (moves u (Tracks-refl env u))

  pub recs-IsTidy :
      HasUuids env
      → (sp : SnapshotPod) → IsTidy steps (types sp.status.conditions)
      → Runs Creates (λ v. IsTidy steps (types v.status.conditions)) (run_recs env (recs env) sp)
  recs-IsTidy uuids = run_recs-IsTidy (recs env) (
    (calm_of _ (λ u. validate-Tracks env u), refl),
    (
      (calm_of _ (λ u. reconcile_tasks-Tracks env uuids u), refl),
      ((calm_of _ (λ u. reconcile_tasks_status-Tracks env u), refl), tt),
    ),
  )
