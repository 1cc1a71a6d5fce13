-- ===== src/Pod/Rounds.antt =====
-- internal/controller/snapshotpod_controller.go: the loop of `Reconcile` over its steps, which
-- itself changes nothing but the conditions.
use kube_snapshot.Base.{ℕ, ◌≡◌, Bool, Option, none, some, List, [], ◌∷◌, get_elem?, All}
use kube_snapshot.Api.{SnapshotPod, Condition, cond_true}
use kube_snapshot.World.{Call, Env, Error, now}
use kube_snapshot.World.Logic.{
  Runs, Runs-pure, Runs-ask, Runs-if, Runs-check, Runs-bind, Runs-bind_free,
}
use kube_snapshot.Condition.{cmp_condition_without_time}
use kube_snapshot.Condition.Done.{ensure_condition-Located, index_of-get_elem?-some}
use kube_snapshot.Pod.Reconcile.{Rec, with_conditions, pass_round, round_at, run_rec, run_recs}

-- a step that keeps `K`, with an error or without
abbrev pub IsKeeping : (Call → Type 0) → (SnapshotPod → Type 0) → Rec → Type 0
IsKeeping P K rec =
    (sp : SnapshotPod) → K sp → Runs P (λ (x : SnapshotPod × Option Error). K x.0) (rec.run sp)

module _ {P : Call → Type 0} (clock : P now) (K : SnapshotPod → Type 0)
    (keeps : (sp : SnapshotPod) (cs : List Condition) → K sp → K (with_conditions sp cs))
    (env : Env) where
  pass_round-Keeps :
      (i : ℕ) (old : Condition) (sp : SnapshotPod) → K sp → Runs P K (pass_round env i old sp)
  unfolding pass_round
  pass_round-Keeps i old sp k =
      Runs-if (cmp_condition_without_time old (record old { status = cond_true })) _ _
        (λ _. Runs-pure _ (keeps sp _ k))
        λ _.
          Runs-bind_free _ _ (Runs-ask now env.clock clock (λ tr. tt))
            λ t. Runs-pure _ (keeps sp _ k)

  round_at-Keeps :
      (rec : Rec)
      → IsKeeping P K rec
      → (i : ℕ) (sp : SnapshotPod) (o : Option Condition) → (c : Condition) × (o ≡ some c)
      → K sp
      → Runs P (λ (x : SnapshotPod × Bool). K x.0) (round_at env rec i sp o)
  unfolding round_at
  round_at-Keeps rec sound i sp none (c, e) k = cc
  round_at-Keeps rec sound i sp (some old) found k = Runs-bind _ _ (sound sp k) λ (u, failure) l.
      Runs-check failure _ _ (λ e. Runs-pure _ (keeps u _ l))
        λ _. Runs-bind _ _ (pass_round-Keeps i old u l) λ v m. Runs-pure _ m

  run_rec-Keeps :
      (rec : Rec)
      → IsKeeping P K rec
      → (sp : SnapshotPod) → K sp
      → Runs P (λ (x : SnapshotPod × Bool). K x.0) (run_rec env rec sp)
  unfolding run_rec
  run_rec-Keeps rec sound sp k =
      Runs-bind _ _ (ensure_condition-Located env rec.typ sp.status.conditions clock)
        λ (i, cs) located.
          round_at-Keeps rec sound i (with_conditions sp cs) (get_elem? cs i)
            (index_of-get_elem?-some rec.typ cs i located.0) (keeps sp cs k)

  -- What every step keeps, the loop keeps.
  pub run_recs-Keeps :
      (steps : List Rec)
      → All (IsKeeping P K) steps
      → (sp : SnapshotPod) → K sp
      → Runs P K (run_recs env steps sp)
  unfolding run_recs
  run_recs-Keeps [] sound sp k = Runs-pure sp k
  run_recs-Keeps (rec ∷ steps) sound sp k =
      Runs-bind _ _ (run_rec-Keeps rec sound.0 sp k) λ (u, goes_on) l.
        Runs-if goes_on _ _ (λ _. run_recs-Keeps steps sound.1 u l) (λ _. Runs-pure u l)
