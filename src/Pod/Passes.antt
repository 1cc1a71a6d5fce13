-- ===== src/Pod/Passes.antt =====
-- internal/controller/snapshotpod_controller.go: a round of the loop of `Reconcile` in which the step
-- returns without an error.
use kube_snapshot.Base.{
  ℕ, String, ◌≡◌, refl, ◌∙◌, ap, Bool, true, Option, none, some, List, ◌∷◌, get_elem?, modify, ◌==◌,
  eq_refl, Bool-cases, inl, inr, if◌then◌else◌,
}
use kube_snapshot.Api.{SnapshotPod, Condition, is_cond_true, cond_true}
use kube_snapshot.World.{Call, Trace, Env, Error, now}
use kube_snapshot.World.Logic.{Runs, Runs-pure, Runs-ask, Runs-if, Runs-bind_free, Runs-both}
use kube_snapshot.World.State.{Holds, Holds-pure, Holds-bind, Holds-Runs, Holds-given}
use kube_snapshot.Condition.{cmp_condition_without_time}
use kube_snapshot.Condition.Done.{
  is_done, is_done-modify, index_of-get_elem?, index_of-get_elem?-some, ensure_condition-Located,
  Located,
}
use kube_snapshot.Condition.Types.{types, add_type, types-modify, ensure_condition-types}
use kube_snapshot.Pod.Reconcile.{
  Rec, with_conditions, modify_condition, pass_round, round_at, run_rec,
}
use kube_snapshot.Pod.Sound.{Reads, clock}

-- The step `typ` is done after it, no other step is undone, and `K` holds of the object.
pub record Passed (K : SnapshotPod → Type 0) (typ : String) (sp v : SnapshotPod) : Type 0 where
  pub result : K v
  pub this : is_done typ v.status.conditions ≡ true
  pub before :
      (other : String)
      → is_done other sp.status.conditions ≡ true
      → is_done other v.status.conditions ≡ true
  pub added : types v.status.conditions ≡ add_type typ (types sp.status.conditions)

-- a step of the object returned without an error, with `L`, and left its conditions alone
abbrev pub Fine :
    (Trace → Type 0)
    → (SnapshotPod → Type 0)
    → SnapshotPod
    → SnapshotPod × Option Error
    → Trace
    → Type 0
Fine I L sp x tr = ((x.1 ≡ none) × (x.0.status.conditions ≡ sp.status.conditions) × L x.0) × I tr

abbrev pub Passes :
    (Trace → Type 0) → (SnapshotPod → Type 0) → (SnapshotPod → Type 0) → Rec → Type 0
Passes I K L rec = (sp : SnapshotPod) → K sp → Holds I (rec.run sp) (Fine I L sp)

-- a claim that says nothing of the conditions
abbrev pub Ignores : (SnapshotPod → Type 0) → Type 0
Ignores K = (sp : SnapshotPod) (cs : List Condition) → K sp → K (with_conditions sp cs)

module _ (env : Env) (L : SnapshotPod → Type 0) (ignores : Ignores L) (typ : String)
    (sp u : SnapshotPod) (i : ℕ) (cs : List Condition) (old : Condition)
    (located : Located typ sp.status.conditions (i, cs))
    (types_of : types cs ≡ add_type typ (types sp.status.conditions))
    (there : get_elem? cs i ≡ some old) (same : u.status.conditions ≡ cs) (l : L u) where
  modified :
      (f : Condition → Condition)
      → (f old).typ ≡ old.typ
      → is_cond_true (f old).status ≡ true
      → Passed L typ sp (modify_condition i f u)
  modified f same_typ passes =
      let at = index_of-get_elem? typ cs i old located.0 there in
      let step = λ (other : String).
        ap (λ c. is_done other (modify i f c)) same
        ∙ is_done-modify typ other cs i f old located.0 there (same_typ ∙ at.0) in
      record {
        result = ignores u _ l;
        this = step typ ∙ rw (eq_refl typ) passes;
        before = λ other h. step other ∙ kept other h;
        added =
            ap (λ c. types (modify i f c)) same ∙ types-modify i f cs old there same_typ ∙ types_of;
      }
    where
      kept :
          (other : String)
          → is_done other sp.status.conditions ≡ true
          → (if typ == other then is_cond_true (f old).status else is_done other cs) ≡ true
      kept other h = elim (Bool-cases (typ == other)) [
        | inl this ↦ rw this passes
        | inr not_this ↦ rw not_this (located.1 other ∙ h)
      ]

  pass_round-Passed : Runs Reads (Passed L typ sp) (pass_round env i old u)
  unfolding pass_round
  pass_round-Passed =
      Runs-if (cmp_condition_without_time old (record old { status = cond_true })) _ _
        (λ _. Runs-pure _ (modified _ refl refl))
        λ _.
          Runs-bind_free _ _ (Runs-ask now env.clock clock (λ tr. tt))
            λ t. Runs-pure _ (modified _ refl refl)

module _ (env : Env) (I : Trace → Type 0) (later : (c : Call) (tr : Trace) → I tr → I (c ∷ tr))
    (K L : SnapshotPod → Type 0) (ignores_K : Ignores K) (ignores_L : Ignores L) (rec : Rec)
    (passes : Passes I K L rec) (sp : SnapshotPod) (k : K sp) where
  round_at-Passed :
      (i : ℕ) (cs : List Condition) (old : Condition)
      → Located rec.typ sp.status.conditions (i, cs)
      → types cs ≡ add_type rec.typ (types sp.status.conditions)
      → get_elem? cs i ≡ some old
      → Holds I
          (round_at env rec i (with_conditions sp cs) (some old))
          (λ (x : SnapshotPod × Bool) tr. ((x.1 ≡ true) × Passed L rec.typ sp x.0) × I tr)
  unfolding round_at
  round_at-Passed i cs old located types_of there =
      Holds-bind _ _ (passes (with_conditions sp cs) (ignores_K sp cs k)) λ (u, failure).
        Holds-given λ (fine, same, l). rw fine (
          Holds-bind _ _
            (Holds-Runs I (λ c tr _. later c tr)
              (pass_round-Passed env L ignores_L rec.typ sp u i cs old located types_of there same
                l))
            λ v. Holds-given λ p. Holds-pure (v, true) (λ tr i. ((refl, p), i)))

  pub run_rec-Passed :
      Holds I
        (run_rec env rec sp)
        (λ (x : SnapshotPod × Bool) tr. ((x.1 ≡ true) × Passed L rec.typ sp x.0) × I tr)
  unfolding run_rec
  run_rec-Passed =
      Holds-bind _ _
        (Holds-Runs I (λ c tr _. later c tr)
          (Runs-both {P = Reads} {P' = Reads}
            (ensure_condition-Located env rec.typ sp.status.conditions clock)
            (ensure_condition-types env rec.typ sp.status.conditions clock)))
        λ (i, cs). Holds-given λ (located, types_of).
          let (old, there) = index_of-get_elem?-some rec.typ cs i located.0 in
          rw there (round_at-Passed i cs old located types_of there)
