-- ===== src/Pod/Continues.antt =====
-- A SnapshotPod whose round is listed: nothing more is listed for it.
use kube_snapshot.Base.{
  String, ◌≡◌, refl, sym, ◌∙◌, true, List, [], ◌∷◌, inl, inr, ◌⊎◌, arith, Pairwise, Bool-cases,
}
use mathlib.Core.Bool.{true≢false}
use kube_snapshot.Base.Int.{ℤ, ◌==ℤ◌, ==ℤ_refl}
use kube_snapshot.Base.AllLaws.{Pairwise-refl, Pairwise-trans, Pairwise-map_each}
use kube_snapshot.Api.{SnapshotPodTaskPhase}
use kube_snapshot.Pod.Safe.{Stays, Stays-refl, Stays-trans, Next-Stays}
use kube_snapshot.Pod.Machine.{Entry, View, has_round, Step, list, close, follow, Reach, stay, go}

module _ (round : ℤ) where
  -- the round is closed or has an entry
  abbrev pub IsListed : View → Type 0
  IsListed v = ((v.last ==ℤ round) ≡ true) ⊎ (has_round round v.entries ≡ true)

  Stays-has_round :
      (es fs : List Entry)
      → Pairwise Stays es fs
      → has_round round es ≡ true
      → has_round round fs ≡ true
  Stays-has_round [] fs p h = cc h
  Stays-has_round (e ∷ es) [] p h = absurd p
  Stays-has_round (e ∷ es) (f ∷ fs) p h = elim (Bool-cases (e.round ==ℤ round)) [
    | inl here ↦ rw (p.0.same_round, here) refl
    | inr later ↦
        let rest = Stays-has_round es fs p.1 (ground (arith, later, h)) in
        elim (Bool-cases (f.round ==ℤ round)) [
          | inl also ↦ rw also refl
          | inr other ↦ rw other rest
        ]
  ]

module _ (Seen : String → SnapshotPodTaskPhase → Type 0) (round : ℤ) where
  -- such a view, with the entries of `v`
  abbrev pub Continues : View → View → Type 0
  Continues v w = IsListed round w × Pairwise Stays v.entries w.entries

  Step-Continues : (v : View) {u w : View} → Continues v u → Step Seen round u w → Continues v w
  Step-Continues v (inl over, p) (list u new open_round unlisted all_new) =
      absurd (true≢false (sym over ∙ open_round))
  Step-Continues v (inr there, p) (list u new open_round unlisted all_new) =
      absurd (true≢false (sym there ∙ unlisted))
  Step-Continues v (l, p) (close u open_round listed) = (inl (==ℤ_refl round), p)
  Step-Continues v (l, p) (follow u es next) =
      let stay = Pairwise-map_each u.entries es (Next-Stays Seen) next in
      (
        elim l [
          | inl over ↦ inl over
          | inr there ↦ inr (Stays-has_round round u.entries es stay there)
        ],
        Pairwise-trans Stays-trans v.entries u.entries es p stay,
      )

  -- No number of steps lists anything for a round that is listed.
  pub Reach-Continues : {v w : View} → IsListed round v → Reach Seen round v w → Continues v w
  Reach-Continues {v} l stay = (l, Pairwise-refl Stays Stays-refl v.entries)
  Reach-Continues {v} l (go r step) = Step-Continues v (Reach-Continues l r) step
