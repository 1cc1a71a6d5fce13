-- ===== src/Task/Panics.antt =====
-- internal/controller/snapshotpodtask_controller.go: when `getRuntimeAndContainerID` panics.
use kube_snapshot.Base.{
  String, ◌≡◌, refl, Option, none, some, List, [], ◌∷◌, ◌↔◌, lookup, contains, false, sym, ◌∙◌, inl,
  inr, Bool-cases,
}
use mathlib.Core.Bool.{true≢false}
use kube_snapshot.Base.Splits.{split-whole, split-more}
use kube_snapshot.World.{Trace, panics, pure, panic}
use kube_snapshot.Runtime.{Runtime}
use kube_snapshot.Task.Steps.{
  TaskReconciler, pick_runtime, pick_parts, get_runtime_and_container_id,
}

pick_runtime-panics :
    (r : TaskReconciler) (name : String) (rest : List String) (o : Option Runtime) (tr : Trace)
    → ((pick_runtime r name rest o tr).0 ≡ panics)
      ↔ ((rest ≡ []) × ((rt : Runtime) × (o ≡ some rt)))
unfolding pick_runtime pure panic
pick_runtime-panics r name rest none tr = (λ e. cc, λ h. cc (h.1.1))
pick_runtime-panics r name [] (some rt) tr = (λ e. (refl, (rt, refl)), λ h. refl)
pick_runtime-panics r name (c ∷ cs) (some rt) tr = (λ e. cc, λ h. cc (h.0))

-- The lookup of the runtime panics exactly where "://" does not stand in the container id, and the
-- id is the name of a runtime of the node.
pub runtime_panics :
    (r : TaskReconciler) (container_id : String) (tr : Trace)
    → ((get_runtime_and_container_id r container_id tr).0 ≡ panics) ↔ (
        (contains container_id "://" ≡ false)
        × ((rt : Runtime) × (lookup container_id r.runtime_map ≡ some rt)))
unfolding get_runtime_and_container_id pick_parts
runtime_panics r id tr = elim (Bool-cases (contains id "://")) [
  | inl there ↦
      let (name, c, cs, parts) = split-more id ":" "//" there in
      rw parts (
        (λ e. absurd (
            nonempty ((pick_runtime-panics r name (c ∷ cs) (lookup name r.runtime_map) tr).0 e).0)),
        (λ h. absurd (true≢false (sym there ∙ h.0))),
      )
  | inr missing ↦ rw (split-whole id "://" missing) (
    (λ e. (missing, ((pick_runtime-panics r id [] (lookup id r.runtime_map) tr).0 e).1)),
    (λ h. (pick_runtime-panics r id [] (lookup id r.runtime_map) tr).1 (refl, h.1)),
  )
]
  where
    nonempty : {c : String} {cs : List String} → c ∷ cs ≡ [] → ⊥
    nonempty e = cc e
