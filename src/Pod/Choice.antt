-- ===== src/Pod/Choice.antt =====
-- internal/controller/snapshotpod_controller.go: which pod `getPod` chooses, and what `validate` says.
use kube_snapshot.Base.{
  none, refl, false, All, without, contains_text, Bool-cases, inl, inr, sym, ◌∙◌, String, ◌≡◌, true,
  some, List, [], ◌∷◌, ◌↔◌, is_empty, filter_by, arith,
}
use mathlib.Core.Bool.{true≢false}
use kube_snapshot.Base.Int.{◌==ℤ◌}
use kube_snapshot.Api.{SnapshotPod, PodObject}
use kube_snapshot.World.{Env, Trace, ok, returns, ◌>>=◌}
use kube_snapshot.Pod.Target.{
  container_names, check_containers, validate, is_running, only_pod, pod_by_selector,
  get_target_pod,
}

only_pod-ok :
    (selector : List (String × String)) (ps : List PodObject) (p : PodObject)
    → only_pod selector ps ≡ ok p
    → ps ≡ p ∷ []
unfolding only_pod
only_pod-ok selector [] p e = cc
only_pod-ok selector (q ∷ []) p e = cc e
only_pod-ok selector (q ∷ r ∷ ps) p e = cc

-- Without a name, and where the server lists the pods of the namespace by the selector, `getPod`
-- gives a pod exactly where it is the one of those listed that is running, also where the selector
-- matches others that are not.
pub target_only_running :
    (env : Env) (sp : SnapshotPod) (tr : Trace) (selector : List (String × String))
    (pods : List PodObject) (p : PodObject)
    → is_empty sp.spec.target.name ≡ true
    → sp.spec.target.selector ≡ some selector
    → env.pods_with tr selector sp.meta.namespace ≡ ok pods
    → (get_target_pod env sp tr).0 ≡ returns (ok p) ↔ filter_by is_running pods ≡ p ∷ []
unfolding get_target_pod pod_by_selector only_pod ◌>>=◌
target_only_running env sp tr selector pods p unnamed selects listed = (
  λ e. only_pod-ok selector (filter_by is_running pods) p (ground (arith, e)),
  λ e. ground (arith, e),
)

pub without-nil :
    (wanted names : List String)
    → (without wanted names ≡ []) ↔ All (λ c. contains_text names c ≡ true) wanted
without-nil [] names = (λ h. tt, λ h. refl)
without-nil (c ∷ wanted) names =
    let (to, from) = without-nil wanted names in
    elim (Bool-cases (contains_text names c)) [
      | inl there ↦
          (λ e. (there, to (ground (arith, there, e))), λ a. ground (arith, there, from a.1))
      | inr missing ↦
          (λ e. absurd (ground (arith, missing, e)), λ a. absurd (true≢false (sym a.0 ∙ missing)))
    ]

-- For a round that is not closed and a pod that was found, `validate` accepts the object exactly
-- where every container that its target names is a container of the pod.
validate_accepts :
    (env : Env) (sp : SnapshotPod) (p : PodObject) (tr tr' : Trace)
    → (sp.status.last_trigger_round ==ℤ sp.spec.trigger_round) ≡ false
    → get_target_pod env sp tr ≡ (returns (ok p), tr')
    → ((validate env sp tr).0 ≡ returns (sp, none))
      ↔ All (λ c. contains_text (container_names p) c ≡ true) sp.spec.target.containers
unfolding validate check_containers ◌>>=◌
validate_accepts env sp p tr tr' open_round found =
    let (to, from) = without-nil sp.spec.target.containers (container_names p) in
    (λ e. to (ground (arith, open_round, found, e)), λ a. ground (arith, open_round, found, from a))
