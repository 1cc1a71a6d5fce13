-- ===== src/Pod/Target.antt =====
-- internal/controller/snapshotpod_controller.go: `getPod` and `validate`, the choice of the pod.
use kube_snapshot.Base.{
  String, Bool, true, false, Option, none, some, List, [], ◌∷◌, map, join, sprint, show_list,
  show_map, is_empty, filter_by, without, if◌then◌else◌,
}
use kube_snapshot.Base.Int.{◌==ℤ◌}
use kube_snapshot.Api.{SnapshotPod, PodObject, pod_running, pod_phase_other, Container, ObjectKey}
use kube_snapshot.World.{
  Error, errorf, Result, ok, err, Env, M, ◌>>=◌, pure, ask, handle, get_pod, list_pods,
}

abbrev pub is_running : PodObject → Bool
is_running p = elim p.phase [ pod_running ↦ true | pod_phase_other s ↦ false ]

-- the `switch` on the number of running pods
unfoldable pub only_pod : List (String × String) → List PodObject → Result PodObject
only_pod selector [] =
    err (errorf (sprint ("no running pod found with selector " ∷ show_map selector ∷ [])))
only_pod selector (p ∷ []) = ok p
only_pod selector (p ∷ q ∷ ps) =
    let names = map (λ (x : PodObject). x.meta.name) (p ∷ q ∷ ps) in
    err (
      errorf (
        sprint (
          "multiple running pods found with selector "
          ∷ show_map selector
          ∷ ": "
          ∷ join names ", "
          ∷ [])))

abbrev pub container_names : PodObject → List String
container_names p = map (λ (c : Container). c.name) p.containers

module _ (env : Env) where
  unfoldable pub pod_by_selector :
      SnapshotPod → Option (List (String × String)) → M (Result PodObject)
  pod_by_selector sp none = pure (err (errorf "target pod name or selector is required"))
  pod_by_selector sp (some selector) = do
    listed ←
        ask (list_pods selector sp.meta.namespace)
          (λ tr. env.pods_with tr selector sp.meta.namespace)
    handle listed
        (λ e. pure (err (record e { text = sprint ("failed to list pods: " ∷ e.text ∷ []) })))
        λ pods. pure (only_pod selector (filter_by is_running pods))

  -- A name goes before a selector.
  unfoldable pub get_target_pod : SnapshotPod → M (Result PodObject)
  get_target_pod sp =
      if is_empty sp.spec.target.name
      then pod_by_selector sp sp.spec.target.selector
      else (let key : ObjectKey = record {
        namespace = sp.meta.namespace;
        name = sp.spec.target.name;
      } in
          ask (get_pod key) (λ tr. env.pod_at tr key))

  -- the names of the target that are no container of the pod make it invalid
  unfoldable pub check_containers : List String → PodObject → Option Error
  check_containers wanted p = elim (without wanted (container_names p)) [
    | [] ↦ none
    | _ ∷ _ ↦ some (errorf (sprint ("containers " ∷ show_list wanted ∷ " not valid" ∷ [])))
  ]

  unfoldable pub validate : SnapshotPod → M (SnapshotPod × Option Error)
  validate sp =
      if sp.status.last_trigger_round ==ℤ sp.spec.trigger_round then pure (sp, none) else do
        got ← get_target_pod sp
        handle got (λ e. pure (sp, some e))
            λ p. pure (sp, check_containers sp.spec.target.containers p)
