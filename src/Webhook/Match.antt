-- ===== src/Webhook/Match.antt =====
-- internal/webhooks/pod.go: the SnapshotPod that a pod belongs to, as both handlers look for it.
use kube_snapshot.Base.{
  String, Bool, false, Option, none, some, List, ◌==◌, every_by, find_by, lookup_text, is_empty,
  if◌then◌else◌,
}
use kube_snapshot.Api.{SnapshotPod, PodObject}

-- each entry of the selector stands in the labels, where a missing label reads as ""
abbrev pub selects : List (String × String) → List (String × String) → Bool
selects selector labels = every_by (λ e. lookup_text e.0 labels == e.1) selector

abbrev pub selector_matches :
    Option (List (String × String)) → Option (List (String × String)) → Bool
selector_matches none labels = false
selector_matches (some selector) none = false
selector_matches (some selector) (some labels) = selects selector labels

unfoldable pub targets : SnapshotPod → PodObject → Bool
targets sp p =
    if is_empty sp.spec.target.name
    then selector_matches sp.spec.target.selector p.meta.labels
    else sp.spec.target.name == p.meta.name

-- the first of the list that targets the pod
unfoldable pub find_target : List SnapshotPod → PodObject → Option SnapshotPod
find_target sps p = find_by (λ sp. targets sp p) sps
