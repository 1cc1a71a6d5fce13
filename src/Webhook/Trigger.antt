-- ===== src/Webhook/Trigger.antt =====
-- internal/webhooks/pod.go: what a request makes of the API server.
use kube_snapshot.Base.{
  ◌≡◌, refl, true, false, Option, none, some, List, [], ◌∷◌, ◌++◌, ◌==◌, ◌&&◌, ◌⊎◌, inl, inr, arith,
  All, is_empty,
}
use kube_snapshot.Base.Int.{ℤ, inc32}
use kube_snapshot.Api.{SnapshotPod, PodObject}
use kube_snapshot.World.{
  Trace, Error, Env, Result, ok, err, returns, ◌>>=◌, list_snapshot_pods, update_snapshot_pod,
}
use kube_snapshot.Webhook.Match.{targets, find_target}
use kube_snapshot.Webhook.Handle.{
  delete_op, Request, is_deleting, trigger_round_of, handle_pod_update, handle_delete, dispatch,
  handle_request,
}

-- the request is for a pod
abbrev pub IsForPod : Request → Type 0
IsForPod req = (is_empty req.group && (req.version == "v1" && req.resource == "pods")) ≡ true

-- the object with its next round
abbrev pub bumped : SnapshotPod → SnapshotPod
bumped sp = record sp { spec = record sp.spec { trigger_round = inc32 sp.spec.trigger_round } }

Result-cases : {A : Type 0} (r : Result A) → ((a : A) × (r ≡ ok a)) ⊎ ((x : Error) × (r ≡ err x))
Result-cases (ok a) = inl (a, refl)
Result-cases (err x) = inr (x, refl)

-- the first object that targets the pod is found
pub find_target_first :
    (before after : List SnapshotPod) (sp : SnapshotPod) (p : PodObject)
    → All (λ q. targets q p ≡ false) before
    → targets sp p ≡ true
    → find_target (before ++ sp ∷ after) p ≡ some sp
unfolding find_target
find_target_first [] after sp p none_before found = rw found refl
find_target_first (q ∷ before) after sp p none_before found =
    rw none_before.0 (find_target_first before after sp p none_before.1 found)

module _ (env : Env) where
  -- the update of the object that was found, whatever the server answers
  trigger_round_of-update :
      (sp : SnapshotPod) (tr : Trace)
      → sp.spec.auto_save_options.auto_save_on_termination ≡ true
      → (x : ℤ × Option Error) × (trigger_round_of env (some sp) tr
          ≡ (returns x, update_snapshot_pod (bumped sp) ∷ tr))
  unfolding trigger_round_of ◌>>=◌
  trigger_round_of-update sp tr saves =
      elim (Result-cases (env.snapshot_pod_updated tr (bumped sp))) [
        | inl (stored, e) ↦ ((stored.spec.trigger_round, none), ground (arith, saves, e))
        | inr (x, e) ↦ (((bumped sp).spec.trigger_round, some x), ground (arith, saves, e))
      ]

  -- By a request to delete a pod that is not being deleted yet, the first SnapshotPod of its
  -- namespace that targets it, and that saves at termination, is updated once, to its next round,
  -- after the list and without any other call.
  pub delete_triggers :
      (req : Request) (tr : Trace) (p : PodObject) (before after : List SnapshotPod)
      (sp : SnapshotPod)
      → IsForPod req
      → req.operation ≡ delete_op
      → env.decode_pod req.old_object ≡ ok p
      → is_deleting p ≡ false
      → env.snapshot_pods_in tr (some p.meta.namespace) ≡ ok (before ++ sp ∷ after)
      → All (λ q. targets q p ≡ false) before
      → targets sp p ≡ true
      → sp.spec.auto_save_options.auto_save_on_termination ≡ true
      → (handle_request env req tr).1
        ≡ update_snapshot_pod (bumped sp) ∷ list_snapshot_pods (some p.meta.namespace) ∷ tr
  unfolding handle_request dispatch handle_delete handle_pod_update ◌>>=◌
  delete_triggers req tr p before after sp pods deletes decoded alive listed none_before found
        saves =
      let (x, e) =
        trigger_round_of-update sp (list_snapshot_pods (some p.meta.namespace) ∷ tr) saves in
      rw
        (
          pods,
          deletes,
          decoded,
          alive,
          listed,
          find_target_first before after sp p none_before found,
          e,
        )
        refl
