-- ===== src/Webhook/Quiet.antt =====
-- internal/webhooks/pod.go: every request gets a response, and only a deletion writes.
use kube_snapshot.Base.{◌≡◌, Option, none, some, [], ◌∷◌}
use kube_snapshot.Api.{SnapshotPod, PodObject}
use kube_snapshot.World.{Call, Env, ◌>>=◌, list_snapshot_pods, update_snapshot_pod, range_keys}
use kube_snapshot.World.Logic.{Runs, Any, same, Runs-pure, runs_rules}
use kube_snapshot.Webhook.Images.{Images}
use kube_snapshot.Webhook.Handle.{
  Operation, create_op, delete_op, other_op, Request, trigger_round_of, handle_pod_update,
  handle_pod_create, handle_delete, patch_pod, handle_create, dispatch, handle_request,
}

-- A request lists SnapshotPods, and where its operation is a deletion it may update one.
abbrev pub Admits : Operation → Call → Type 0
Admits op (list_snapshot_pods ns) = Unit
Admits op (update_snapshot_pod sp) = op ≡ delete_op
Admits op _ = ⊥

module _ (env : Env) where
  trigger_round_of-Runs :
      (o : Option SnapshotPod) → Runs (Admits delete_op) Any (trigger_round_of env o)
  unfolding trigger_round_of
  trigger_round_of-Runs none = Runs-pure _ tt
  trigger_round_of-Runs (some sp) = search (runs_rules, tt {0}) depth 9

  handle_delete-Runs : (req : Request) → Runs (Admits delete_op) Any (handle_delete env req)
  unfolding handle_delete handle_pod_update
  handle_delete-Runs req = search (runs_rules, trigger_round_of-Runs, tt {0}) depth 12

  patch_pod-Runs :
      {op : Operation} (req : Request) (p : PodObject) (out : Images)
      → Runs (Admits op) Any (patch_pod env req p out)
  unfolding patch_pod range_keys ◌>>=◌
  patch_pod-Runs req p [] = Runs-pure _ tt
  patch_pod-Runs req p (e ∷ out) = record { calls = λ tr. same; result = λ tr. tt }

  handle_create-Runs : (req : Request) → Runs (Admits create_op) Any (handle_create env req)
  unfolding handle_create handle_pod_create
  handle_create-Runs req = search (runs_rules, patch_pod-Runs {op = create_op}, tt {0}) depth 12

  dispatch-Runs : (req : Request) (op : Operation) → Runs (Admits op) Any (dispatch env req op)
  unfolding dispatch
  dispatch-Runs req delete_op = handle_delete-Runs req
  dispatch-Runs req create_op = handle_create-Runs req
  dispatch-Runs req (other_op s) = Runs-pure _ tt

  -- Every admission request gets a response, whatever the server answers; it lists SnapshotPods and
  -- makes no other call, but for the update of a SnapshotPod by a request to delete.
  pub handle_request-Runs :
      (req : Request) → Runs (Admits req.operation) Any (handle_request env req)
  unfolding handle_request
  handle_request-Runs req = search (runs_rules, dispatch-Runs, tt {0}) depth 5
