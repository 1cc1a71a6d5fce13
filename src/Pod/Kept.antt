-- ===== src/Pod/Kept.antt =====
-- What the calls of `Reconcile` of a SnapshotPod keep of the object that the server holds.
use kube_snapshot.Base.{ℕ, ◌≡◌, true}
use kube_snapshot.Base.Int.{◌==ℤ◌}
use kube_snapshot.Api.{ObjectKey}
use kube_snapshot.World.{Trace, Env, returns}
use kube_snapshot.Pod.Sound.{HasUuids}
use kube_snapshot.Pod.Machine.{view}
use kube_snapshot.Pod.Safe.{IsSafe, Reach-IsSafe, Closed, Reach-Closed}
use kube_snapshot.Pod.Moves.{Seen}
use kube_snapshot.Pod.Server.{Server}
use kube_snapshot.Pod.Refined.{reconciles, reconciles_refine_round}

module _ {env : Env} {key : ObjectKey} (sv : Server env key) (uuids : HasUuids env) (n : ℕ)
    (tr : Trace) where
  -- Against such a server and with such uuids: where the stored object has at most twenty snapshots,
  -- and for each that has succeeded a listing gave its completed task, any number of calls of
  -- `Reconcile` returns and leaves an object of which the same holds, whatever the pods, the creates
  -- and the listings answer.
  pub reconciles_stay-IsSafe :
      IsSafe (Seen env (sv.stored tr).meta.name) (view (sv.stored tr))
      → ((reconciles env key n tr).0 ≡ returns tt)
        × IsSafe (Seen env (sv.stored tr).meta.name) (view (sv.stored (reconciles env key n tr).1))
  reconciles_stay-IsSafe safe =
      let (ends, k) = reconciles_refine_round sv uuids n tr in
      (
        ends,
        Reach-IsSafe (Seen env (sv.stored tr).meta.name) (sv.stored tr).spec.trigger_round k.reached
            safe,
      )

  -- Against such a server and with such uuids: once the round of the stored object is closed, any
  -- number of calls of `Reconcile` returns and leaves it closed, with the same snapshots in the same
  -- order, each of the same round, task, image and container, and with the same result if it had
  -- ended, whatever the pods, the creates and the listings answer.
  pub reconciles_stay-Closed :
      ((sv.stored tr).status.last_trigger_round ==ℤ (sv.stored tr).spec.trigger_round) ≡ true
      → ((reconciles env key n tr).0 ≡ returns tt)
        × Closed
            (Seen env (sv.stored tr).meta.name)
            (sv.stored tr).spec.trigger_round
            (view (sv.stored tr))
            (view (sv.stored (reconciles env key n tr).1))
  reconciles_stay-Closed closed =
      let (ends, k) = reconciles_refine_round sv uuids n tr in
      (
        ends,
        Reach-Closed (Seen env (sv.stored tr).meta.name) (sv.stored tr).spec.trigger_round closed
            k.reached,
      )
