-- ===== src/Pod/Server.antt =====
-- An API server that holds one SnapshotPod.
use kube_snapshot.Base.{none, ◌≡◌, sym, map, ◌∷◌}
use mathlib.Core.Path.{subst}
use kube_snapshot.Api.{SnapshotPod, SnapshotRunningStatus, ObjectKey}
use kube_snapshot.World.{Call, Trace, Env, ok, update_snapshot_pod, update_snapshot_pod_status}
use kube_snapshot.Condition.Done.{untimed}
use kube_snapshot.Pod.Machine.{view}

-- `R` holds of every status of a SnapshotPod that a call submits, and no call writes another part.
abbrev pub Writes : (SnapshotPod → Type 0) → Call → Type 0
Writes R (update_snapshot_pod_status sp) = R sp
Writes R (update_snapshot_pod sp) = ⊥
Writes R _ = Unit

abbrev pub Nothing : SnapshotPod → Type 0
Nothing sp = ⊥

-- the snapshot without its times
abbrev pub untimed_snapshot : SnapshotRunningStatus → SnapshotRunningStatus
untimed_snapshot s = record s { trigger_time = 0; completed_at = none }

-- the same object, but for the precision of its times
pub record SameObject (sp u : SnapshotPod) : Type 0 where
  pub same_meta : u.meta ≡ sp.meta
  pub same_spec : u.spec ≡ sp.spec
  pub same_view : view u ≡ view sp
  pub same_snapshots :
      map untimed_snapshot u.status.snapshots ≡ map untimed_snapshot sp.status.snapshots
  pub same_conditions : map untimed u.status.conditions ≡ map untimed sp.status.conditions

-- The server gives the SnapshotPod that it holds, accepts each update of its status, whose times it
-- may round, and holds what it answered from then on. No other client writes.
pub record Server (env : Env) (key : ObjectKey) : Type 0 where
  pub stored : Trace → SnapshotPod
  pub gives : (tr : Trace) → env.snapshot_pod_at tr key ≡ ok (stored tr)
  pub accepts :
      (tr : Trace) (sp : SnapshotPod)
      → (u : SnapshotPod) × (env.snapshot_pod_status_updated tr sp ≡ ok u)
        × SameObject sp u
        × (stored (update_snapshot_pod_status sp ∷ tr) ≡ u)
  pub keeps : (c : Call) (tr : Trace) → Writes Nothing c → stored (c ∷ tr) ≡ stored tr

-- What holds of every status that is submitted, holds of the object that the server has.
pub stored-Writes :
    {env : Env} {key : ObjectKey} (sv : Server env key) (R : SnapshotPod → Type 0)
    → ((sp u : SnapshotPod) → SameObject sp u → R sp → R u)
    → (c : Call) (tr : Trace) → Writes R c
    → R (sv.stored tr)
    → R (sv.stored (c ∷ tr))
stored-Writes sv R same (update_snapshot_pod_status sp) tr w r =
    let (u, _, s, held) = sv.accepts tr sp in subst R (sym held) (same sp u s w)
stored-Writes sv R same (update_snapshot_pod sp) tr w r = absurd w
stored-Writes sv R same c tr w r = subst R (sym (sv.keeps c tr tt)) r
