-- ===== src/Metrics/Collector.antt =====
-- internal/metrics/collector.go: the gauges that are set from the lists of the API server.
use kube_snapshot.Base.{
  ℕ, ◌+◌, String, Bool, true, false, Option, none, some, List, [], ◌∷◌, map, length, filter_by,
  lookup, is_empty, ◌==◌, if◌then◌else◌,
}
use kube_snapshot.Api.{
  SnapshotPod, SnapshotPodTask, SnapshotPodTaskPhase, phase_created, phase_failed, phase_completed,
  phase_other, SnapshotRunningStatus, SnapshotRunningResult, created, running, failed, succeed,
  result_other,
}
use kube_snapshot.World.{
  Error, Env, M, ◌>>=◌, ◌>>◌, pure, ask, tell, handle, check, range_keys, list_snapshot_pods,
  list_tasks, gauge_reset, active_tasks, tasks_by_node,
}
use kube_snapshot.Metrics.{
  status_created, status_success, status_failed, set_active_snapshot_tasks,
  set_snapshot_tasks_by_node,
}

abbrev pub is_active : SnapshotRunningResult → Bool
is_active created = true
is_active running = true
is_active failed = false
is_active succeed = false
is_active (result_other s) = false

unfoldable pub active_count : SnapshotPod → ℕ
active_count sp =
    length (filter_by (λ (s : SnapshotRunningStatus). is_active s.result) sp.status.snapshots)

-- the label of a phase: an unset one counts as created
unfoldable pub phase_label : SnapshotPodTaskPhase → String
phase_label phase_completed = status_success
phase_label phase_failed = status_failed
phase_label phase_created = status_created
phase_label (phase_other p) = if is_empty p then status_created else p

-- a map from statuses to counts, and one from nodes to such maps
abbrev pub Counts : Type 0
Counts = List (String × ℕ)

abbrev pub NodeCounts : Type 0
NodeCounts = List (String × Counts)

-- `m[status]++`
unfoldable pub increment : String → Counts → Counts
increment k [] = (k, 1) ∷ []
increment k ((j, n) ∷ m) =
    let rest = increment k m in if j == k then (k, n + 1) ∷ m else (j, n) ∷ rest

-- `nodeStatusCounts[nodeName][status]++`, where a node that is not there gets a map
unfoldable pub count_task : String → String → NodeCounts → NodeCounts
count_task node status [] = (node, increment status []) ∷ []
count_task node status ((j, m) ∷ ns) =
    let rest = count_task node status ns in
    if j == node then (node, increment status m) ∷ ns else (j, m) ∷ rest

unfoldable pub count_tasks : NodeCounts → List SnapshotPodTask → NodeCounts
count_tasks ns [] = ns
count_tasks ns (t ∷ ts) =
    count_tasks (count_task t.spec.node_name (phase_label t.status.phase) ns) ts

unfoldable pub counts_of : String → NodeCounts → Counts
counts_of node ns = elim (lookup node ns) [ none ↦ [] | some m ↦ m ]

pub data Event : Type 0 where
  tick stopped : Event

module _ (env : Env) where
  unfoldable pub set_active : List SnapshotPod → M Unit
  set_active [] = pure tt
  set_active (sp ∷ sps) = do
    set_active_snapshot_tasks sp.meta.namespace sp.meta.name (active_count sp)
    set_active sps

  unfoldable pub collect_snapshot_pod_metrics : M (Option Error)
  collect_snapshot_pod_metrics = do
    tell (gauge_reset active_tasks)
    listed ← ask (list_snapshot_pods none) (λ tr. env.snapshot_pods_in tr none)
    handle listed (λ e. pure (some e)) λ sps. do set_active sps; pure none

  unfoldable pub set_statuses : String → List String → Counts → M Unit
  set_statuses node [] m = pure tt
  set_statuses node (k ∷ ks) m = do
    let n = elim (lookup k m) as (λ o. ℕ) [ none ↦ 0 | some n ↦ n ]
    set_snapshot_tasks_by_node node k n
    set_statuses node ks m

  unfoldable pub set_nodes : List String → NodeCounts → M Unit
  set_nodes [] ns = pure tt
  set_nodes (k ∷ ks) ns = do
    statuses ← range_keys env (map (λ e. e.0) (counts_of k ns))
    set_statuses k statuses (counts_of k ns)
    set_nodes ks ns

  unfoldable pub collect_snapshot_pod_task_metrics : M (Option Error)
  collect_snapshot_pod_task_metrics = do
    tell (gauge_reset tasks_by_node)
    listed ← ask (list_tasks []) (λ tr. env.tasks_with tr [])
    handle listed (λ e. pure (some e))
        λ ts. do
          nodes ← range_keys env (map (λ e. e.0) (count_tasks [] ts))
          set_nodes nodes (count_tasks [] ts)
          pure none

  unfoldable pub collect_metrics : M (Option Error)
  collect_metrics = do
    failure ← collect_snapshot_pod_metrics
    check failure (λ e. pure (some e)) collect_snapshot_pod_task_metrics

  -- `Start`: what the `select` takes in turn, a tick or the end of the context
  unfoldable pub start : List Event → M Unit
  start [] = pure tt
  start (stopped ∷ later) = pure tt
  start (tick ∷ later) = do collect_metrics; start later
