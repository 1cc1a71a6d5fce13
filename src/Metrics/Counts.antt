-- ===== src/Metrics/Counts.antt =====
-- internal/metrics/collector.go: what the gauge of the tasks by node counts.
use kube_snapshot.Base.{
  ℕ, suc, ◌+◌, String, ◌≡◌, ◌∙◌, Bool, none, some, List, [], ◌∷◌, ◌==◌, ◌&&◌, arith, eq_iff, length,
  filter_by, lookup, if◌then◌else◌,
}
use kube_snapshot.Api.{SnapshotPodTask}
use kube_snapshot.Metrics.Collector.{
  phase_label, Counts, NodeCounts, increment, count_task, count_tasks, counts_of,
}

-- a missing status counts no task
abbrev pub count_at : String → Counts → ℕ
count_at status m = elim (lookup status m) as (λ o. ℕ) [ none ↦ 0 | some n ↦ n ]

count_at-increment :
    (k j : String) (m : Counts)
    → count_at k (increment j m) ≡ (if j == k then suc (count_at k m) else count_at k m)
unfolding increment
count_at-increment k j [] = ground arith
count_at-increment k j ((i, n) ∷ m) =
    ground (arith, count_at-increment k j m, eq_iff i j, eq_iff i k, eq_iff j k)

count_task_lem :
    (node status k j : String) (ns : NodeCounts)
    → count_at k (counts_of node (count_task j status ns)) ≡ (
        if j == node && status == k
        then suc (count_at k (counts_of node ns))
        else count_at k (counts_of node ns))
unfolding count_task counts_of
count_task_lem node status k j [] = ground (arith, count_at-increment k status [])
count_task_lem node status k j ((i, m) ∷ ns) = ground (
  arith,
  count_task_lem node status k j ns,
  count_at-increment k status m,
  eq_iff i j,
  eq_iff i node,
  eq_iff j node,
)

-- a task of the node whose phase has the label
abbrev pub counted : String → String → SnapshotPodTask → Bool
counted node status t = t.spec.node_name == node && phase_label t.status.phase == status

count_tasks_from :
    (node status : String) (ts : List SnapshotPodTask) (ns : NodeCounts)
    → count_at status (counts_of node (count_tasks ns ts))
      ≡ count_at status (counts_of node ns) + length (filter_by (counted node status) ts)
unfolding count_tasks
count_tasks_from node status [] ns = ground arith
count_tasks_from node status (t ∷ ts) ns =
    let next = count_task t.spec.node_name (phase_label t.status.phase) ns in
    ground (
      arith,
      count_tasks_from node status ts next,
      count_task_lem node (phase_label t.status.phase) status t.spec.node_name ns,
    )

-- The two-level map counts, for each node and status, the tasks of the list that are on the node
-- and whose phase has that label.
pub count_tasks_lem :
    (node status : String) (ts : List SnapshotPodTask)
    → count_at status (counts_of node (count_tasks [] ts))
      ≡ length (filter_by (counted node status) ts)
unfolding counts_of
count_tasks_lem node status ts = count_tasks_from node status ts [] ∙ omega arith
