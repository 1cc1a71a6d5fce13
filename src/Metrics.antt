-- ===== src/Metrics.antt =====
-- internal/metrics/metrics.go: each function by the calls of the Prometheus vectors that it makes.
pub mod Collector
pub mod Counts
pub mod Ticks
use kube_snapshot.Base.{ℕ, String, [], ◌∷◌}
use kube_snapshot.Api.{Duration}
use kube_snapshot.World.{
  M, ◌>>◌, tell, counter_inc, observe, gauge_set, tasks_total, task_duration, task_retries,
  active_tasks, tasks_by_node, reconcile_total, reconcile_duration, errors_total, push_total,
  push_duration, task_failed_total,
}

abbrev pub status_created : String
status_created = "created"

abbrev pub status_success : String
status_success = "success"

abbrev pub status_failed : String
status_failed = "failed"

abbrev pub result_success : String
result_success = "success"

abbrev pub result_error : String
result_error = "error"

abbrev pub result_requeue : String
result_requeue = "requeue"

abbrev pub push_success : String
push_success = "success"

abbrev pub push_failed : String
push_failed = "failed"

unfoldable pub record_snapshot_task : String → String → String → Duration → M Unit
record_snapshot_task status namespace snapshot duration = do
  tell (counter_inc tasks_total (status ∷ namespace ∷ snapshot ∷ []))
  tell (observe task_duration (status ∷ namespace ∷ snapshot ∷ []) duration)

unfoldable pub record_snapshot_task_retry : String → String → String → M Unit
record_snapshot_task_retry namespace snapshot task =
    tell (counter_inc task_retries (namespace ∷ snapshot ∷ task ∷ []))

unfoldable pub set_active_snapshot_tasks : String → String → ℕ → M Unit
set_active_snapshot_tasks namespace snapshot count =
    tell (gauge_set active_tasks (namespace ∷ snapshot ∷ []) count)

unfoldable pub set_snapshot_tasks_by_node : String → String → ℕ → M Unit
set_snapshot_tasks_by_node node status count =
    tell (gauge_set tasks_by_node (node ∷ status ∷ []) count)

unfoldable pub record_controller_reconcile : String → String → Duration → M Unit
record_controller_reconcile controller result duration = do
  tell (counter_inc reconcile_total (controller ∷ result ∷ []))
  tell (observe reconcile_duration (controller ∷ []) duration)

unfoldable pub record_controller_error : String → String → M Unit
record_controller_error controller error_type =
    tell (counter_inc errors_total (controller ∷ error_type ∷ []))

unfoldable pub record_image_push : String → String → String → String → Duration → M Unit
record_image_push result registry namespace snapshot duration = do
  tell (counter_inc push_total (result ∷ registry ∷ namespace ∷ snapshot ∷ []))
  tell (observe push_duration (registry ∷ namespace ∷ snapshot ∷ []) duration)

unfoldable pub record_task_failed : String → String → String → M Unit
record_task_failed namespace snapshot task =
    tell (counter_inc task_failed_total (namespace ∷ snapshot ∷ task ∷ []))
