-- ===== src/Tests.antt =====
-- Concrete environments, objects and runs, at which the theorems of the other modules are applied.
pub mod Sample
mod TaskRuns
mod PodRuns
mod WebhookRuns
mod Commands
mod ServerRuns
mod SetupRuns
mod LifecycleRuns
mod Held
mod RoundRuns
