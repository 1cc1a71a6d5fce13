-- ===== src/Task.antt =====
-- internal/controller/snapshotpodtask_controller.go: the reconciler of a node's tasks, which
-- commits a container to an image and pushes it. `Steps`, `Loop` and `Reconcile` define it; the
-- other modules prove what it does.
pub mod Steps
pub mod Setup
pub mod Loop
pub mod Reconcile
pub mod Progress
pub mod Rounds
pub mod Quiet
pub mod Outcome
pub mod Refused
pub mod Settled
pub mod Order
pub mod Idle
pub mod Panics
pub mod Retries
pub mod Deadline
pub mod Types
pub mod Server
pub mod Served
pub mod Moves
pub mod Live
pub mod Machine
pub mod Refines
pub mod Phases
pub mod Refined
pub mod Safe
pub mod Success
pub mod Completes
pub mod Effort
pub mod Bounded
