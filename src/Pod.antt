-- ===== src/Pod.antt =====
-- internal/controller/snapshotpod_controller.go: the reconciler of a SnapshotPod, which creates a
-- task for each container of a round and collects what became of the tasks. `Target`, `Image`,
-- `Tasks`, `Status` and `Reconcile` define it; the other modules prove what it does.
pub mod Target
pub mod Setup
pub mod Image
pub mod Tasks
pub mod Names
pub mod Tags
pub mod Format
pub mod Rendered
pub mod Machine
pub mod Rounds
pub mod Appends
pub mod Moves
pub mod Server
pub mod Refined
pub mod Safe
pub mod Continues
pub mod Kept
pub mod Ends
pub mod Passes
pub mod Closing
pub mod Live
pub mod Tidy
pub mod Steady
pub mod Opening
pub mod Begun
pub mod Entries
pub mod Ending
pub mod Stalled
pub mod Backed
pub mod Created
pub mod Status
pub mod Reconcile
pub mod Choice
pub mod Sound
pub mod Containers
pub mod Listed
pub mod Follows
pub mod Requeue
pub mod Outcome
