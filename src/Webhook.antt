-- ===== src/Webhook.antt =====
-- internal/webhooks/pod.go: the admission webhook for pods. A pod that is deleted starts a round,
-- and a pod that is created gets the images of its snapshots. `Match` and `Images` define the
-- choice of the images, `Handle` the requests; the other modules prove what they do.
pub mod Match
pub mod Setup
pub mod Images
pub mod Handle
pub mod Trigger
pub mod Quiet
pub mod Recovery
pub mod Round
pub mod Patch
pub mod Sound
