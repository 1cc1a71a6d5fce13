-- ===== src/Webhook/Images.antt =====
-- internal/webhooks/pod.go: the images that `handlePodCreate` chooses for the containers.
use kube_snapshot.Base.{
  String, Bool, true, false, none, some, List, [], ◌∷◌, ◌==◌, filter_by, lookup, zero, suc,
  if◌then◌else◌,
}
use kube_snapshot.Base.Int.{ℤ, pos, negsuc, ◌==ℤ◌}
use kube_snapshot.Api.{
  SnapshotPod, SnapshotRunningStatus, SnapshotRunningResult, created, running, failed, succeed,
  result_other,
}

pub record ImageConfig : Type 0 where
  pub image : String
  pub pull_secret : String

-- the Go map `out`, from the containers' names
abbrev pub Images : Type 0
Images = List (String × ImageConfig)

-- `out[k] = v`
unfoldable pub put : String → ImageConfig → Images → Images
put k v [] = (k, v) ∷ []
put k v ((j, w) ∷ m) = let rest = put k v m in if j == k then (k, v) ∷ m else (j, w) ∷ rest

abbrev pub is_succeed : SnapshotRunningResult → Bool
is_succeed succeed = true
is_succeed created = false
is_succeed running = false
is_succeed failed = false
is_succeed (result_other s) = false

abbrev pub config_of : String → SnapshotRunningStatus → ImageConfig
config_of secret s = record { image = s.image_ref; pull_secret = secret }

-- The case of a positive `RecoveryRound`: each snapshot of the round, a later one over an earlier.
unfoldable pub put_all : String → Images → List SnapshotRunningStatus → Images
put_all secret out [] = out
put_all secret out (s ∷ ss) = put_all secret (put s.container_name (config_of secret s) out) ss

unfoldable pub round_images : String → ℤ → List SnapshotRunningStatus → Images
round_images secret round ss =
    put_all secret [] (filter_by (λ (s : SnapshotRunningStatus). s.trigger_round ==ℤ round) ss)

-- The case 0: the first success of each container, in the order given.
unfoldable pub put_first : String → Images → SnapshotRunningStatus → Images
put_first secret out s = elim (lookup s.container_name out) [
  | some _ ↦ out
  | none ↦ if is_succeed s.result then put s.container_name (config_of secret s) out else out
]

unfoldable pub put_firsts : String → Images → List SnapshotRunningStatus → Images
put_firsts secret out [] = out
put_firsts secret out (s ∷ ss) = put_firsts secret (put_first secret out s) ss

-- The `switch` on `RecoveryRound`; a negative one has no images. `sort` is the sort by the round.
unfoldable pub choose_images :
    (List SnapshotRunningStatus → List SnapshotRunningStatus) → SnapshotPod → ℤ → Images
choose_images sort sp (pos zero) =
    put_firsts sp.spec.image_save_options.registry_secret_ref [] (sort sp.status.snapshots)
choose_images sort sp (pos (suc n)) =
    round_images sp.spec.image_save_options.registry_secret_ref (pos (suc n)) sp.status.snapshots
choose_images sort sp (negsuc n) = []
