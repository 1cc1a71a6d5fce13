-- ===== src/Webhook/Round.antt =====
-- internal/webhooks/pod.go: the images of a positive recovery round.
use kube_snapshot.Base.{
  ℕ, suc, String, ◌≡◌, refl, Bool, true, false, some, List, [], ◌∷◌, ◌++◌, ◌==◌, ◌&&◌, arith, All,
  filter_by, lookup,
}
use kube_snapshot.Base.Int.{ℤ, pos, ◌==ℤ◌}
use kube_snapshot.Api.{SnapshotPod, SnapshotRunningStatus}
use kube_snapshot.Webhook.Images.{Images, put, config_of, put_all, round_images, choose_images}
use kube_snapshot.Webhook.Recovery.{lookup-put}

-- a snapshot of the round for the container
abbrev pub of_round : ℤ → String → SnapshotRunningStatus → Bool
of_round round k s = s.trigger_round ==ℤ round && s.container_name == k

-- snapshots of other rounds and containers leave the container's entry alone
lookup-put_all :
    (secret k : String) (round : ℤ) (ss : List SnapshotRunningStatus) (out : Images)
    → All (λ (q : SnapshotRunningStatus). of_round round k q ≡ false) ss
    → lookup k (
        put_all secret out
          (filter_by (λ (q : SnapshotRunningStatus). q.trigger_round ==ℤ round) ss))
      ≡ lookup k out
unfolding put_all
lookup-put_all secret k round [] out a = refl
lookup-put_all secret k round (s ∷ ss) out a =
    let next = put s.container_name (config_of secret s) out in
    ground (
      arith,
      lookup-put_all secret k round ss out a.1,
      lookup-put_all secret k round ss next a.1,
      lookup-put k s.container_name (config_of secret s) out,
      a.0,
    )

lookup-put_all_last :
    (secret k : String) (round : ℤ) (before after : List SnapshotRunningStatus)
    (s : SnapshotRunningStatus) (out : Images)
    → of_round round k s ≡ true
    → All (λ (q : SnapshotRunningStatus). of_round round k q ≡ false) after
    → lookup k (
        put_all secret out (
          filter_by
            (λ (q : SnapshotRunningStatus). q.trigger_round ==ℤ round)
            (before ++ s ∷ after)))
      ≡ some (config_of secret s)
unfolding put_all
lookup-put_all_last secret k round [] after s out this a =
    let next = put s.container_name (config_of secret s) out in
    ground (
      arith,
      lookup-put_all secret k round after next a,
      lookup-put k s.container_name (config_of secret s) out,
      this,
    )
lookup-put_all_last secret k round (b ∷ before) after s out this a =
    let next = put b.container_name (config_of secret b) out in
    ground (
      arith,
      lookup-put_all_last secret k round before after s out this a,
      lookup-put_all_last secret k round before after s next this a,
    )

-- For a positive recovery round, a container gets the image of the last snapshot of it in the
-- status that is of that round, whatever the result of that snapshot is.
pub recovers_round :
    (sort : List SnapshotRunningStatus → List SnapshotRunningStatus) (sp : SnapshotPod) (k : String)
    (n : ℕ) (before after : List SnapshotRunningStatus) (s : SnapshotRunningStatus)
    → sp.status.snapshots ≡ before ++ s ∷ after
    → of_round (pos (suc n)) k s ≡ true
    → All (λ (q : SnapshotRunningStatus). of_round (pos (suc n)) k q ≡ false) after
    → lookup k (choose_images sort sp (pos (suc n)))
      ≡ some (config_of sp.spec.image_save_options.registry_secret_ref s)
unfolding choose_images round_images
recovers_round sort sp k n before after s listed this a =
    rw listed (lookup-put_all_last _ k (pos (suc n)) before after s [] this a)
