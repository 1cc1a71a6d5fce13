-- ===== src/Webhook/Recovery.antt =====
-- internal/webhooks/pod.go: which snapshot the image of a container is taken from.
use kube_snapshot.Base.{
  String, ◌≡◌, refl, sym, ◌∙◌, ap, Bool, true, false, Option, none, some, List, [], ◌∷◌, ◌==◌, ◌&&◌,
  arith, All, eq_iff, find_by, lookup, if◌then◌else◌, inl, inr, Bool-cases,
}
use mathlib.Core.Option
use mathlib.Core.Bool.{true≢false}
use mathlib.Core.Path.{subst}
use mathlib.Core.List.Memᴰ.{head, tail}
use mathlib.Core.List.{Memᴰ}
use kube_snapshot.Base.Int.{ℤ, pos, negsuc, ◌≤ℤ◌}
use kube_snapshot.Api.{SnapshotPod, SnapshotRunningStatus}
use kube_snapshot.Webhook.Images.{
  ImageConfig, Images, put, is_succeed, config_of, put_first, put_firsts, choose_images,
}

-- a write to the map is read back, and the other keys are left alone
pub lookup-put :
    (k j : String) (v : ImageConfig) (m : Images)
    → lookup k (put j v m) ≡ (if j == k then some v else lookup k m)
unfolding put
lookup-put k j v [] = ground arith
lookup-put k j v ((i, w) ∷ m) =
    ground (arith, lookup-put k j v m, eq_iff i j, eq_iff i k, eq_iff j k)

abbrev pub restores : String → SnapshotRunningStatus → Bool
restores k s = s.container_name == k && is_succeed s.result

abbrev first_of : String → String → List SnapshotRunningStatus → Option ImageConfig
first_of secret k ss = Option.map (config_of secret) (find_by (restores k) ss)

lookup-put_first :
    (secret k : String) (s : SnapshotRunningStatus) (out : Images)
    → lookup k (put_first secret out s) ≡ elim (lookup k out) [
      | some v ↦ some v
      | none ↦ if restores k s then some (config_of secret s) else none
    ]
unfolding put_first
lookup-put_first secret k s out =
    ground
      (arith, lookup-put k s.container_name (config_of secret s) out, eq_iff s.container_name k)

lookup-put_firsts :
    (secret k : String) (ss : List SnapshotRunningStatus) (out : Images)
    → lookup k (put_firsts secret out ss)
      ≡ elim (lookup k out) [ some v ↦ some v | none ↦ first_of secret k ss ]
unfolding put_firsts
lookup-put_firsts secret k [] out = ground arith
lookup-put_firsts secret k (s ∷ ss) out =
    ground (
      arith,
      lookup-put_firsts secret k ss (put_first secret out s),
      lookup-put_first secret k s out,
    )

-- The descending order that the sort leaves.
abbrev pub Descending : List SnapshotRunningStatus → Type 0
Descending [] = Unit
Descending (s ∷ ss) = All (λ q. q.trigger_round ≤ℤ s.trigger_round) ss × Descending ss

-- `s` restores the container, and no snapshot of `ss` of a later round does
pub record IsLatest (k : String) (ss : List SnapshotRunningStatus) (s : SnapshotRunningStatus)
    : Type 0 where
  pub restoring : restores k s ≡ true
  pub listed : Memᴰ s ss
  pub latest :
      (q : SnapshotRunningStatus)
      → Memᴰ q ss
      → restores k q ≡ true
      → q.trigger_round ≤ℤ s.trigger_round

pub All-Memᴰ :
    (P : SnapshotRunningStatus → Type 0) (q : SnapshotRunningStatus)
    (ss : List SnapshotRunningStatus)
    → All P ss
    → Memᴰ q ss
    → P q
All-Memᴰ P q [] a m = elim m [ ]
All-Memᴰ P q (x ∷ xs) a (head e) = subst P (sym e) a.0
All-Memᴰ P q (x ∷ xs) a (tail m) = All-Memᴰ P q xs a.1 m

≤ℤ_refl : (n : ℤ) → n ≤ℤ n
≤ℤ_refl (pos n) = omega arith
≤ℤ_refl (negsuc n) = omega arith

module _ (k : String) {s : SnapshotRunningStatus} {ss : List SnapshotRunningStatus} where
  head-IsLatest :
      restores k s ≡ true → All (λ q. q.trigger_round ≤ℤ s.trigger_round) ss → IsLatest k (s ∷ ss) s
  head-IsLatest hit d = record { restoring = hit; listed = head refl; latest = later }
    where
      later :
          (q : SnapshotRunningStatus)
          → Memᴰ q (s ∷ ss)
          → restores k q ≡ true
          → q.trigger_round ≤ℤ s.trigger_round
      later q (head e) r = rw e (≤ℤ_refl s.trigger_round)
      later q (tail m) r = All-Memᴰ (λ x. x.trigger_round ≤ℤ s.trigger_round) q ss d m

  tail-IsLatest :
      restores k s ≡ false → (x : SnapshotRunningStatus) → IsLatest k ss x → IsLatest k (s ∷ ss) x
  tail-IsLatest miss x l = record {
    restoring = l.restoring;
    listed = tail l.listed;
    latest = later;
  }
    where
      later :
          (q : SnapshotRunningStatus)
          → Memᴰ q (s ∷ ss)
          → restores k q ≡ true
          → q.trigger_round ≤ℤ x.trigger_round
      later q (head e) r = absurd (true≢false (sym r ∙ ap (restores k) e ∙ miss))
      later q (tail m) r = l.latest q m r

  tail_none :
      restores k s ≡ false
      → ((q : SnapshotRunningStatus) → Memᴰ q ss → restores k q ≡ false)
      → (q : SnapshotRunningStatus) → Memᴰ q (s ∷ ss)
      → restores k q ≡ false
  tail_none miss f q (head e) = ap (restores k) e ∙ miss
  tail_none miss f q (tail m) = f q m

-- what the first snapshot that restores the container is, in a descending list
abbrev pub Found : String → List SnapshotRunningStatus → Option SnapshotRunningStatus → Type 0
Found k ss (some s) = IsLatest k ss s
Found k ss none = (q : SnapshotRunningStatus) → Memᴰ q ss → restores k q ≡ false

Found-skip :
    (k : String) (s : SnapshotRunningStatus) (ss : List SnapshotRunningStatus)
    (o : Option SnapshotRunningStatus)
    → restores k s ≡ false
    → Found k ss o
    → Found k (s ∷ ss) o
Found-skip k s ss (some x) miss l = tail-IsLatest k miss x l
Found-skip k s ss none miss f = tail_none k miss f

find_by-Found :
    (k : String) (ss : List SnapshotRunningStatus)
    → Descending ss
    → Found k ss (find_by (restores k) ss)
find_by-Found k [] d = λ q m. elim m [ ]
find_by-Found k (s ∷ ss) d = elim (Bool-cases (restores k s)) [
  | inl hit ↦ rw hit (head-IsLatest k hit d.0)
  | inr miss ↦ rw miss (Found-skip k s ss (find_by (restores k) ss) miss (find_by-Found k ss d.1))
]

-- The contract of `sort.Slice` for a list: the same items, in descending order
pub record IsSortOf (ss sorted : List SnapshotRunningStatus) : Type 0 where
  pub descending : Descending sorted
  pub keeps : (q : SnapshotRunningStatus) → Memᴰ q ss → Memᴰ q sorted
  pub adds_none : (q : SnapshotRunningStatus) → Memᴰ q sorted → Memᴰ q ss

IsSortOf-Found :
    (k : String) {ss sorted : List SnapshotRunningStatus}
    → IsSortOf ss sorted
    → (o : Option SnapshotRunningStatus) → Found k sorted o
    → Found k ss o
IsSortOf-Found k i (some s) l = record {
  restoring = l.restoring;
  listed = i.adds_none s l.listed;
  latest = λ q m. l.latest q (i.keeps q m);
}
IsSortOf-Found k i none f = λ q m. f q (i.keeps q m)

-- For the recovery round 0, and a sort that sorts the snapshots, a container gets the image of a snapshot of it that succeeded and than
-- which none that succeeded is of a later round; and it gets none where no snapshot of it succeeded.
pub recovers_latest :
    (sort : List SnapshotRunningStatus → List SnapshotRunningStatus) (sp : SnapshotPod) (k : String)
    → IsSortOf sp.status.snapshots (sort sp.status.snapshots)
    → (o : Option SnapshotRunningStatus) × (lookup k (choose_images sort sp (pos 0))
        ≡ Option.map (config_of sp.spec.image_save_options.registry_secret_ref) o)
      × Found k sp.status.snapshots o
unfolding choose_images
recovers_latest sort sp k sorted =
    let o = find_by (restores k) (sort sp.status.snapshots) in
    (
      o,
      lookup-put_firsts sp.spec.image_save_options.registry_secret_ref k (sort sp.status.snapshots)
          [],
      IsSortOf-Found k sorted o (find_by-Found k (sort sp.status.snapshots) sorted.descending),
    )
