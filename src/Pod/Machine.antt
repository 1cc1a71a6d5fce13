-- ===== src/Pod/Machine.antt =====
-- What a SnapshotPod promises of its snapshots at one trigger round, without their times: a machine
-- over the entries that are listed and the round that was closed last.
use kube_snapshot.Base.{
  ◌-◌, String, ◌≡◌, Bool, true, false, List, [], ◌∷◌, ◌++◌, map, length, drop, some_by, ltb, All,
  Pairwise, if◌then◌else◌,
}
use kube_snapshot.Base.Int.{ℤ, ◌==ℤ◌}
use kube_snapshot.Api.{
  SnapshotPod, SnapshotRunningStatus, SnapshotRunningResult, created, running, failed, succeed,
  result_other, SnapshotPodTaskPhase, phase_completed, phase_failed,
}

pub record Entry : Type 0 where
  pub round : ℤ
  pub task : String
  pub image : String
  pub container : String
  pub result : SnapshotRunningResult

pub record View : Type 0 where
  pub entries : List Entry
  pub last : ℤ

-- a result that stays
abbrev pub is_final : SnapshotRunningResult → Bool
is_final created = false
is_final running = false
is_final failed = true
is_final succeed = true
is_final (result_other s) = false

abbrev pub has_round : ℤ → List Entry → Bool
has_round round es = some_by (λ (e : Entry). e.round ==ℤ round) es

-- the last five entries are kept once there are over twenty
unfoldable pub append_entry : List Entry → Entry → List Entry
append_entry es e =
    let all = es ++ e ∷ [] in if ltb 20 (length all) then drop (length all - 5) all else all

abbrev pub append_entries : List Entry → List Entry → List Entry
append_entries es [] = es
append_entries es (e ∷ new) = append_entries (append_entry es e) new

-- an entry that was listed for the round
abbrev pub IsNew : ℤ → Entry → Type 0
IsNew round e = (e.round ≡ round) × (e.result ≡ created)

module _ (Seen : String → SnapshotPodTaskPhase → Type 0) where
  -- An entry ends once, as its task was seen to end. `lost`: its task was not found.
  pub data Next (e : Entry) : Entry → Type 0 where
    stays : Next e e
    succeeds :
        is_final e.result ≡ false
        → Seen e.task phase_completed
        → Next e (record e { result = succeed })
    fails :
        is_final e.result ≡ false → Seen e.task phase_failed → Next e (record e { result = failed })
    lost : is_final e.result ≡ false → Next e (record e { result = created })

  -- A round is listed once, while it is open and has no entry; it is closed once it has one; and
  -- the entries follow their tasks.
  pub data Step (round : ℤ) : View → View → Type 0 where
    list :
        (v : View) (new : List Entry)
        → (v.last ==ℤ round) ≡ false
        → has_round round v.entries ≡ false
        → All (IsNew round) new
        → Step round v (record v { entries = append_entries v.entries new })
    close :
        (v : View)
        → (v.last ==ℤ round) ≡ false
        → has_round round v.entries ≡ true
        → Step round v (record v { last = round })
    follow :
        (v : View) (es : List Entry)
        → Pairwise Next v.entries es
        → Step round v (record v { entries = es })

  -- the views that some steps lead to
  pub data Reach (round : ℤ) (v : View) : View → Type 0 where
    stay : Reach round v v
    go : {u w : View} → Reach round v u → Step round u w → Reach round v w

  pub Reach-trans : {round : ℤ} {u v w : View} → Reach round u v → Reach round v w → Reach round u w
  Reach-trans a stay = a
  Reach-trans a (go b s) = go (Reach-trans a b) s

abbrev pub entry : SnapshotRunningStatus → Entry
entry s = record {
  round = s.trigger_round;
  task = s.task_name;
  image = s.image_ref;
  container = s.container_name;
  result = s.result;
}

-- what the machine sees of a SnapshotPod
abbrev pub view : SnapshotPod → View
view sp = record { entries = map entry sp.status.snapshots; last = sp.status.last_trigger_round }
