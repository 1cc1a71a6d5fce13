-- ===== src/Pod/Entries.antt =====
-- The entries of a round of a SnapshotPod that stand last in its status.
use kube_snapshot.Base.{
  String, ◌≡◌, refl, ◌∙◌, ap, true, List, [], ◌∷◌, ◌++◌, inl, inr, All, Pairwise, map, some_by,
  Bool-cases,
}
use mathlib.Core.Path.{subst}
use mathlib.Core.List.{map-append}
use kube_snapshot.Base.Int.{ℤ, ◌==ℤ◌, ==ℤ_refl}
use kube_snapshot.Base.AllLaws.{Pairwise-All}
use kube_snapshot.Api.{SnapshotRunningStatus}
use kube_snapshot.Pod.Listed.{EndsWith, names, InRound}
use kube_snapshot.Pod.Machine.{Entry, entry}
use kube_snapshot.Pod.Safe.{Stays}

-- The last entries are of the round, one for each of the containers, in their order.
pub record EntriesEnd (round : ℤ) (cs : List String) (es : List Entry) : Type 0 where
  pub before : List Entry
  pub added : List Entry
  pub parts : es ≡ before ++ added
  pub containers : map (λ (e : Entry). e.container) added ≡ cs
  pub in_round : All (λ (e : Entry). e.round ≡ round) added

names-entry :
    (ss : List SnapshotRunningStatus) → map (λ (e : Entry). e.container) (map entry ss) ≡ names ss
names-entry [] = refl
names-entry (s ∷ ss) = ap (λ l. s.container_name ∷ l) (names-entry ss)

InRound-entry :
    (round : ℤ) (ss : List SnapshotRunningStatus)
    → InRound round ss
    → All (λ (e : Entry). e.round ≡ round) (map entry ss)
InRound-entry round [] a = tt
InRound-entry round (s ∷ ss) a = (a.0, InRound-entry round ss a.1)

pub EndsWith-EntriesEnd :
    {round : ℤ} {cs : List String} {ss : List SnapshotRunningStatus}
    → EndsWith round cs ss
    → EntriesEnd round cs (map entry ss)
EndsWith-EntriesEnd {round} e = record {
  before = map entry e.before;
  added = map entry e.added;
  parts = ap (map entry) e.parts ∙ map-append entry e.before e.added;
  containers = names-entry e.added ∙ e.containers;
  in_round = InRound-entry round e.added e.in_round;
}

-- entries that stay, one by one
Stays-containers :
    (es fs : List Entry)
    → Pairwise Stays es fs
    → map (λ (e : Entry). e.container) fs ≡ map (λ (e : Entry). e.container) es
Stays-containers [] [] p = refl
Stays-containers [] (f ∷ fs) p = absurd p
Stays-containers (e ∷ es) [] p = absurd p
Stays-containers (e ∷ es) (f ∷ fs) p = rw (p.0.same_container, Stays-containers es fs p.1) refl

Stays-EntriesEnd_of :
    (round : ℤ) (cs : List String) (before added fs : List Entry)
    → map (λ (e : Entry). e.container) added ≡ cs
    → All (λ (e : Entry). e.round ≡ round) added
    → Pairwise Stays (before ++ added) fs
    → EntriesEnd round cs fs
Stays-EntriesEnd_of round cs [] added fs c r p = record {
  before = [];
  added = fs;
  parts = refl;
  containers = Stays-containers added fs p ∙ c;
  in_round = Pairwise-All (λ e f same s. s.same_round ∙ same) added fs r p;
}
Stays-EntriesEnd_of round cs (b ∷ before) added [] c r p = absurd p
Stays-EntriesEnd_of round cs (b ∷ before) added (f ∷ fs) c r p =
    let rest = Stays-EntriesEnd_of round cs before added fs c r p.1 in
    record {
      before = f ∷ rest.before;
      added = rest.added;
      parts = ap (λ l. f ∷ l) rest.parts;
      containers = rest.containers;
      in_round = rest.in_round;
    }

pub Stays-EntriesEnd :
    {round : ℤ} {cs : List String} {es fs : List Entry}
    → Pairwise Stays es fs
    → EntriesEnd round cs es
    → EntriesEnd round cs fs
Stays-EntriesEnd {round} {cs} {es} {fs} p e =
    Stays-EntriesEnd_of round cs e.before e.added fs e.containers e.in_round
      (subst (λ l. Pairwise Stays l fs) e.parts p)

-- a round with a container is listed
has-last :
    (round : ℤ) (before added : List SnapshotRunningStatus) (c : String) (rest : List String)
    → names added ≡ c ∷ rest
    → InRound round added
    → some_by (λ (s : SnapshotRunningStatus). s.trigger_round ==ℤ round) (before ++ added) ≡ true
has-last round [] [] c rest e r = cc e
has-last round [] (s ∷ added) c rest e r = rw (r.0, ==ℤ_refl round) refl
has-last round (b ∷ before) added c rest e r = elim (Bool-cases (b.trigger_round ==ℤ round)) [
  | inl here ↦ rw here refl
  | inr other ↦ rw other (has-last round before added c rest e r)
]

pub EndsWith-lists :
    {round : ℤ} {c : String} {rest : List String} {ss : List SnapshotRunningStatus}
    → EndsWith round (c ∷ rest) ss
    → some_by (λ (s : SnapshotRunningStatus). s.trigger_round ==ℤ round) ss ≡ true
EndsWith-lists {round} {c} {rest} e =
    ap (some_by (λ (s : SnapshotRunningStatus). s.trigger_round ==ℤ round)) e.parts
    ∙ has-last round e.before e.added c rest e.containers e.in_round
