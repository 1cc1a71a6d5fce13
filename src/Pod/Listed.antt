-- ===== src/Pod/Listed.antt =====
-- internal/controller/snapshotpod_controller.go: the snapshots that a loop of `reconcileTasks`
-- which succeeds leaves in the status.
use kube_snapshot.Base.{
  ℕ, zero, suc, ◌+◌, ◌≤◌, String, ◌≡◌, refl, sym, ◌∙◌, ap, Option, none, some, List, [], ◌∷◌, ◌++◌,
  arith, length, drop, map, All, is_empty,
}
use mathlib.Core.Path.{subst}
use kube_snapshot.Base.Int.{ℤ}
use kube_snapshot.Api.{
  SnapshotPod, SnapshotPodTask, SnapshotRunningStatus, PodObject, ContainerStatus,
}
use kube_snapshot.World.{Call, Env, Error, now, pure, is_already_exists, create_task}
use kube_snapshot.World.Logic.{
  Runs, Runs-pure, Runs-ask, Runs-if, Runs-check, Runs-handle, Runs-bind, Runs-bind_free, Runs-map,
}
use kube_snapshot.Pod.Tasks.{
  append_snapshot, running_status, task_for, list_task, create_and_list, snapshot_status,
  snapshot_container, snapshot_containers,
}
use kube_snapshot.Pod.Sound.{HasUuids, append_snapshot-last}
use kube_snapshot.Pod.Containers.{render-Runs}

module _ {A : Type 0} where
  drop-append : (n : ℕ) (xs ys : List A) → n ≤ length xs → drop n (xs ++ ys) ≡ drop n xs ++ ys
  drop-append zero xs ys h = refl
  drop-append (suc n) [] ys h = absurd (omega arith)
  drop-append (suc n) (x ∷ xs) ys h = drop-append n xs ys (omega arith)

  append_assoc : (xs ys zs : List A) → (xs ++ ys) ++ zs ≡ xs ++ (ys ++ zs)
  append_assoc [] ys zs = refl
  append_assoc (x ∷ xs) ys zs = ap (λ l. x ∷ l) (append_assoc xs ys zs)

  append_nil : (xs : List A) → xs ++ [] ≡ xs
  append_nil [] = refl
  append_nil (x ∷ xs) = ap (λ l. x ∷ l) (append_nil xs)

  length-append : (xs ys : List A) → length (xs ++ ys) ≡ length xs + length ys
  length-append [] ys = omega arith
  length-append (x ∷ xs) ys = ground (arith, length-append xs ys)

abbrev pub names : List SnapshotRunningStatus → List String
names ss = map (λ (s : SnapshotRunningStatus). s.container_name) ss

length-names : (ss : List SnapshotRunningStatus) → length (names ss) ≡ length ss
length-names [] = refl
length-names (s ∷ ss) = ap suc (length-names ss)

names-append : (ss ts : List SnapshotRunningStatus) → names (ss ++ ts) ≡ names ss ++ names ts
names-append [] ts = refl
names-append (s ∷ ss) ts = ap (λ l. s.container_name ∷ l) (names-append ss ts)

abbrev pub InRound : ℤ → List SnapshotRunningStatus → Type 0
InRound round ss = All (λ (s : SnapshotRunningStatus). s.trigger_round ≡ round) ss

InRound-append :
    (round : ℤ) (ss ts : List SnapshotRunningStatus)
    → InRound round ss
    → InRound round ts
    → InRound round (ss ++ ts)
InRound-append round [] ts a b = b
InRound-append round (s ∷ ss) ts a b = (a.0, InRound-append round ss ts a.1 b)

-- the last snapshots are of the round, one for each of the containers, in their order
pub record EndsWith (round : ℤ) (cs : List String) (ss : List SnapshotRunningStatus) : Type 0 where
  pub before : List SnapshotRunningStatus
  pub added : List SnapshotRunningStatus
  pub parts : ss ≡ before ++ added
  pub containers : names added ≡ cs
  pub in_round : InRound round added

pub EndsWith-start : (round : ℤ) (ss : List SnapshotRunningStatus) → EndsWith round [] ss
EndsWith-start round ss = record {
  before = ss;
  added = [];
  parts = sym (append_nil ss);
  containers = refl;
  in_round = tt;
}

append-EndsWith :
    (round : ℤ) (cs : List String) (ss : List SnapshotRunningStatus) (s : SnapshotRunningStatus)
    → EndsWith round cs ss
    → length cs ≤ 4
    → s.trigger_round ≡ round
    → EndsWith round (cs ++ s.container_name ∷ []) (append_snapshot ss s)
append-EndsWith round cs ss s ends few this =
    let (n, e, bound) = append_snapshot-last ss s in
    let added_few : length ends.added ≤ 4 =
      rw (sym (length-names ends.added), ends.containers) few in
    let within : n ≤ length ends.before =
      ground
        (arith, bound, ap length ends.parts, length-append ends.before ends.added, added_few) in
    record {
      before = drop n ends.before;
      added = ends.added ++ s ∷ [];
      parts =
          e
          ∙ ap (λ l. drop n l ++ s ∷ []) ends.parts
          ∙ ap (λ l. l ++ s ∷ []) (drop-append n ends.before ends.added within)
          ∙ append_assoc (drop n ends.before) ends.added (s ∷ []);
      containers =
          names-append ends.added (s ∷ []) ∙ ap (λ l. l ++ s.container_name ∷ []) ends.containers;
      in_round = InRound-append round ends.added (s ∷ []) ends.in_round (this, tt);
    }

abbrev pub Free : Call → Type 0
Free c = Unit

-- where there is no error, one snapshot of the container was appended
abbrev Added : SnapshotPod → String → SnapshotPod × Option Error → Type 0
Added sp c (u, failure) =
    failure ≡ none
    → (u.spec ≡ sp.spec)
      × ((s : SnapshotRunningStatus) × (u.status.snapshots ≡ append_snapshot sp.status.snapshots s)
          × (s.trigger_round ≡ sp.spec.trigger_round)
          × (s.container_name ≡ c))

failed-Added : (sp : SnapshotPod) (c : String) (e : Error) → Added sp c (sp, some e)
failed-Added sp c e h = cc h

list_task-Added :
    (env : Env) (sp : SnapshotPod) (c : String) (t : SnapshotPodTask)
    → Runs Free (Added sp c) (list_task env sp c t)
unfolding list_task running_status
list_task-Added env sp c t =
    Runs-bind_free _ _ (Runs-ask now env.clock tt (λ tr. tt))
      λ at. Runs-pure _ (λ h. (refl, (running_status env sp c t at, refl, refl, refl)))

create_and_list-Added :
    (env : Env) (sp : SnapshotPod) (c : String) (t : SnapshotPodTask)
    → Runs Free (Added sp c) (create_and_list env sp c t)
unfolding create_and_list
create_and_list-Added env sp c t =
    Runs-bind_free _ _ (Runs-ask (create_task t) _ tt (λ tr. tt)) λ made.
      Runs-handle made _ _
        (λ e.
          Runs-if (is_already_exists e) _ (pure (sp, some e)) (λ _. list_task-Added env sp c t)
            (λ _. Runs-pure (sp, some e) (failed-Added sp c e)))
        (λ stored _. list_task-Added env sp c stored)

module _ (env : Env) (uuids : HasUuids env) where
  snapshot_status-Added :
      (sp : SnapshotPod) (p : PodObject) (c : String) (found : List ContainerStatus)
      → Runs Free (Added sp c) (snapshot_status env sp p c found)
  unfolding snapshot_status
  snapshot_status-Added sp p c [] = Runs-pure (sp, some _) (failed-Added sp c _)
  snapshot_status-Added sp p c (cs ∷ others) =
      Runs-if (is_empty cs.container_id) _ _ (λ _. Runs-pure (sp, some _) (failed-Added sp c _))
        λ _. Runs-bind_free _ _ (Runs-map (λ call _. tt) (render-Runs env uuids _ _ _)) λ rendered.
          Runs-handle rendered _ _ (λ e. Runs-pure (sp, some e) (failed-Added sp c e))
            λ image _. create_and_list-Added env sp c (task_for env sp p c cs image)

  pub containers-EndsWith :
      (round : ℤ) (sp : SnapshotPod) (p : PodObject) (seen cs : List String)
      → sp.spec.trigger_round ≡ round
      → EndsWith round seen sp.status.snapshots
      → length (seen ++ cs) ≤ 5
      → Runs Free
          (λ (x : SnapshotPod × Option Error).
            x.1 ≡ none → EndsWith round (seen ++ cs) x.0.status.snapshots)
          (snapshot_containers env sp p cs)
  unfolding snapshot_containers snapshot_container
  containers-EndsWith round sp p seen [] same ends few =
      Runs-pure (sp, none) (λ h. rw (append_nil seen) ends)
  containers-EndsWith round sp p seen (c ∷ cs) same ends few =
      Runs-bind _ _ (snapshot_status-Added sp p c _) λ (u, failure) a.
        Runs-check failure _ _ (λ e. Runs-pure (u, some e) (λ h. cc h))
          λ fine.
            let (spec, (s, appended, s_round, s_name)) = a fine in
            let ends' =
              append-EndsWith round seen sp.status.snapshots s ends
                (ground (arith, few, length-append seen (c ∷ cs))) (s_round ∙ same) in
            rw⁻¹ (append_assoc seen (c ∷ []) cs) (
              containers-EndsWith round u p (seen ++ c ∷ []) cs
                (ap (λ x. x.trigger_round) spec ∙ same)
                (rw appended (
                  subst
                    (λ x. EndsWith round (seen ++ x ∷ []) (append_snapshot sp.status.snapshots s))
                    s_name ends'))
                (rw (append_assoc seen (c ∷ []) cs) few))

  -- Where a uuid has eight characters besides its dashes, and for at most five containers, the loop
  -- over the containers returns, and where it ends without an error the last snapshots of the status
  -- are of the round, one for each container, in the order of the containers.
  pub snapshot_containers-EndsWith :
      (sp : SnapshotPod) (p : PodObject) (cs : List String)
      → length cs ≤ 5
      → Runs Free
          (λ (x : SnapshotPod × Option Error).
            x.1 ≡ none → EndsWith sp.spec.trigger_round cs x.0.status.snapshots)
          (snapshot_containers env sp p cs)
  snapshot_containers-EndsWith sp p cs few =
      containers-EndsWith sp.spec.trigger_round sp p [] cs refl
        (EndsWith-start sp.spec.trigger_round sp.status.snapshots) few
