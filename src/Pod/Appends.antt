-- ===== src/Pod/Appends.antt =====
-- internal/controller/snapshotpod_controller.go: the entries that the loop of
-- `reconcileTasks` appends.
use kube_snapshot.Base.{
  ℕ, zero, suc, ◌-◌, String, ◌≡◌, refl, sym, ◌∙◌, ap, Option, some, List, [], ◌∷◌, ◌++◌, map,
  length, drop, some_by, if◌then◌else◌, ltb, All, Bool-cases, inl, inr, is_empty,
}
use mathlib.Core.Path.{subst}
use mathlib.Core.List.{map-append}
use kube_snapshot.Base.Int.{ℤ, ◌==ℤ◌}
use kube_snapshot.Base.AllLaws.{All-append}
use kube_snapshot.Api.{
  SnapshotPod, SnapshotPodSpec, SnapshotPodTask, SnapshotRunningStatus, PodObject, ContainerStatus,
}
use kube_snapshot.World.{Call, Env, Error, now, create_task, is_already_exists, pure}
use kube_snapshot.World.Logic.{
  Runs, Runs-pure, Runs-ask, Runs-if, Runs-check, Runs-handle, Runs-bind, Runs-bind_free, Runs-map,
  Runs-weaken,
}
use kube_snapshot.Pod.Tasks.{
  append_snapshot, task_for, running_status, list_task, create_and_list, snapshot_status,
  snapshot_container, snapshot_containers,
}
use kube_snapshot.Pod.Sound.{Reads, clock, HasUuids}
use kube_snapshot.Pod.Containers.{render-Runs}
use kube_snapshot.Pod.Machine.{Entry, entry, has_round, append_entry, append_entries, IsNew}

map-drop : {A B : Type 0} (f : A → B) (n : ℕ) (xs : List A) → map f (drop n xs) ≡ drop n (map f xs)
map-drop f zero xs = refl
map-drop f (suc n) [] = refl
map-drop f (suc n) (x ∷ xs) = map-drop f n xs

length-map : {A B : Type 0} (f : A → B) (xs : List A) → length (map f xs) ≡ length xs
length-map f [] = refl
length-map f (x ∷ xs) = ap suc (length-map f xs)

abbrev cut : {A : Type 0} → List A → List A
cut xs = if ltb 20 (length xs) then drop (length xs - 5) xs else xs

map-cut : {A B : Type 0} (f : A → B) (xs : List A) → map f (cut xs) ≡ cut (map f xs)
map-cut f xs = elim (Bool-cases (ltb 20 (length xs))) [
  | inl over ↦ rw (length-map f xs, over) (map-drop f (length xs - 5) xs)
  | inr few ↦ rw (length-map f xs, few) refl
]

append_snapshot-entry :
    (ss : List SnapshotRunningStatus) (s : SnapshotRunningStatus)
    → map entry (append_snapshot ss s) ≡ append_entry (map entry ss) (entry s)
unfolding append_snapshot append_entry
append_snapshot-entry ss s = map-cut entry (ss ++ s ∷ []) ∙ ap cut (map-append entry ss (s ∷ []))

pub some_by-entry :
    (round : ℤ) (ss : List SnapshotRunningStatus)
    → some_by (λ (s : SnapshotRunningStatus). s.trigger_round ==ℤ round) ss
      ≡ has_round round (map entry ss)
some_by-entry round [] = refl
some_by-entry round (s ∷ ss) = rw (some_by-entry round ss) refl

-- new entries were appended to the snapshots, and nothing else was changed
pub record ListsNew (sp u : SnapshotPod) : Type 0 where
  pub same_meta : u.meta ≡ sp.meta
  pub same_spec : u.spec ≡ sp.spec
  pub same_last : u.status.last_trigger_round ≡ sp.status.last_trigger_round
  pub same_conditions : u.status.conditions ≡ sp.status.conditions
  pub new : List Entry
  pub all_new : All (IsNew sp.spec.trigger_round) new
  pub appended : map entry u.status.snapshots ≡ append_entries (map entry sp.status.snapshots) new

abbrev pub ListsNewFirst : SnapshotPod → SnapshotPod × Option Error → Type 0
ListsNewFirst sp x = ListsNew sp x.0

ListsNew-refl : (sp : SnapshotPod) → ListsNew sp sp
ListsNew-refl sp = record {
  same_meta = refl;
  same_spec = refl;
  same_last = refl;
  same_conditions = refl;
  new = [];
  all_new = tt;
  appended = refl;
}

append_entries-append :
    (es a b : List Entry) → append_entries es (a ++ b) ≡ append_entries (append_entries es a) b
append_entries-append es [] b = refl
append_entries-append es (x ∷ a) b = append_entries-append (append_entry es x) a b

ListsNew-trans : {sp u v : SnapshotPod} → ListsNew sp u → ListsNew u v → ListsNew sp v
ListsNew-trans {sp} {u} {v} a b = record {
  same_meta = b.same_meta ∙ a.same_meta;
  same_spec = b.same_spec ∙ a.same_spec;
  same_last = b.same_last ∙ a.same_last;
  same_conditions = b.same_conditions ∙ a.same_conditions;
  new = a.new ++ b.new;
  all_new =
      All-append (IsNew sp.spec.trigger_round) a.new b.new a.all_new
        (subst (λ (s : SnapshotPodSpec). All (IsNew s.trigger_round) b.new) a.same_spec b.all_new);
  appended =
      b.appended
      ∙ ap (λ es. append_entries es b.new) a.appended
      ∙ sym (append_entries-append (map entry sp.status.snapshots) a.new b.new);
}

-- the calls of `reconcileTasks`
pub data Creates : Call → Type 0 where
  reads : {c : Call} → Reads c → Creates c
  creates : (t : SnapshotPodTask) → Creates (create_task t)

module _ (env : Env) where
  list_task-New :
      (sp : SnapshotPod) (c : String) (t : SnapshotPodTask)
      → Runs Creates (ListsNewFirst sp) (list_task env sp c t)
  unfolding list_task running_status
  list_task-New sp c t = Runs-bind_free _ _ (Runs-ask now env.clock (reads clock) (λ tr. tt)) λ at.
      let s = running_status env sp c t at in
      Runs-pure _ (record {
        same_meta = refl;
        same_spec = refl;
        same_last = refl;
        same_conditions = refl;
        new = entry s ∷ [];
        all_new = ((refl, refl), tt);
        appended = append_snapshot-entry sp.status.snapshots s;
      })

  create_and_list-New :
      (sp : SnapshotPod) (c : String) (t : SnapshotPodTask)
      → Runs Creates (ListsNewFirst sp) (create_and_list env sp c t)
  unfolding create_and_list
  create_and_list-New sp c t =
      Runs-bind_free _ _ (Runs-ask (create_task t) _ (creates t) (λ tr. tt)) λ made.
        Runs-handle made _ _
          (λ e.
            Runs-if (is_already_exists e) _ (pure (sp, some e)) (λ _. list_task-New sp c t)
              (λ _. Runs-pure (sp, some e) (ListsNew-refl sp)))
          (λ stored _. list_task-New sp c stored)

  module _ (uuids : HasUuids env) where
    snapshot_status-New :
        (sp : SnapshotPod) (p : PodObject) (c : String) (found : List ContainerStatus)
        → Runs Creates (ListsNewFirst sp) (snapshot_status env sp p c found)
    unfolding snapshot_status
    snapshot_status-New sp p c [] = Runs-pure _ (ListsNew-refl sp)
    snapshot_status-New sp p c (cs ∷ others) =
        Runs-if (is_empty cs.container_id) _ _ (λ _. Runs-pure (sp, some _) (ListsNew-refl sp))
          λ _. Runs-bind_free _ _ (Runs-map (λ c. reads) (render-Runs env uuids _ _ _)) λ rendered.
            Runs-handle rendered _ _ (λ e. Runs-pure (sp, some e) (ListsNew-refl sp))
              λ image _. create_and_list-New sp c (task_for env sp p c cs image)

    pub snapshot_containers-New :
        (sp : SnapshotPod) (p : PodObject) (cs : List String)
        → Runs Creates (ListsNewFirst sp) (snapshot_containers env sp p cs)
    unfolding snapshot_containers snapshot_container
    snapshot_containers-New sp p [] = Runs-pure _ (ListsNew-refl sp)
    snapshot_containers-New sp p (c ∷ cs) =
        Runs-bind _ _ (snapshot_status-New sp p c _) λ (u, failure) l.
          Runs-check failure _ _ (λ e. Runs-pure _ l)
            λ _. Runs-weaken (λ x m. ListsNew-trans l m) (snapshot_containers-New u p cs)
