-- ===== src/Pod/Sound.antt =====
-- What the reconciler of a SnapshotPod may do: the calls of `Reconcile`, and the changes to its
-- object.
use kube_snapshot.Base.{
  ℕ, zero, suc, ◌-◌, ◌≤◌, String, ◌≡◌, refl, ◌∙◌, ap, Bool, true, some, List, [], ◌∷◌, ◌++◌, inl,
  inr, arith, length, drop, some_by, ltb, Bool-cases,
}
use kube_snapshot.Base.Int.{◌==ℤ◌}
use kube_snapshot.Api.{
  SnapshotPod, SnapshotPodTask, SnapshotRunningStatus, ObjectKey, snapshot_name_label,
}
use kube_snapshot.World.{
  Call, Trace, Env, create_task, update_task_status, update_snapshot_pod,
  update_snapshot_pod_status, exec, mkdir_temp, remove_all, set_env, unset_env, write_file,
  range_keys, now, new_uuid, get_pod, list_pods, list_tasks,
}
use kube_snapshot.World.Logic.{Runs, Any, same}
use kube_snapshot.Pod.Image.{short_uuid}
use kube_snapshot.Pod.Tasks.{task_name, append_snapshot}

-- the round that the spec asks for stands in the snapshots
abbrev pub lists_round : SnapshotPod → Bool
lists_round sp =
    some_by (λ (s : SnapshotRunningStatus). s.trigger_round ==ℤ sp.spec.trigger_round)
      sp.status.snapshots

-- the same object, with at most twenty snapshots
pub record Keeps (sp u : SnapshotPod) : Type 0 where
  pub same_meta : u.meta ≡ sp.meta
  pub same_spec : u.spec ≡ sp.spec
  pub few : length u.status.snapshots ≤ 20

-- a task of the object: in its namespace, under its label, named after it, the round and a container
pub record IsTaskOf (sp : SnapshotPod) (t : SnapshotPodTask) : Type 0 where
  pub same_namespace : t.meta.namespace ≡ sp.meta.namespace
  pub labelled : t.meta.labels ≡ some ((snapshot_name_label, sp.meta.name) ∷ [])
  pub container : String
  pub named : t.meta.name ≡ task_name sp.meta.name sp.spec.trigger_round container

-- What `Reconcile` does for `sp`: it creates only tasks of it, and writes only its own status;
-- it runs no command, and touches no file.
abbrev pub Allows : SnapshotPod → Call → Type 0
Allows sp (create_task t) = IsTaskOf sp t
Allows sp (update_snapshot_pod_status u) = Keeps sp u
Allows sp (update_snapshot_pod u) = ⊥
Allows sp (update_task_status t) = ⊥
Allows sp (exec ctx command argv) = ⊥
Allows sp mkdir_temp = ⊥
Allows sp (remove_all path) = ⊥
Allows sp (set_env name value) = ⊥
Allows sp (unset_env name) = ⊥
Allows sp (write_file path text) = ⊥
Allows sp _ = Unit

-- the calls that write nothing
pub data Reads : Call → Type 0 where
  clock : Reads now
  uuid : Reads new_uuid
  pod : (key : ObjectKey) → Reads (get_pod key)
  pods :
      (selector : List (String × String)) (namespace : String)
      → Reads (list_pods selector namespace)
  tasks : (selector : List (String × String)) → Reads (list_tasks selector)

pub Reads-Allows : (sp : SnapshotPod) (c : Call) → Reads c → Allows sp c
Reads-Allows sp c clock = tt
Reads-Allows sp c uuid = tt
Reads-Allows sp c (pod key) = tt
Reads-Allows sp c (pods selector namespace) = tt
Reads-Allows sp c (tasks selector) = tt

-- A uuid has eight characters besides its dashes, as RFC 4122 says of its text.
pub record HasUuids (env : Env) : Type 0 where
  pub at : (tr : Trace) → (s : String) × (short_uuid (env.uuid tr) ≡ some s)

pub range_keys-Runs :
    {P : Call → Type 0} (env : Env) (keys : List String) → Runs P Any (range_keys env keys)
unfolding range_keys
range_keys-Runs env keys = record { calls = λ tr. same; result = λ tr. tt }

length-append_one : {A : Type 0} (xs : List A) (x : A) → length (xs ++ x ∷ []) ≡ suc (length xs)
length-append_one [] x = refl
length-append_one (y ∷ xs) x = ap suc (length-append_one xs x)

pub length-drop : {A : Type 0} (n : ℕ) (xs : List A) → length (drop n xs) ≡ length xs - n
length-drop zero xs = omega arith
length-drop (suc n) [] = omega arith
length-drop (suc n) (x ∷ xs) = length-drop n xs ∙ omega arith

-- However many snapshots there were, at most twenty are left after one is appended.
pub append_snapshot-few :
    (ss : List SnapshotRunningStatus) (s : SnapshotRunningStatus)
    → length (append_snapshot ss s) ≤ 20
unfolding append_snapshot
append_snapshot-few ss s = ground (arith, length-drop (length (ss ++ s ∷ []) - 5) (ss ++ s ∷ []))

drop-append_one :
    {A : Type 0} (n : ℕ) (xs : List A) (x : A)
    → n ≤ length xs
    → drop n (xs ++ x ∷ []) ≡ drop n xs ++ x ∷ []
drop-append_one zero xs x h = refl
drop-append_one (suc n) [] x h = absurd (omega arith)
drop-append_one (suc n) (y ∷ xs) x h = drop-append_one n xs x (omega arith)

some_by-last :
    {A : Type 0} (f : A → Bool) (xs : List A) (x : A) → f x ≡ true → some_by f (xs ++ x ∷ []) ≡ true
some_by-last f [] x h = ground arith
some_by-last f (y ∷ xs) x h = ground (arith, some_by-last f xs x h)

-- A number of the oldest snapshots is dropped, the new one is the last, and the four before it stay.
pub append_snapshot-last :
    (ss : List SnapshotRunningStatus) (s : SnapshotRunningStatus)
    → (n : ℕ) × (append_snapshot ss s ≡ drop n ss ++ s ∷ []) × (n ≤ length ss - 4)
unfolding append_snapshot
append_snapshot-last ss s = elim (Bool-cases (ltb 20 (length (ss ++ s ∷ [])))) [
  | inl long ↦ (
    length (ss ++ s ∷ []) - 5,
    rw long
        (drop-append_one (length (ss ++ s ∷ []) - 5) ss s (ground (arith, length-append_one ss s))),
    rw (length-append_one ss s) (omega arith),
  )
  | inr short ↦ (0, rw short refl, omega arith)
]

pub append_snapshot-some_by :
    (f : SnapshotRunningStatus → Bool) (ss : List SnapshotRunningStatus) (s : SnapshotRunningStatus)
    → f s ≡ true
    → some_by f (append_snapshot ss s) ≡ true
append_snapshot-some_by f ss s h =
    let (n, e, bound) = append_snapshot-last ss s in rw e (some_by-last f (drop n ss) s h)
