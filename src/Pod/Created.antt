-- ===== src/Pod/Created.antt =====
-- internal/controller/snapshotpod_controller.go: every snapshot that `reconcileTasks` lists has a
-- task that was submitted for it.
use kube_snapshot.Base.{
  String, ◌≡◌, refl, Option, none, some, List, [], ◌∷◌, inl, inr, Bool-cases, if◌then◌else◌,
  is_empty,
}
use mathlib.Core.List.{Memᴰ}
use mathlib.Core.List.Memᴰ.{head, tail}
use kube_snapshot.Base.Int.{◌==ℤ◌}
use kube_snapshot.Api.{
  SnapshotPod, SnapshotPodTask, SnapshotRunningStatus, PodObject, ContainerStatus,
}
use kube_snapshot.World.{
  Trace, Env, Error, Result, ok, err, ◌>>=◌, pure, handle, check, is_already_exists, now,
  create_task,
}
use kube_snapshot.World.State.{
  Holds, Holds-pure, Holds-if, Holds-bind, Holds-Runs, Holds-weaken, After,
}
use kube_snapshot.Pod.Tasks.{
  round_containers, task_for, running_status, list_task, create_and_list, snapshot_status,
  snapshot_container, snapshot_containers, reconcile_tasks,
}
use kube_snapshot.Pod.Sound.{HasUuids, lists_round}
use kube_snapshot.Pod.Containers.{closed, render-Runs, get_target_pod-Runs}
use kube_snapshot.Pod.Backed.{
  KeepsCreated, IsSubmitted, Backed, Leaves, Backed-later, Backed-start, append_snapshot-All,
  All-Memᴰ_self,
}

module _ (first : List SnapshotRunningStatus) (env : Env) where
  list_task-Leaves :
      (sp : SnapshotPod) (c : String) (t : SnapshotPodTask)
      → Holds
          (λ tr. Backed first sp.status.snapshots tr × IsSubmitted tr t)
          (list_task env sp c t)
          (Leaves first)
  unfolding list_task running_status ◌>>=◌
  list_task-Leaves sp c t = record {
    at = λ tr (b, i).
        append_snapshot-All _ sp.status.snapshots (running_status env sp c t (env.clock tr))
          (Backed-later first sp.status.snapshots now tr b)
          (inr (record {
            task = i.task;
            called = tail i.called;
            same_name = i.same_name;
            same_image = i.same_image;
          }));
  }

  module _ (keep : KeepsCreated env) where
    made-Leaves :
        (sp : SnapshotPod) (c : String) (t : SnapshotPodTask) (made : Result SnapshotPodTask)
        (tr : Trace)
        → Backed first sp.status.snapshots tr
        → Memᴰ (create_task t) tr
        → ((u : SnapshotPodTask)
            → made ≡ ok u
            → (u.meta.name ≡ t.meta.name) × (u.spec.commit_image ≡ t.spec.commit_image))
        → let run =
            handle made
              (λ e. if is_already_exists e then list_task env sp c t else pure (sp, some e))
              (λ stored. list_task env sp c stored)
              tr in
          After (Leaves first) run.0 run.1
    unfolding pure
    made-Leaves sp c t (ok u) tr b m same =
        let (name, image) = same u refl in
        (list_task-Leaves sp c u).at tr
          (b, record { task = t; called = m; same_name = name; same_image = image })
    made-Leaves sp c t (err e) tr b m same = elim (Bool-cases (is_already_exists e)) [
      | inl there ↦ rw there (
          (list_task-Leaves sp c t).at tr
            (b, record { task = t; called = m; same_name = refl; same_image = refl }))
      | inr other ↦ rw other b
    ]

    create_and_list-Leaves :
        (sp : SnapshotPod) (c : String) (t : SnapshotPodTask)
        → Holds
            (λ tr. Backed first sp.status.snapshots tr)
            (create_and_list env sp c t)
            (Leaves first)
    unfolding create_and_list ◌>>=◌
    create_and_list-Leaves sp c t = record {
      at = λ tr b.
          made-Leaves sp c t (env.task_created tr t) (create_task t ∷ tr)
            (Backed-later first sp.status.snapshots (create_task t) tr b) (head refl)
            (λ u e. keep.at tr t u e);
    }

    module _ (uuids : HasUuids env) where
      rendered-Leaves :
          (sp : SnapshotPod) (p : PodObject) (c : String) (cs : ContainerStatus)
          (rendered : Result String)
          → Holds
              (λ tr. Backed first sp.status.snapshots tr)
              (handle rendered
                (λ e. pure (sp, some e))
                (λ image. create_and_list env sp c (task_for env sp p c cs image)))
              (Leaves first)
      rendered-Leaves sp p c cs (ok image) = create_and_list-Leaves sp c _
      rendered-Leaves sp p c cs (err e) = Holds-pure _ (λ tr b. b)

      snapshot_status-Leaves :
          (sp : SnapshotPod) (p : PodObject) (c : String) (found : List ContainerStatus)
          → Holds
              (λ tr. Backed first sp.status.snapshots tr)
              (snapshot_status env sp p c found)
              (Leaves first)
      unfolding snapshot_status
      snapshot_status-Leaves sp p c [] = Holds-pure _ (λ tr b. b)
      snapshot_status-Leaves sp p c (cs ∷ others) =
          Holds-if (is_empty cs.container_id) _ _ (λ _. Holds-pure _ (λ tr b. b))
            λ _.
              Holds-bind _ _
                (Holds-Runs (Backed first sp.status.snapshots)
                  (λ x tr _. Backed-later first sp.status.snapshots x tr)
                  (render-Runs env uuids _ _ _))
                λ rendered.
                  Holds-weaken (λ tr (_, b). b) (λ a tr l. l) (rendered-Leaves sp p c cs rendered)

      -- the loop after a container
      next-Leaves :
          (p : PodObject) (cs : List String)
          → ((u : SnapshotPod)
              → Holds
                  (Backed first u.status.snapshots)
                  (snapshot_containers env u p cs)
                  (Leaves first))
          → (x : SnapshotPod × Option Error)
          → Holds
              ((Leaves first) x)
              (check x.1 (λ e. pure (x.0, some e)) (snapshot_containers env x.0 p cs))
              (Leaves first)
      next-Leaves p cs rest (u, some e) = Holds-pure _ (λ tr b. b)
      next-Leaves p cs rest (u, none) = rest u

      snapshot_containers-Leaves :
          (p : PodObject) (cs : List String) (sp : SnapshotPod)
          → Holds
              (Backed first sp.status.snapshots)
              (snapshot_containers env sp p cs)
              (Leaves first)
      unfolding snapshot_containers snapshot_container
      snapshot_containers-Leaves p [] sp = Holds-pure _ (λ tr b. b)
      snapshot_containers-Leaves p (c ∷ cs) sp =
          Holds-bind _ _ (snapshot_status-Leaves sp p c _)
            (next-Leaves p cs (snapshot_containers-Leaves p cs))

      got-Leaves :
          (sp : SnapshotPod) (got : Result PodObject)
          → Holds
              (Backed first sp.status.snapshots)
              (handle got
                (λ e. pure (sp, some e))
                (λ p. snapshot_containers env sp p (round_containers sp p)))
              (Leaves first)
      got-Leaves sp (ok p) = snapshot_containers-Leaves p _ sp
      got-Leaves sp (err e) = Holds-pure _ (λ tr b. b)

      reconcile_tasks-Leaves :
          (sp : SnapshotPod)
          → Holds (Backed first sp.status.snapshots) (reconcile_tasks env sp) (Leaves first)
      unfolding reconcile_tasks
      reconcile_tasks-Leaves sp =
          Holds-if (sp.status.last_trigger_round ==ℤ sp.spec.trigger_round) _ _
            (λ _. Holds-pure _ (λ tr b. b))
            λ _.
              Holds-if (lists_round sp) (pure (closed sp, none)) _ (λ _. Holds-pure _ (λ tr b. b))
                λ _.
                  Holds-bind _ _
                    (Holds-Runs (Backed first sp.status.snapshots)
                      (λ x tr _. Backed-later first sp.status.snapshots x tr)
                      (get_target_pod-Runs env sp))
                    λ got. Holds-weaken (λ tr (_, b). b) (λ a tr l. l) (got-Leaves sp got)

-- Where a uuid has eight characters besides its dashes, and the API server keeps the name and the
-- image of a task that it creates, `reconcileTasks` returns, with an error or without, and each
-- snapshot that it leaves was there before, or a call has submitted the task that it names, with
-- its image.
pub reconcile_tasks_backed :
    (env : Env)
    → KeepsCreated env
    → HasUuids env
    → (sp : SnapshotPod) → Holds (λ tr. Unit) (reconcile_tasks env sp) (Leaves sp.status.snapshots)
reconcile_tasks_backed env keep uuids sp =
    Holds-weaken
      (λ tr _.
        Backed-start sp.status.snapshots sp.status.snapshots tr
          (All-Memᴰ_self sp.status.snapshots sp.status.snapshots (λ s m. m)))
      (λ a tr l. l) (reconcile_tasks-Leaves sp.status.snapshots env keep uuids sp)
