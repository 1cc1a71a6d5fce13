-- ===== src/Tests/RoundRuns.antt =====
-- Runs of the reconciler of SnapshotPods against a server that holds one SnapshotPod.
use kube_snapshot.Base.{
  String, ◌≡◌, refl, true, none, [], ◌∷◌, inl, All, contains, replace_all, split, show_nat, arith,
}
use kube_snapshot.Base.Int.{pos, show_int}
use kube_snapshot.Api.{SnapshotPod, done_result, created}
use kube_snapshot.World.{Trace, ok, returns, range_keys, ◌>>=◌}
use kube_snapshot.World.Logic.{Grows}
use kube_snapshot.Pod.Image.{render_new_image_name, with_random_tag, tag_with, replace_keys}
use kube_snapshot.Pod.Target.{validate, check_containers, get_target_pod, pod_by_selector, only_pod}
use kube_snapshot.Pod.Status.{task_named, copy_tasks, copy_task, copy_phase, reconcile_tasks_status}
use kube_snapshot.Pod.Reconcile.{
  reconcile, reconcile_snapshot_pod, run_recs, run_rec, round_at, pass_round, finish, is_unfinished,
}
use kube_snapshot.Condition.{ensure_condition, ensure_at, cmp_condition_without_time}
use kube_snapshot.Metrics.{record_controller_reconcile}
use kube_snapshot.Pod.Tasks.{
  reconcile_tasks, snapshot_containers, snapshot_container, snapshot_status, create_and_list,
  list_task, running_status, append_snapshot, task_for, task_name,
}
use kube_snapshot.Pod.Ends.{CanEnd}
use kube_snapshot.Pod.Machine.{view}
use kube_snapshot.Pod.Moves.{Seen, Tracks}
use kube_snapshot.Pod.Safe.{IsSafe, Closed}
use kube_snapshot.Pod.Refined.{reconciles, reconciles_refine_round}
use kube_snapshot.Pod.Kept.{reconciles_stay-IsSafe, reconciles_stay-Closed}
use kube_snapshot.Pod.Opening.{CreatesAll, Fresh}
use kube_snapshot.Pod.Closing.{is_closed, ListsEnds}
use kube_snapshot.Pod.Requeue.{IsFinished}
use kube_snapshot.Pod.Entries.{EntriesEnd}
use kube_snapshot.Pod.Ending.{reconciles_settle}
use kube_snapshot.Tests.Sample.{pod, snapshot_pod, snapshot}
use kube_snapshot.Tests.Held.{
  stored_pod, ended_task, ended_tasks, serving, held, key, serving-Server, held-Server,
  held-HasUuids,
}
use kube_snapshot.Pod.Stalled.{LacksTarget, Stalled, reconciles_stall}

reconciles_refine_round_example :
    ((reconciles (held snapshot_pod) key 3 []).0 ≡ returns tt)
    × Tracks
        (held snapshot_pod)
        snapshot_pod
        (stored_pod snapshot_pod (reconciles (held snapshot_pod) key 3 []).1)
reconciles_refine_round_example =
    reconciles_refine_round (held-Server snapshot_pod) (held-HasUuids snapshot_pod) 3 []

snapshot_pod-IsSafe : IsSafe (Seen (held snapshot_pod) "nginx") (view snapshot_pod)
unfolding task_named
snapshot_pod-IsSafe = record {
  few = omega arith;
  backed = (
    (λ h. record {
      before = [];
      given = ended_tasks;
      listed = refl;
      one = ended_task "nginx-1-web";
      found = refl;
      in_phase = refl;
    }),
    tt,
  );
}

reconciles_stay-IsSafe_example :
    ((reconciles (held snapshot_pod) key 3 []).0 ≡ returns tt)
    × IsSafe
        (Seen (held snapshot_pod) "nginx")
        (view (stored_pod snapshot_pod (reconciles (held snapshot_pod) key 3 []).1))
reconciles_stay-IsSafe_example =
    reconciles_stay-IsSafe (held-Server snapshot_pod) (held-HasUuids snapshot_pod) 3 []
      snapshot_pod-IsSafe

-- the object whose round is closed
abbrev closed_pod : SnapshotPod
closed_pod = record snapshot_pod {
  status = record snapshot_pod.status { last_trigger_round = pos 2 };
}

reconciles_stay-Closed_example :
    ((reconciles (held closed_pod) key 3 []).0 ≡ returns tt)
    × Closed
        (Seen (held closed_pod) "nginx")
        (pos 2)
        (view closed_pod)
        (view (stored_pod closed_pod (reconciles (held closed_pod) key 3 []).1))
reconciles_stay-Closed_example =
    reconciles_stay-Closed (held-Server closed_pod) (held-HasUuids closed_pod) 3 [] refl

held-renders :
    (tr : Trace)
    → (image : String) × ((render_new_image_name
          (held snapshot_pod)
          "nginx"
          "registry/{repository}"
          true
          tr).0
        ≡ returns (ok image))
unfolding render_new_image_name with_random_tag tag_with replace_all contains range_keys ◌>>=◌
held-renders tr = (_, refl)

held-CreatesAll : (sp : SnapshotPod) → CreatesAll (held sp)
held-CreatesAll sp = record { creates = λ tr t. (t, refl) }

snapshot_pod-Fresh : Fresh (held snapshot_pod) ("web" ∷ []) snapshot_pod
unfolding get_target_pod pod_by_selector only_pod ◌>>=◌
snapshot_pod-Fresh = record {
  wanted = refl;
  open_round = refl;
  unlisted = refl;
  tidy = record { known = tt; distinct = tt };
  target = λ tr. (
    pod,
    refl,
    (
      tt,
      refl,
      (
        record { status = _; others = []; found = refl; started = refl; renders = held-renders },
        tt,
      ),
    ),
  );
  first = "web";
  rest = [];
  some_container = refl;
  few = omega arith;
}

-- the first call lists the container and finds its task, which has completed
first_call_ends :
    All
      (CanEnd ended_tasks)
      (stored_pod snapshot_pod (reconciles (held snapshot_pod) key 1 []).1).status.snapshots
unfolding reconciles reconcile reconcile_snapshot_pod run_recs run_rec round_at pass_round finish
    validate check_containers get_target_pod pod_by_selector only_pod reconcile_tasks
    snapshot_containers snapshot_container snapshot_status create_and_list list_task running_status
    append_snapshot task_for task_name render_new_image_name with_random_tag tag_with replace_keys
    replace_all contains range_keys copy_tasks copy_task copy_phase task_named
    reconcile_tasks_status ensure_condition ensure_at cmp_condition_without_time is_unfinished
    record_controller_reconcile show_int show_nat split ◌>>=◌
first_call_ends = (inl refl, (inl refl, tt))

snapshots_end :
    (tr : Trace)
    → Grows (λ c. Unit) (reconciles (held snapshot_pod) key 1 []).1 tr
    → ListsEnds
        (held snapshot_pod)
        (stored_pod snapshot_pod (reconciles (held snapshot_pod) key 1 []).1)
        tr
snapshots_end tr g = (ended_tasks, refl, first_call_ends)

reconciles_settle_example :
    ((reconciles (held snapshot_pod) key 1 []).0 ≡ returns tt)
    × ((reconcile (held snapshot_pod) key (reconciles (held snapshot_pod) key 1 []).1).0
        ≡ returns (done_result, none))
    × (is_closed (
          stored_pod snapshot_pod
            (reconcile (held snapshot_pod) key (reconciles (held snapshot_pod) key 1 []).1).1)
        ≡ true)
    × IsFinished (
        stored_pod snapshot_pod
          (reconcile (held snapshot_pod) key (reconciles (held snapshot_pod) key 1 []).1).1)
    × EntriesEnd
        (pos 2)
        ("web" ∷ [])
        (view (
          stored_pod snapshot_pod
            (reconcile
              (held snapshot_pod)
              key
              (reconciles (held snapshot_pod) key 1 []).1).1)).entries
reconciles_settle_example =
    reconciles_settle (held-Server snapshot_pod) (held-HasUuids snapshot_pod)
      (held-CreatesAll snapshot_pod) ("web" ∷ []) 0 [] snapshot_pod-Fresh snapshots_end

-- the object once its round is listed
abbrev listed_pod : SnapshotPod
listed_pod = record snapshot_pod {
  status = record snapshot_pod.status {
    snapshots =
        snapshot 1 ∷ record (snapshot 2) { task_name = "nginx-2-web"; result = created } ∷ [];
  };
}

no_pod : LacksTarget (serving [] listed_pod) listed_pod
unfolding get_target_pod pod_by_selector only_pod ◌>>=◌
no_pod tr = (_, refl)

reconciles_stall_example :
    ((reconciles (serving [] listed_pod) key 3 []).0 ≡ returns tt)
    × Stalled listed_pod (stored_pod listed_pod (reconciles (serving [] listed_pod) key 3 []).1)
reconciles_stall_example = reconciles_stall (serving-Server [] listed_pod) 3 [] refl no_pod
