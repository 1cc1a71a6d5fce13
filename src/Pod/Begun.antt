-- ===== src/Pod/Begun.antt =====
-- internal/controller/snapshotpod_controller.go: the loop of `Reconcile` at the first call for a
-- round, after which its containers are listed.
use kube_snapshot.Base.{List, String, [], ap, inr, refl, some_by, sym, true, ◌∙◌, ◌∷◌, ◌≡◌, ◌⊎◌}
use mathlib.Core.Path.{subst}
use kube_snapshot.Base.Int.{◌==ℤ◌, pos, ◌≤?◌}
use kube_snapshot.Api.{SnapshotPod, SnapshotPodSpec, SnapshotRunningStatus}
use kube_snapshot.World.{Call, Trace, Env, M, Exit, returns, panics}
use kube_snapshot.World.Logic.{Runs, Returns, Runs-weaken, Runs-both}
use kube_snapshot.World.State.{Holds, After, Holds-bind, Holds-Runs, Holds-given, Holds-weaken}
use kube_snapshot.Condition.Types.{types, IsTidy, add_type, add_type-IsTidy}
use kube_snapshot.Pod.Reconcile.{run_recs, recs}
use kube_snapshot.Pod.Status.{reconcile_tasks_status}
use kube_snapshot.Pod.Sound.{HasUuids, clock}
use kube_snapshot.Pod.Listed.{EndsWith}
use kube_snapshot.Pod.Appends.{Creates, reads}
use kube_snapshot.Pod.Entries.{EntriesEnd, EndsWith-EntriesEnd, EndsWith-lists, Stays-EntriesEnd}
use kube_snapshot.Pod.Machine.{View, view}
use kube_snapshot.Pod.Rounds.{run_recs-Keeps}
use kube_snapshot.Pod.Moves.{Tracks, reconcile_tasks_status-Tracks}
use kube_snapshot.Pod.Passes.{Passed, Ignores, run_rec-Passed}
use kube_snapshot.Pod.Closing.{is_closed, HasTarget, Alike, Alike-refl, accept-Passes}
use kube_snapshot.Pod.Live.{steps, Listed, Alike-Ignores}
use kube_snapshot.Pod.Server.{SameObject}
use kube_snapshot.Pod.Refined.{
  Tracks-refl, Tracks-with_conditions, run_recs-Tracks, Tracks-SameObject,
}
use kube_snapshot.Pod.Steady.{target_kept, Listed-Tracks, IsTidy-SameObject, Continued}
use kube_snapshot.Pod.Tidy.{run_recs-IsTidy, calm_of}
use kube_snapshot.Pod.Opening.{CreatesAll, Fresh, Opened, reconcile_tasks-Opened}

Opened-Ignores : (cs : List String) (sp : SnapshotPod) → Ignores (Opened cs sp)
Opened-Ignores cs sp u conditions o = record {
  same_meta = o.same_meta;
  same_spec = o.same_spec;
  ends = o.ends;
}

-- the object of a listed round, with an entry for each of the containers
pub record Begun (env : Env) (cs : List String) (sp w : SnapshotPod) : Type 0 where
  pub same_meta : w.meta ≡ sp.meta
  pub same_spec : w.spec ≡ sp.spec
  pub listed : Listed env w
  pub entries : EntriesEnd sp.spec.trigger_round cs (view w).entries

-- a claim on what an action returns, from one logic, with the calls from another
Runs-Holds :
    {A : Type 0} {P : Call → Type 0} {Q R : A → Type 0} {m : M A}
    → Runs P Q m
    → Holds (λ tr. Unit {0}) m (λ a tr. R a)
    → Runs P R m
Runs-Holds {R} {m} k h = record {
  calls = k.calls;
  result = λ tr. go (m tr).0 (m tr).1 (h.at tr tt);
}
  where
    go : (r : Exit _) (tr : Trace) → After (λ a tr. R a) r tr → Returns R r
    go (returns a) tr q = q
    go panics tr q = absurd q

module _ (env : Env) (uuids : HasUuids env) (w : CreatesAll env) (cs : List String)
    (sp : SnapshotPod) (y : Fresh env cs sp) where
  -- what the third step may do, once the containers are listed
  Opened-Listed :
      (v : SnapshotPod) → Opened cs sp v → IsTidy steps (types v.status.conditions) → Listed env v
  Opened-Listed v o tidy = record {
    wanted = ap (λ (s : SnapshotPodSpec). s.trigger_round ≤? pos 0) o.same_spec ∙ y.wanted;
    accepted = inr (
        target_kept env sp v o.same_meta o.same_spec
          (λ tr. let (p, found, (all, _, _)) = y.target tr in (p, found, all)));
    listed = inr (
        ap
          (λ (s : SnapshotPodSpec).
            some_by (λ (x : SnapshotRunningStatus). x.trigger_round ==ℤ s.trigger_round)
              v.status.snapshots)
          o.same_spec
        ∙ EndsWith-lists (
            subst (λ l. EndsWith sp.spec.trigger_round l v.status.snapshots) y.some_container
              o.ends));
    tidy = tidy;
  }

  rest-Begun :
      (v : SnapshotPod)
      → Opened cs sp v
      → IsTidy steps (types v.status.conditions)
      → Runs Creates
          (Begun env cs sp)
          (run_recs env (record { typ = "TaskStatus"; run = reconcile_tasks_status env } ∷ []) v)
  rest-Begun v o tidy =
      Runs-weaken
        (λ u (k, t).
          let (l, stay) = Listed-Tracks env k (Opened-Listed v o tidy) t in
          record {
            same_meta = k.same_meta ∙ o.same_meta;
            same_spec = k.same_spec ∙ o.same_spec;
            listed = l;
            entries = Stays-EntriesEnd stay (EndsWith-EntriesEnd o.ends);
          })
        (Runs-both
          (run_recs-Keeps (reads clock) (Tracks env v) (Tracks-with_conditions env uuids v) env _
            ((λ u k. Runs-weaken (λ x m. m.0) (reconcile_tasks_status-Tracks env u k)), tt) v
            (Tracks-refl env v))
          (run_recs-IsTidy env _
            ((calm_of env _ (λ u. reconcile_tasks_status-Tracks env u), refl), tt) v tidy))

  found : (is_closed sp ≡ true) ⊎ HasTarget env sp
  found = inr (λ tr. let (p, e, (all, _, _)) = y.target tr in (p, e, all))

  IsTidy-of :
      {u v : SnapshotPod}
      → Passed (Alike sp) "Accept" sp u
      → Passed (Opened cs sp) "Tasks" u v
      → IsTidy steps (types v.status.conditions)
  IsTidy-of a b =
      subst (IsTidy steps) (sym (b.added ∙ ap (add_type "Tasks") a.added))
        (add_type-IsTidy steps _ "Tasks" refl (add_type-IsTidy steps _ "Accept" refl y.tidy))

  pub run_recs-Begun : Runs Creates (Begun env cs sp) (run_recs env (recs env) sp)
  unfolding run_recs
  run_recs-Begun = Runs-Holds (run_recs-Tracks env uuids sp) (
      Holds-bind _ _
        (run_rec-Passed env (λ tr. Unit {0}) (λ c tr i. tt) (Alike sp) (Alike sp) (Alike-Ignores sp)
          (Alike-Ignores sp) _ (accept-Passes env (λ tr. Unit {0}) (λ c tr i. tt) sp found) sp
          (Alike-refl sp))
        λ (u, on_a). Holds-given λ (goes_a, a). rw goes_a (
          Holds-bind _ _
            (run_rec-Passed env (λ tr. Unit {0}) (λ c tr i. tt) (Alike sp) (Opened cs sp)
              (Alike-Ignores sp) (Opened-Ignores cs sp) _
              (λ x k.
                Holds-Runs (λ tr. Unit {0}) (λ c tr _ _. tt)
                  (reconcile_tasks-Opened env uuids w cs sp y x k))
              u a.result)
            λ (v, on_b). Holds-given λ (goes_b, b). rw goes_b (
              Holds-weaken (λ tr i. i) (λ x tr (r, _). r)
                (Holds-Runs (λ tr. Unit {0}) (λ c tr _ _. tt)
                  (rest-Begun v b.result (IsTidy-of a b))))))

pub Begun-SameObject :
    (env : Env) (cs : List String) (sp v u : SnapshotPod)
    → SameObject v u
    → Begun env cs sp v
    → Begun env cs sp u
Begun-SameObject env cs sp v u s b = record {
  same_meta = s.same_meta ∙ b.same_meta;
  same_spec = s.same_spec ∙ b.same_spec;
  listed =
      (Listed-Tracks env (Tracks-SameObject env v v u s (Tracks-refl env v)) b.listed
        (IsTidy-SameObject v u s b.listed.tidy)).0;
  entries =
      subst (λ (x : View). EntriesEnd sp.spec.trigger_round cs x.entries) (sym s.same_view)
        b.entries;
}

pub Begun-Continued :
    {env : Env} {cs : List String} {sp v u : SnapshotPod}
    → Begun env cs sp v
    → Continued env v u
    → Begun env cs sp u
Begun-Continued b (l, k, stay) = record {
  same_meta = k.same_meta ∙ b.same_meta;
  same_spec = k.same_spec ∙ b.same_spec;
  listed = l;
  entries = Stays-EntriesEnd stay b.entries;
}
