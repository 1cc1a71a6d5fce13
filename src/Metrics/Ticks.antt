-- ===== src/Metrics/Ticks.antt =====
-- internal/metrics/collector.go: how often the loop of `Start` collects.
use kube_snapshot.Base.{
  ℕ, suc, ◌+◌, String, ◌≡◌, refl, ◌∙◌, ap, Option, none, some, List, [], ◌∷◌, arith,
}
use kube_snapshot.Api.{SnapshotPod}
use kube_snapshot.World.{
  Call, Trace, Error, Result, ok, err, returns, Env, M, pure, ask, tell, range_keys, ◌>>=◌, handle,
  check, active_tasks, tasks_by_node, gauge_reset, list_snapshot_pods, list_tasks,
}
use kube_snapshot.Metrics.{set_active_snapshot_tasks, set_snapshot_tasks_by_node}
use kube_snapshot.Metrics.Collector.{
  Event, tick, stopped, NodeCounts, Counts, set_active, collect_snapshot_pod_metrics, set_statuses,
  set_nodes, collect_snapshot_pod_task_metrics, collect_metrics, start,
}

abbrev weight : Call → ℕ
weight (gauge_reset active_tasks) = 1
weight _ = 0

-- how often the gauge of the running tasks was reset, with which each collection starts
abbrev pub collections : Trace → ℕ
collections [] = 0
collections (c ∷ tr) = weight c + collections tr

-- the ticks before the context ends
abbrev pub ticks : List Event → ℕ
ticks [] = 0
ticks (stopped ∷ later) = 0
ticks (tick ∷ later) = suc (ticks later)

-- `m` returns, and collects `n` times.
record Collects {A : Type 0} (n : ℕ) (m : M A) : Type 0 where
  count : (tr : Trace) → collections (m tr).1 ≡ n + collections tr
  ends : (tr : Trace) → (a : A) × ((m tr).0 ≡ returns a)

Collects-pure : {A : Type 0} (a : A) → Collects 0 (pure a)
unfolding pure
Collects-pure a = record { count = λ tr. omega arith; ends = λ tr. (a, refl) }

Collects-ask : {A : Type 0} (c : Call) (f : Trace → A) → Collects (weight c) (ask c f)
unfolding ask
Collects-ask c f = record { count = λ tr. refl; ends = λ tr. (f tr, refl) }

Collects-tell : (c : Call) → Collects (weight c) (tell c)
unfolding tell
Collects-tell c = record { count = λ tr. refl; ends = λ tr. (tt, refl) }

Collects-keys : (env : Env) (ks : List String) → Collects 0 (range_keys env ks)
unfolding range_keys
Collects-keys env ks = record {
  count = λ tr. omega arith;
  ends = λ tr. (env.key_order tr ks, refl);
}

module _ {A B : Type 0} {i j : ℕ} where
  Collects-bind :
      (m : M A) (f : A → M B)
      → Collects i m
      → ((a : A) → Collects j (f a))
      → Collects (j + i) (m >>= f)
  unfolding ◌>>=◌
  Collects-bind m f km kf = record {
    count = λ tr.
        let (a, e) = km.ends tr in
        rw e ((kf a).count (m tr).1 ∙ ap (λ n. j + n) (km.count tr) ∙ omega arith);
    ends = λ tr. let (a, e) = km.ends tr in rw e ((kf a).ends (m tr).1);
  }

module _ {B : Type 0} {i : ℕ} where
  Collects-handle :
      {A : Type 0} (r : Result A) (bad : Error → M B) (good : A → M B)
      → ((e : Error) → Collects i (bad e))
      → ((a : A) → Collects i (good a))
      → Collects i (handle r bad good)
  Collects-handle (ok a) bad good kb kg = kg a
  Collects-handle (err e) bad good kb kg = kb e

  Collects-check :
      (e : Option Error) (bad : Error → M B) (good : M B)
      → ((x : Error) → Collects i (bad x))
      → Collects i good
      → Collects i (check e bad good)
  Collects-check none bad good kb kg = kg
  Collects-check (some x) bad good kb kg = kb x

module _ {A : Type 0} {n : ℕ} {m : M A} where
  recount : Collects (n + 1) m → Collects (suc n) m
  recount k = record { count = λ tr. k.count tr ∙ omega arith; ends = k.ends }

module _ (env : Env) where
  active-Collects : (sps : List SnapshotPod) → Collects 0 (set_active env sps)
  unfolding set_active set_active_snapshot_tasks
  active-Collects [] = Collects-pure tt
  active-Collects (sp ∷ sps) = Collects-bind _ _ (Collects-tell _) λ _. active-Collects sps

  statuses-Collects :
      (node : String) (ks : List String) (m : Counts) → Collects 0 (set_statuses env node ks m)
  unfolding set_statuses set_snapshot_tasks_by_node
  statuses-Collects node [] m = Collects-pure tt
  statuses-Collects node (k ∷ ks) m =
      Collects-bind _ _ (Collects-tell _) λ _. statuses-Collects node ks m

  nodes-Collects : (ks : List String) (ns : NodeCounts) → Collects 0 (set_nodes env ks ns)
  unfolding set_nodes
  nodes-Collects [] ns = Collects-pure tt
  nodes-Collects (k ∷ ks) ns =
      Collects-bind _ _ (Collects-keys env _)
        λ _. Collects-bind _ _ (statuses-Collects k _ _) λ _. nodes-Collects ks ns

  pods-Collects : Collects 1 (collect_snapshot_pod_metrics env)
  unfolding collect_snapshot_pod_metrics
  pods-Collects = Collects-bind _ _ (Collects-tell (gauge_reset active_tasks)) λ _.
      Collects-bind _ _ (Collects-ask (list_snapshot_pods none) _) λ listed.
        Collects-handle listed _ _ (λ e. Collects-pure (some e))
          λ sps. Collects-bind _ _ (active-Collects sps) λ _. Collects-pure none

  tasks-Collects : Collects 0 (collect_snapshot_pod_task_metrics env)
  unfolding collect_snapshot_pod_task_metrics
  tasks-Collects = Collects-bind _ _ (Collects-tell (gauge_reset tasks_by_node)) λ _.
      Collects-bind _ _ (Collects-ask (list_tasks []) _) λ listed.
        Collects-handle listed _ _ (λ e. Collects-pure (some e))
          λ ts.
            Collects-bind _ _ (Collects-keys env _)
              λ ks. Collects-bind _ _ (nodes-Collects ks _) λ _. Collects-pure none

  collect-Collects : Collects 1 (collect_metrics env)
  unfolding collect_metrics
  collect-Collects =
      Collects-bind _ _ pods-Collects
        λ failure. Collects-check failure _ _ (λ e. Collects-pure (some e)) tasks-Collects

  start-Collects : (es : List Event) → Collects (ticks es) (start env es)
  unfolding start
  start-Collects [] = Collects-pure tt
  start-Collects (stopped ∷ es) = Collects-pure tt
  start-Collects (tick ∷ es) = recount (Collects-bind _ _ collect-Collects λ _. start-Collects es)

  -- Whatever the lists return, the loop of the collector returns once its context ends, and has
  -- collected once for each tick before that: an error of one collection stops no later one.
  pub start_lem :
      (es : List Event) (tr : Trace)
      → ((start env (es) tr).0 ≡ returns tt)
        × (collections (start env es tr).1 ≡ ticks es + collections tr)
  start_lem es tr = (((start-Collects es).ends tr).1, (start-Collects es).count tr)
