-- ===== src/Pod/Stalled.antt =====
-- internal/controller/snapshotpod_controller.go: `Reconcile` of a SnapshotPod whose round is open and
-- whose target pod is not found.
use kube_snapshot.Base.{map, ℕ, zero, suc, ◌≡◌, refl, sym, ◌∙◌, ap, Bool, false, Option, some, List}
use mathlib.Core.Path.{subst}
use kube_snapshot.Base.Int.{ℤ, ◌==ℤ◌}
use kube_snapshot.Api.{Condition, SnapshotPod, SnapshotPodSpec, PodObject, ObjectKey}
use kube_snapshot.World.{Env, Trace, Error, Result, err, returns, pure}
use kube_snapshot.World.Logic.{Runs, Returns, Runs-pure, Runs-bind, Runs-map}
use kube_snapshot.World.State.{Holds, Holds-bind, Holds-weaken, After-returns}
use kube_snapshot.Condition.Done.{index_of-get_elem?-some, ensure_condition-Located}
use kube_snapshot.Pod.Target.{pod_by_selector, get_target_pod, validate}
use kube_snapshot.Pod.Reconcile.{with_conditions, round_at, run_rec, run_recs, recs, reconcile}
use kube_snapshot.Pod.Sound.{Reads, clock}
use kube_snapshot.Pod.Appends.{Creates, reads}
use kube_snapshot.Pod.Containers.{get_target_pod-Runs}
use kube_snapshot.Pod.Machine.{View}
use kube_snapshot.Pod.Closing.{is_closed}
use kube_snapshot.Pod.Server.{untimed_snapshot, SameObject, Server}
use kube_snapshot.Pod.Refined.{reconciles, reconcile-stored}

-- The target is not found whenever it is looked up.
abbrev pub LacksTarget : Env → SnapshotPod → Type 0
LacksTarget env sp = (tr : Trace) → (e : Error) × ((get_target_pod env sp tr).0 ≡ returns (err e))

-- the same object, with the same snapshots and the same round that was closed last, but for its
-- conditions and the times of its snapshots
pub record Stalled (sp u : SnapshotPod) : Type 0 where
  pub same_meta : u.meta ≡ sp.meta
  pub same_spec : u.spec ≡ sp.spec
  pub same_last : u.status.last_trigger_round ≡ sp.status.last_trigger_round
  pub same_snapshots :
      map untimed_snapshot u.status.snapshots ≡ map untimed_snapshot sp.status.snapshots

Stalled-refl : (sp : SnapshotPod) → Stalled sp sp
Stalled-refl sp = record {
  same_meta = refl;
  same_spec = refl;
  same_last = refl;
  same_snapshots = refl;
}

Stalled-trans : {a b c : SnapshotPod} → Stalled a b → Stalled b c → Stalled a c
Stalled-trans k l = record {
  same_meta = l.same_meta ∙ k.same_meta;
  same_spec = l.same_spec ∙ k.same_spec;
  same_last = l.same_last ∙ k.same_last;
  same_snapshots = l.same_snapshots ∙ k.same_snapshots;
}

Stalled-SameObject : (sp u v : SnapshotPod) → SameObject u v → Stalled sp u → Stalled sp v
Stalled-SameObject sp u v s k = record {
  same_meta = s.same_meta ∙ k.same_meta;
  same_spec = s.same_spec ∙ k.same_spec;
  same_last = ap (λ (v : View). v.last) s.same_view ∙ k.same_last;
  same_snapshots = s.same_snapshots ∙ k.same_snapshots;
}

module _ (env : Env) (sp : SnapshotPod) (open_round : is_closed sp ≡ false)
    (missing : LacksTarget env sp) where
  get_target_pod-err :
      (cs : List Condition)
      → Runs Reads
          (λ (got : Result PodObject). (e : Error) × (got ≡ err e))
          (get_target_pod env (with_conditions sp cs))
  unfolding get_target_pod pod_by_selector
  get_target_pod-err cs = record {
    calls = (get_target_pod-Runs env (with_conditions sp cs)).calls;
    result = λ tr.
        let (e, is) = missing tr in
        subst (Returns (λ (got : Result PodObject). (e : Error) × (got ≡ err e))) (sym is)
          (e, refl);
  }

  validate-err :
      (cs : List Condition)
      → Runs Reads
          (λ (x : SnapshotPod × Option Error). Stalled sp x.0 × (e : Error) × (x.1 ≡ some e))
          (validate env (with_conditions sp cs))
  unfolding validate
  validate-err cs = rw open_round (
      Runs-bind _ _ (get_target_pod-err cs) λ got (e, is). rw is (
        Runs-pure _ (
          record { same_meta = refl; same_spec = refl; same_last = refl; same_snapshots = refl },
          e,
          refl,
        )))

  round_at-stops :
      (i : ℕ) (cs : List Condition) (old : Condition)
      → Runs Creates
          (λ (x : SnapshotPod × Bool). Stalled sp x.0 × (x.1 ≡ false))
          (round_at env
            (record { typ = "Accept"; run = validate env })
            i
            (with_conditions sp cs)
            (some old))
  unfolding round_at
  round_at-stops i cs old =
      Runs-bind _ _ (Runs-map (λ c. reads) (validate-err cs)) λ (u, failure) (k, e, is). rw is (
        Runs-pure _ (
          record {
            same_meta = k.same_meta;
            same_spec = k.same_spec;
            same_last = k.same_last;
            same_snapshots = k.same_snapshots;
          },
          refl,
        ))

  run_rec-stops :
      Runs Creates
        (λ (x : SnapshotPod × Bool). Stalled sp x.0 × (x.1 ≡ false))
        (run_rec env (record { typ = "Accept"; run = validate env }) sp)
  unfolding run_rec
  run_rec-stops =
      Runs-bind _ _ (ensure_condition-Located env "Accept" sp.status.conditions (reads clock))
        λ (i, cs) located.
          let (old, there) = index_of-get_elem?-some "Accept" cs i located.0 in
          rw there (round_at-stops i cs old)

  run_recs-stops : Runs Creates (Stalled sp) (run_recs env (recs env) sp)
  unfolding run_recs
  run_recs-stops = Runs-bind _ _ run_rec-stops λ (u, goes_on) (k, stops). rw stops (Runs-pure u k)

-- the target is looked up by the metadata and the spec alone
LacksTarget-Stalled :
    (env : Env) (sp u : SnapshotPod) → Stalled sp u → LacksTarget env sp → LacksTarget env u
unfolding get_target_pod pod_by_selector
LacksTarget-Stalled env sp u k missing = rw (k.same_meta, k.same_spec) missing

is_closed-Stalled : (sp u : SnapshotPod) → Stalled sp u → is_closed u ≡ is_closed sp
is_closed-Stalled sp u k =
    ap (λ (s : SnapshotPodSpec). u.status.last_trigger_round ==ℤ s.trigger_round) k.same_spec
    ∙ ap (λ (n : ℤ). n ==ℤ sp.spec.trigger_round) k.same_last

module _ {env : Env} {key : ObjectKey} (sv : Server env key) where
  reconcile-Stalled :
      (sp : SnapshotPod)
      → is_closed sp ≡ false
      → LacksTarget env sp
      → Holds (λ tr. sv.stored tr ≡ sp) (reconcile env key) (λ a tr. Stalled sp (sv.stored tr))
  reconcile-Stalled sp open_round missing =
      reconcile-stored env (Stalled sp) sv (Stalled-SameObject sp) sp (Stalled-refl sp)
        (run_recs-stops env sp open_round missing)

  reconciles-Stalled :
      (n : ℕ) (sp : SnapshotPod)
      → is_closed sp ≡ false
      → LacksTarget env sp
      → Holds (λ tr. sv.stored tr ≡ sp) (reconciles env key n) (λ a tr. Stalled sp (sv.stored tr))
  unfolding reconciles pure
  reconciles-Stalled zero sp open_round missing = record {
    at = λ tr e. subst (Stalled sp) (sym e) (Stalled-refl sp);
  }
  reconciles-Stalled (suc n) sp open_round missing =
      Holds-bind _ _ (reconcile-Stalled sp open_round missing) λ a. record {
        at = λ tr k.
            (Holds-weaken (λ tr e. e) (λ a tr later. Stalled-trans k later)
                (reconciles-Stalled n (sv.stored tr)
                  (is_closed-Stalled sp (sv.stored tr) k ∙ open_round)
                  (LacksTarget-Stalled env sp (sv.stored tr) k missing))).at
              tr refl;
      }

  -- Against a server that holds the SnapshotPod, accepts every update of its status and has no other
  -- client: while the round of the stored object is open and its target is not found, any number of
  -- calls of `Reconcile` returns and leaves the object as it is, each snapshot with its result and its
  -- reason included, but for the conditions and the times of its snapshots: nothing is listed, no
  -- snapshot ends, whatever becomes of the tasks, and the round stays open.
  pub reconciles_stall :
      (n : ℕ) (tr : Trace)
      → is_closed (sv.stored tr) ≡ false
      → LacksTarget env (sv.stored tr)
      → ((reconciles env key n tr).0 ≡ returns tt)
        × Stalled (sv.stored tr) (sv.stored (reconciles env key n tr).1)
  reconciles_stall n tr open_round missing =
      After-returns (λ t. Stalled (sv.stored tr) (sv.stored t)) _ _
        ((reconciles-Stalled n (sv.stored tr) open_round missing).at tr refl)
