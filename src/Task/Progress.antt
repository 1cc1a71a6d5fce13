-- ===== src/Task/Progress.antt =====
-- What a status update may change of a task: the relations that the loop of `Reconcile` keeps.
use kube_snapshot.Base.{
  String, ◌≡◌, refl, sym, ◌∙◌, ap, Bool, true, false, List, [], ◌∷◌, map, ◌==◌, arith, every_by,
  ◌⊎◌, inl,
}
use kube_snapshot.Base.Int.{◌≤?◌, inc32}
use kube_snapshot.Api.{Condition, is_cond_true, SnapshotPodTask, phase_completed, phase_failed}
use kube_snapshot.World.{Call, Trace, Env, ok, update_task_status}
use kube_snapshot.Condition.Done.{is_done, untimed}
use kube_snapshot.Task.Reconcile.{effective_max_retries, is_terminal}

-- `R` holds of every status that a call submits
abbrev pub Writes : (SnapshotPodTask → Type 0) → Call → Type 0
Writes R (update_task_status u) = R u
Writes R _ = Unit

-- The same task, but for the precision of the times
pub record SameTask (t u : SnapshotPodTask) : Type 0 where
  pub same_meta : u.meta ≡ t.meta
  pub same_spec : u.spec ≡ t.spec
  pub same_phase : u.status.phase ≡ t.status.phase
  pub same_retries : u.status.retry_count ≡ t.status.retry_count
  pub same_conditions : map untimed u.status.conditions ≡ map untimed t.status.conditions

-- The API server's answer to a status update that it accepts: the object with the status that was
-- submitted, whose times it may round.
pub record Echoes (env : Env) : Type 0 where
  pub at : (tr : Trace) (t u : SnapshotPodTask) → env.task_status_updated tr t ≡ ok u → SameTask t u

is_done-untimed :
    (typ : String) (cs : List Condition) → is_done typ (map untimed cs) ≡ is_done typ cs
unfolding is_done
is_done-untimed typ [] = refl
is_done-untimed typ (c ∷ cs) = ground (arith, is_done-untimed typ cs)

pub SameTask-is_done :
    {t u : SnapshotPodTask} (typ : String)
    → SameTask t u
    → is_done typ u.status.conditions ≡ is_done typ t.status.conditions
SameTask-is_done {t} {u} typ s =
    sym (is_done-untimed typ u.status.conditions)
    ∙ ap (is_done typ) s.same_conditions
    ∙ is_done-untimed typ t.status.conditions

abbrev pub done : String → SnapshotPodTask → Bool
done typ t = is_done typ t.status.conditions

-- No step that was done is undone, and the loop changes nothing but conditions.
pub record Kept (t u : SnapshotPodTask) : Type 0 where
  pub same_meta : u.meta ≡ t.meta
  pub same_spec : u.spec ≡ t.spec
  pub same_phase : u.status.phase ≡ t.status.phase
  pub same_retries : u.status.retry_count ≡ t.status.retry_count
  pub keeps_done : (typ : String) → done typ t ≡ true → done typ u ≡ true

-- A round for the step `typ` decides that step alone.
pub record Round (typ : String) (t u : SnapshotPodTask) : Type 0 where
  pub kept : Kept t u
  pub others : (other : String) → (typ == other) ≡ false → done other u ≡ done other t

pub Kept-refl : (t : SnapshotPodTask) → Kept t t
Kept-refl t = record {
  same_meta = refl;
  same_spec = refl;
  same_phase = refl;
  same_retries = refl;
  keeps_done = λ typ h. h;
}

pub Kept-trans : {t u v : SnapshotPodTask} → Kept t u → Kept u v → Kept t v
Kept-trans a b = record {
  same_meta = b.same_meta ∙ a.same_meta;
  same_spec = b.same_spec ∙ a.same_spec;
  same_phase = b.same_phase ∙ a.same_phase;
  same_retries = b.same_retries ∙ a.same_retries;
  keeps_done = λ typ h. b.keeps_done typ (a.keeps_done typ h);
}

pub Round-SameTask :
    {typ : String} {t u v : SnapshotPodTask} → Round typ t u → SameTask u v → Round typ t v
Round-SameTask a s = record {
  kept = record {
    same_meta = s.same_meta ∙ a.kept.same_meta;
    same_spec = s.same_spec ∙ a.kept.same_spec;
    same_phase = s.same_phase ∙ a.kept.same_phase;
    same_retries = s.same_retries ∙ a.kept.same_retries;
    keeps_done = λ typ h. SameTask-is_done typ s ∙ a.kept.keeps_done typ h;
  };
  others = λ other h. SameTask-is_done other s ∙ a.others other h;
}

-- Every status that `Reconcile` submits for the task `t` satisfies this: what was done stays done,
-- COMPLETED means that every condition is true, FAILED that the retries are used up, and a retry
-- counts by one.
pub record Advances (t u : SnapshotPodTask) : Type 0 where
  pub same_meta : u.meta ≡ t.meta
  pub same_spec : u.spec ≡ t.spec
  pub keeps_done : (typ : String) → done typ t ≡ true → done typ u ≡ true
  pub completed_done :
      u.status.phase ≡ phase_completed
      → every_by (λ (c : Condition). is_cond_true c.status) u.status.conditions ≡ true
  pub failed_exhausted :
      u.status.phase ≡ phase_failed
      → (effective_max_retries u.spec.max_retries ≤? u.status.retry_count) ≡ true
  pub retries :
      (u.status.retry_count ≡ t.status.retry_count)
      ⊎ (u.status.retry_count ≡ inc32 t.status.retry_count)

pub Kept-Advances :
    {t u : SnapshotPodTask} → is_terminal t.status.phase ≡ false → Kept t u → Advances t u
Kept-Advances live k = record {
  same_meta = k.same_meta;
  same_spec = k.same_spec;
  keeps_done = k.keeps_done;
  completed_done = λ h. absurd (ground (arith, k.same_phase));
  failed_exhausted = λ h. absurd (ground (arith, k.same_phase));
  retries = inl k.same_retries;
}

every_by-untimed :
    (cs : List Condition)
    → every_by (λ (c : Condition). is_cond_true c.status) (map untimed cs)
      ≡ every_by (λ (c : Condition). is_cond_true c.status) cs
every_by-untimed [] = refl
every_by-untimed (c ∷ cs) = ground (arith, every_by-untimed cs)

SameTask-every_by :
    {t u : SnapshotPodTask}
    → SameTask t u
    → every_by (λ (c : Condition). is_cond_true c.status) u.status.conditions
      ≡ every_by (λ (c : Condition). is_cond_true c.status) t.status.conditions
SameTask-every_by {t} {u} s =
    sym (every_by-untimed u.status.conditions)
    ∙ ap (every_by (λ (c : Condition). is_cond_true c.status)) s.same_conditions
    ∙ every_by-untimed t.status.conditions

-- The server's answer to a submitted status satisfies it too.
pub Advances-SameTask : {t u v : SnapshotPodTask} → Advances t u → SameTask u v → Advances t v
Advances-SameTask a s = record {
  same_meta = s.same_meta ∙ a.same_meta;
  same_spec = s.same_spec ∙ a.same_spec;
  keeps_done = λ typ h. SameTask-is_done typ s ∙ a.keeps_done typ h;
  completed_done = λ h. SameTask-every_by s ∙ a.completed_done (sym s.same_phase ∙ h);
  failed_exhausted =
      λ h. rw (s.same_spec, s.same_retries) (a.failed_exhausted (sym s.same_phase ∙ h));
  retries = rw s.same_retries a.retries;
}
