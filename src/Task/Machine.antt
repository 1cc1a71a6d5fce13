-- ===== src/Task/Machine.antt =====
-- What a task promises, without its conditions: a machine over the steps that are done, how the
-- task has ended, and its retries.
use kube_snapshot.Base.{ℕ, suc, ◌<◌, ◌≡◌, refl, sym, Bool, true, false, ◌&&◌}
use mathlib.Core.Bool.{true≢false}
use kube_snapshot.Base.Int.{ℤ, pos, negsuc}
use kube_snapshot.Api.{
  SnapshotPodTask, SnapshotPodTaskPhase, phase_created, phase_failed, phase_completed, phase_other,
}
use kube_snapshot.Task.Progress.{SameTask, SameTask-is_done, done, Round}

pub data Ending : Type 0 where
  running completed gave_up : Ending

pub record View : Type 0 where
  pub accepted : Bool
  pub committed : Bool
  pub pushed : Bool
  pub ending : Ending
  pub retries : ℕ

-- A step at a time, in their order, while the task runs; a retry only while a step is left, and no
-- more of them than `max`.
pub data Step (max : ℕ) : View → View → Type 0 where
  accept :
      (v : View)
      → v.accepted ≡ false
      → v.ending ≡ running
      → Step max v (record v { accepted = true })
  commit :
      (v : View)
      → v.accepted ≡ true
      → v.committed ≡ false
      → v.ending ≡ running
      → Step max v (record v { committed = true })
  push :
      (v : View)
      → v.committed ≡ true
      → v.pushed ≡ false
      → v.ending ≡ running
      → Step max v (record v { pushed = true })
  complete :
      (v : View)
      → (v.accepted && (v.committed && v.pushed)) ≡ true
      → v.ending ≡ running
      → Step max v (record v { ending = completed })
  retry :
      (v : View)
      → (v.accepted && (v.committed && v.pushed)) ≡ false
      → v.ending ≡ running
      → suc v.retries < max
      → Step max v (record v { retries = suc v.retries })
  give_up :
      (v : View)
      → (v.accepted && (v.committed && v.pushed)) ≡ false
      → v.ending ≡ running
      → suc v.retries ≡ max
      → Step max v (record v { retries = suc v.retries; ending = gave_up })

-- the views that some steps lead to
pub data Reach (max : ℕ) (v : View) : View → Type 0 where
  stay : Reach max v v
  go : {u w : View} → Reach max v u → Step max u w → Reach max v w

pub Reach-trans : {max : ℕ} {u v w : View} → Reach max u v → Reach max v w → Reach max u w
Reach-trans a stay = a
Reach-trans a (go b s) = go (Reach-trans a b) s

abbrev pub ending_of : SnapshotPodTaskPhase → Ending
ending_of phase_completed = completed
ending_of phase_failed = gave_up
ending_of phase_created = running
ending_of (phase_other s) = running

abbrev pub retries_of : ℤ → ℕ
retries_of (pos n) = n
retries_of (negsuc n) = 0

-- what the machine sees of a task
abbrev pub view : SnapshotPodTask → View
view t = record {
  accepted = done "Accept" t;
  committed = done "Commit" t;
  pushed = done "Push" t;
  ending = ending_of t.status.phase;
  retries = retries_of t.status.retry_count;
}

pub SameTask-view : {t u : SnapshotPodTask} → SameTask t u → view u ≡ view t
SameTask-view s =
    rw
      (
        SameTask-is_done "Accept" s,
        SameTask-is_done "Commit" s,
        SameTask-is_done "Push" s,
        s.same_phase,
        s.same_retries,
      )
      refl

-- A flag that is never taken back is reached by one step at most.
flag-Reach :
    {max : ℕ} (f : Bool → View) (b c : Bool)
    → (b ≡ false → Step max (f false) (f true))
    → (b ≡ true → c ≡ true)
    → Reach max (f b) (f c)
flag-Reach f true true step keeps = stay
flag-Reach f true false step keeps = absurd (true≢false (sym (keeps refl)))
flag-Reach f false true step keeps = go stay (step refl)
flag-Reach f false false step keeps = stay

module _ {max : ℕ} {t u : SnapshotPodTask} where
  module _ (running_t : ending_of t.status.phase ≡ running) where
    -- the rounds of the three steps
    pub accept-Reach : Round "Accept" t u → Reach max (view t) (view u)
    accept-Reach r =
        rw (r.others "Commit" refl, r.others "Push" refl, r.kept.same_phase, r.kept.same_retries)
          (flag-Reach (λ b. record (view t) { accepted = b }) (done "Accept" t) (done "Accept" u)
            (λ _. accept (record (view t) { accepted = false }) refl running_t)
            (r.kept.keeps_done "Accept"))

    pub commit-Reach : done "Accept" t ≡ true → Round "Commit" t u → Reach max (view t) (view u)
    commit-Reach a r =
        rw (r.others "Accept" refl, r.others "Push" refl, r.kept.same_phase, r.kept.same_retries)
          (flag-Reach (λ b. record (view t) { committed = b }) (done "Commit" t) (done "Commit" u)
            (λ _. commit (record (view t) { committed = false }) a refl running_t)
            (r.kept.keeps_done "Commit"))

    pub push-Reach : done "Commit" t ≡ true → Round "Push" t u → Reach max (view t) (view u)
    push-Reach c r =
        rw (r.others "Accept" refl, r.others "Commit" refl, r.kept.same_phase, r.kept.same_retries)
          (flag-Reach (λ b. record (view t) { pushed = b }) (done "Push" t) (done "Push" u)
            (λ _. push (record (view t) { pushed = false }) c refl running_t)
            (r.kept.keeps_done "Push"))
