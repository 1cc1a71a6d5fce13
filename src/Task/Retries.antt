-- ===== src/Task/Retries.antt =====
-- internal/controller/snapshotpodtask_controller.go: the retries of a task run out.
use kube_snapshot.Base.{
  ℕ, zero, suc, ◌+◌, ◌≤◌, ◌<◌, String, ◌≡◌, refl, sym, ◌∙◌, ap, true, false, arith, if◌then◌else◌,
}
use mathlib.Core.Bool.{true≢false}
use kube_snapshot.Base.Int.{pos, inc32, inc32-pos, ◌≤?◌}
use kube_snapshot.Api.{SnapshotPodTask, phase_failed}
use kube_snapshot.World.{Call, Env, M, now, pure, ◌>>=◌}
use kube_snapshot.World.Logic.{
  Runs, Runs-pure, Runs-ask, Runs-tell, Runs-if, Runs-bind, Runs-bind_free,
}
use kube_snapshot.Metrics.{record_snapshot_task_retry, record_task_failed}
use kube_snapshot.Task.Reconcile.{effective_max_retries, is_terminal, count_retry}

-- As many retries as `n`, until the task has ended.
unfoldable pub retry : Env → String → ℕ → SnapshotPodTask → M SnapshotPodTask
retry env snapshot zero t = pure t
retry env snapshot (suc n) t = do
  u ← count_retry env t snapshot
  if is_terminal u.status.phase then pure u else retry env snapshot n u

abbrev pub Free : Call → Type 0
Free c = Unit

-- Where the budget `max` is used up.
pub record IsSpent (max : ℕ) (u : SnapshotPodTask) : Type 0 where
  pub failing : u.status.phase ≡ phase_failed
  pub all_counted : u.status.retry_count ≡ pos max

-- the retry that follows `c` retries, of `max` that are allowed
pub record Retried (max c : ℕ) (u : SnapshotPodTask) : Type 0 where
  pub counted : u.status.retry_count ≡ pos (suc c)
  pub same_max : effective_max_retries u.spec.max_retries ≡ pos max
  pub ended : is_terminal u.status.phase ≡ true → IsSpent max u
  pub left : is_terminal u.status.phase ≡ false → suc c < max

module _ (env : Env) (snapshot : String) (max : ℕ) (small : max ≤ 2147483647) where
  reached : (c : ℕ) → c < max → (pos max ≤? pos (suc c)) ≡ true → suc c ≡ max
  reached c within h = ground arith

  not_reached : (c : ℕ) → (pos max ≤? pos (suc c)) ≡ false → suc c < max
  not_reached c h = ground arith

  pub count_retry-Retried :
      (t : SnapshotPodTask) (c : ℕ)
      → effective_max_retries t.spec.max_retries ≡ pos max
      → t.status.retry_count ≡ pos c
      → c < max
      → is_terminal t.status.phase ≡ false
      → Runs Free (Retried max c) (count_retry env t snapshot)
  unfolding count_retry record_snapshot_task_retry record_task_failed
  count_retry-Retried t c at count within live =
      let e : inc32 t.status.retry_count ≡ pos (suc c) =
        ap inc32 count ∙ inc32-pos c (omega arith) in
      let test = ap (λ x. x ≤? inc32 t.status.retry_count) at ∙ ap (λ y. pos max ≤? y) e in
      Runs-bind_free _ _ (Runs-ask now env.clock tt (λ tr. tt)) λ time.
        Runs-bind_free _ _ (Runs-tell _ tt tt) λ _.
          Runs-if _ _ _
            (λ spent. Runs-bind_free _ _ (Runs-tell _ tt tt) λ _. Runs-pure _ (record {
              counted = e;
              same_max = at;
              ended = λ h. record {
                failing = refl;
                all_counted = e ∙ ap pos (reached c within (sym test ∙ spent));
              };
              left = λ h. cc h;
            }))
            (λ over. Runs-pure _ (record {
              counted = e;
              same_max = at;
              ended = λ h. absurd (true≢false (sym h ∙ live));
              left = λ h. not_reached c (sym test ∙ over);
            }))

  -- Retried again and again, a task that has not ended, and whose count is below its budget of
  -- retries, is failed once the count has reached the budget, which takes at most as many retries as
  -- are left.
  pub retry-IsSpent :
      (n c : ℕ) (t : SnapshotPodTask)
      → effective_max_retries t.spec.max_retries ≡ pos max
      → t.status.retry_count ≡ pos c
      → c < max
      → max ≤ c + n
      → is_terminal t.status.phase ≡ false
      → Runs Free (IsSpent max) (retry env snapshot n t)
  unfolding retry
  retry-IsSpent zero c t at count within enough live = absurd (omega arith)
  retry-IsSpent (suc n) c t at count within enough live =
      Runs-bind _ _ (count_retry-Retried t c at count within live) λ u r.
        Runs-if (is_terminal u.status.phase) _ _ (λ ended. Runs-pure u (r.ended ended))
          λ more. retry-IsSpent n (suc c) u r.same_max r.counted (r.left more) (omega arith) more
