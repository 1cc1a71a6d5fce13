-- ===== src/Task/Safe.antt =====
-- What the machine of a task keeps, and so what a server that holds the task sees.
use kube_snapshot.Base.{ℕ, ◌≤◌, ◌≡◌, true, false, ◌&&◌, arith}
use kube_snapshot.Api.{ObjectKey}
use kube_snapshot.World.{Trace, Env}
use kube_snapshot.Task.Steps.{TaskReconciler}
use kube_snapshot.Task.Server.{Server}
use kube_snapshot.Task.Live.{Ready, reconciles}
use kube_snapshot.Task.Machine.{
  completed, gave_up, View, Step, accept, commit, push, complete, retry, give_up, Reach, stay, go,
  view,
}
use kube_snapshot.Task.Refined.{reconciles_refine}

-- A task that is completed was accepted, committed and pushed, one that was given up has used its
-- retries and lacks a step, and no more retries are counted than there are.
pub record IsSafe (max : ℕ) (v : View) : Type 0 where
  pub pushed_committed : v.pushed ≡ true → v.committed ≡ true
  pub committed_accepted : v.committed ≡ true → v.accepted ≡ true
  pub completed_all : v.ending ≡ completed → (v.accepted && (v.committed && v.pushed)) ≡ true
  pub gave_up_spent :
      v.ending ≡ gave_up → (v.retries ≡ max) × ((v.accepted && (v.committed && v.pushed)) ≡ false)
  pub bounded : v.retries ≤ max

Step-IsSafe : {max : ℕ} {u v : View} → IsSafe max u → Step max u v → IsSafe max v
Step-IsSafe s (accept v a r) = record {
  pushed_committed = s.pushed_committed;
  committed_accepted = λ h. ground arith;
  completed_all = λ h. cc (h, r);
  gave_up_spent = λ h. cc (h, r);
  bounded = s.bounded;
}
Step-IsSafe s (commit v a c r) = record {
  pushed_committed = λ h. ground arith;
  committed_accepted = λ h. a;
  completed_all = λ h. cc (h, r);
  gave_up_spent = λ h. cc (h, r);
  bounded = s.bounded;
}
Step-IsSafe s (push v c p r) = record {
  pushed_committed = λ h. c;
  committed_accepted = s.committed_accepted;
  completed_all = λ h. cc (h, r);
  gave_up_spent = λ h. cc (h, r);
  bounded = s.bounded;
}
Step-IsSafe s (complete v all r) = record {
  pushed_committed = s.pushed_committed;
  committed_accepted = s.committed_accepted;
  completed_all = λ h. all;
  gave_up_spent = λ h. cc h;
  bounded = s.bounded;
}
Step-IsSafe s (retry v left r n) = record {
  pushed_committed = s.pushed_committed;
  committed_accepted = s.committed_accepted;
  completed_all = λ h. cc (h, r);
  gave_up_spent = λ h. cc (h, r);
  bounded = omega arith;
}
Step-IsSafe s (give_up v left r n) = record {
  pushed_committed = s.pushed_committed;
  committed_accepted = s.committed_accepted;
  completed_all = λ h. cc h;
  gave_up_spent = λ h. (n, left);
  bounded = omega arith;
}

Reach-IsSafe : {max : ℕ} {u v : View} → IsSafe max u → Reach max u v → IsSafe max v
Reach-IsSafe s stay = s
Reach-IsSafe s (go reached step) = Step-IsSafe (Reach-IsSafe s reached) step

module _ {env : Env} {key : ObjectKey} (sv : Server env key) (r : TaskReconciler) (max : ℕ)
    (small : max ≤ 2147483647) where
  -- Against a server that holds the task, accepts every update of its status and has no other
  -- client, for a task of this node that has not ended, with a container id of two parts,
  -- conditions that the loop makes, and `c` retries counted of a larger budget `max` in int32: if
  -- the stored task is safe, it is safe after any number of calls of `Reconcile`. Safe means that
  -- what is pushed is committed and what is committed accepted, that a COMPLETED task has all steps
  -- done, that a FAILED one has its budget counted and a step not done, and that no more retries
  -- are counted than the budget.
  pub reconciles-IsSafe :
      (n c : ℕ) (tr : Trace)
      → Ready r max c (sv.stored tr)
      → IsSafe max (view (sv.stored tr))
      → IsSafe max (view (sv.stored (reconciles env r key n tr).1))
  reconciles-IsSafe n c tr y s = Reach-IsSafe s (reconciles_refine sv r max small n c tr y).1
