-- ===== src/Task/Rounds.antt =====
-- One round of the loop of `Reconcile`: what it submits and how it ends, whatever the step does.
use kube_snapshot.Base.{
  ℕ, String, ◌≡◌, refl, sym, ◌∙◌, ap, true, false, Option, some, List, ◌==◌, eq_iff, eq_refl,
  get_elem?, arith, if◌then◌else◌,
}
use kube_snapshot.Api.{Condition, is_cond_true, cond_true, cond_false, SnapshotPodTask}
use kube_snapshot.World.{Env, Error, Result, ok, err, M, update_task_status}
use kube_snapshot.World.Logic.{
  Runs, Any, Runs-pure, Runs-ask, Runs-bind, Runs-bind_free, Runs-if, Runs-check, Runs-handle,
  runs_rules,
}
use kube_snapshot.Condition.{index_of}
use kube_snapshot.Condition.Done.{
  is_done, index_of-get_elem?, index_of-get_elem?-some, is_done-modify, ensure_condition-Located,
}
use kube_snapshot.Task.Loop.{
  Rec, RoundExit, goes_on, breaks, gives_up, with_conditions, modify_condition, update_status,
  fail_round, stamp, pass_round, round_at, run_rec, proceed,
}
use kube_snapshot.Task.Progress.{
  Writes, SameTask, SameTask-is_done, Echoes, done, Round, Round-SameTask,
}

-- How a round for the step `typ` of the task `t` ends
abbrev pub Ends : String → SnapshotPodTask → RoundExit → Type 0
Ends typ t (goes_on u) = Round typ t u × (done typ u ≡ true)
Ends typ t (breaks u e) = Round typ t u × (done typ u ≡ false)
Ends typ t (gives_up x) = Unit

-- The step submits no status of its own.
pub record IsQuiet (G : SnapshotPodTask → Type 0) (rec : Rec) : Type 1 where
  pub quiet :
      (R : SnapshotPodTask → Type 0) (t : SnapshotPodTask) → G t → Runs (Writes R) Any (rec.run t)

-- `cs` are the conditions of `t` with one for `typ`, which is `old` and stands at `i`.
record At (typ : String) (t : SnapshotPodTask) (cs : List Condition) (i : ℕ) (old : Condition)
    : Type 0 where
  found : index_of typ cs ≡ some i
  there : get_elem? cs i ≡ some old
  sees : (other : String) → is_done other cs ≡ done other t

At-Round_ensured :
    {typ : String} {t : SnapshotPodTask} {cs : List Condition}
    → ((other : String) → is_done other cs ≡ done other t)
    → Round typ t (with_conditions t cs)
At-Round_ensured sees = record {
  kept = record {
    same_meta = refl;
    same_spec = refl;
    same_phase = refl;
    same_retries = refl;
    keeps_done = λ other h. sees other ∙ h;
  };
  others = λ other h. sees other;
}

module _ {typ : String} {t : SnapshotPodTask} {cs : List Condition} {i : ℕ} {old : Condition}
    (a : At typ t cs i old) (f : Condition → Condition) (typed : (f old).typ ≡ typ) where
  done-write :
      (other : String)
      → done other (modify_condition i f (with_conditions t cs))
        ≡ (if typ == other then is_cond_true (f old).status else done other t)
  done-write other =
      is_done-modify typ other cs i f old a.found a.there typed
      ∙ ap (λ b. if typ == other then is_cond_true (f old).status else b) (a.sees other)

  done-write_self :
      done typ (modify_condition i f (with_conditions t cs)) ≡ is_cond_true (f old).status
  done-write_self = ground (arith, done-write typ, eq_refl typ)

  module _ (up : done typ t ≡ true → is_cond_true (f old).status ≡ true) where
    write_keeps :
        (other : String)
        → done other t ≡ true
        → done other (modify_condition i f (with_conditions t cs)) ≡ true
    write_keeps other h = ground (arith, done-write other, eq_iff typ other)

    write-Round : Round typ t (modify_condition i f (with_conditions t cs))
    write-Round = record {
      kept = record {
        same_meta = refl;
        same_spec = refl;
        same_phase = refl;
        same_retries = refl;
        keeps_done = write_keeps;
      };
      others = λ other h. ground (arith, done-write other);
    }

pub stamp-Runs :
    (env : Env) {R : SnapshotPodTask → Type 0} (old new : Condition)
    → Runs (Writes R) Any (stamp env old new)
unfolding stamp
stamp-Runs env old new = search (runs_rules, tt {0})

module _ {env : Env} (echo : Echoes env) {R : SnapshotPodTask → Type 0} where
  -- An update that goes through leaves the submitted task.
  pub update_Runs :
      (u : SnapshotPodTask)
      → R u
      → Runs
          (Writes R)
          (λ (r : Result SnapshotPodTask). (s : SnapshotPodTask) → r ≡ ok s → SameTask u s)
          (update_status env u)
  update_Runs u p = Runs-ask (update_task_status u) _ p (λ tr s e. echo.at tr u s e)

  module _ {typ : String} {t : SnapshotPodTask} {cs : List Condition} {i : ℕ} {old : Condition}
      (a : At typ t cs i old) (undone : done typ t ≡ false)
      (wants : (u : SnapshotPodTask) → Round typ t u → R u) where
    fail_round-Ends :
        (e : Error) → Runs (Writes R) (Ends typ t) (fail_round env i (with_conditions t cs) e)
    unfolding fail_round
    fail_round-Ends e =
        let failed = λ (c : Condition). record c { status = cond_false; message = e.text } in
        let typed = (index_of-get_elem? typ cs i old a.found a.there).0 in
        let wrote : Round typ t (modify_condition i failed (with_conditions t cs)) =
          write-Round a failed typed (λ h. cc (h, undone)) in
        Runs-bind _ _ (update_Runs _ (wants _ wrote)) λ r same.
          Runs-handle r _ _ (λ x. Runs-pure _ tt)
            λ u e. Runs-pure _ (
              Round-SameTask wrote (same u e),
              SameTask-is_done typ (same u e) ∙ done-write_self a failed typed,
            )

    pass_round-Ends : Runs (Writes R) (Ends typ t) (pass_round env i old (with_conditions t cs))
    unfolding pass_round
    pass_round-Ends =
        let typed = (index_of-get_elem? typ cs i old a.found a.there).0 in
        Runs-bind_free _ _ (stamp-Runs env old (record old { status = cond_true; message = "" }))
          λ time.
            let final = record old {
              status = cond_true;
              message = "";
              last_transition_time = time;
            } in
            let wrote : Round typ t (modify_condition i (λ c. final) (with_conditions t cs)) =
              write-Round a (λ c. final) typed (λ h. refl) in
            Runs-bind _ _ (update_Runs _ (wants _ wrote)) λ r same.
              Runs-handle r _ _ (λ x. Runs-pure _ tt)
                λ u e. Runs-pure _ (
                  Round-SameTask wrote (same u e),
                  SameTask-is_done typ (same u e) ∙ done-write_self a (λ c. final) typed,
                )

  -- Whatever the step does, its round submits a status that keeps what is done, and ends so.
  module _ {G : SnapshotPodTask → Type 0} (rec : Rec) (q : IsQuiet G rec) (t : SnapshotPodTask)
      (wants : (u : SnapshotPodTask) → Round rec.typ t u → R u) where
    round_at-Ends :
        (i : ℕ) (cs : List Condition) (old : Condition)
        → At rec.typ t cs i old
        → G (with_conditions t cs)
        → Runs (Writes R) (Ends rec.typ t) (round_at env rec i (with_conditions t cs) (some old))
    unfolding round_at
    round_at-Ends i cs old a g =
        let same = (index_of-get_elem? rec.typ cs i old a.found a.there).1 ∙ a.sees rec.typ in
        Runs-if _ _ _
          (λ is_true. Runs-pure _ (At-Round_ensured a.sees, a.sees rec.typ ∙ sym same ∙ is_true))
          λ is_false. Runs-bind_free _ _ (q.quiet R (with_conditions t cs) g) λ failure.
            Runs-check failure _ _ (fail_round-Ends a (sym same ∙ is_false) wants)
              (λ _. pass_round-Ends a (sym same ∙ is_false) wants)

    pub run_rec-Ends :
        ((cs : List Condition) → G (with_conditions t cs))
        → Runs (Writes R) (Ends rec.typ t) (run_rec env rec t)
    unfolding run_rec
    run_rec-Ends g =
        Runs-bind _ _ (ensure_condition-Located env rec.typ t.status.conditions tt)
          λ (i, cs) located.
            let (old, there) = index_of-get_elem?-some rec.typ cs i located.0 in
            rw there (
              round_at-Ends i cs old (record { found = located.0; there = there; sees = located.1 })
                (g cs))

-- the rest of the loop after a round that ended so
pub proceed-Round :
    {typ : String} {t : SnapshotPodTask} {R : SnapshotPodTask → Type 0}
    {L : Result (SnapshotPodTask × Option Error) → Type 0}
    (next : SnapshotPodTask → M (Result (SnapshotPodTask × Option Error)))
    → ((u : SnapshotPodTask) (e : Error) → Round typ t u → done typ u ≡ false → L (ok (u, some e)))
    → ((x : Error) → L (err x))
    → ((u : SnapshotPodTask) → Round typ t u → done typ u ≡ true → Runs (Writes R) L (next u))
    → (exit : RoundExit) → Ends typ t exit
    → Runs (Writes R) L (proceed exit next)
proceed-Round next keeps gives runs (goes_on u) (r, d) = runs u r d
proceed-Round next keeps gives runs (breaks u e) (r, d) = Runs-pure _ (keeps u e r d)
proceed-Round next keeps gives runs (gives_up x) ends = Runs-pure _ (gives x)
