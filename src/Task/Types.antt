-- ===== src/Task/Types.antt =====
-- The types of a task's conditions, which the loop of `Reconcile` adds in the order of the steps.
use kube_snapshot.Base.{
  String, ◌≡◌, refl, sym, ◌∙◌, ap, true, List, [], ◌∷◌, ◌⊎◌, inl, inr, every_by,
}
use kube_snapshot.Api.{Condition, is_cond_true, SnapshotPodTask}
use kube_snapshot.Condition.Done.{is_done}
use kube_snapshot.Condition.Types.{types, add_type, types-untimed}
use kube_snapshot.Task.Progress.{SameTask}

pub SameTask-types :
    {t u : SnapshotPodTask} → SameTask t u → types u.status.conditions ≡ types t.status.conditions
SameTask-types {t} {u} s =
    sym (types-untimed u.status.conditions)
    ∙ ap types s.same_conditions
    ∙ types-untimed t.status.conditions

-- The types of the conditions after some of the steps, in their order
abbrev pub AllSteps : List String → Type 0
AllSteps ts = ts ≡ "Accept" ∷ "Commit" ∷ "Push" ∷ []

abbrev pub FromCommit : List String → Type 0
FromCommit ts = (ts ≡ "Accept" ∷ "Commit" ∷ []) ⊎ AllSteps ts

abbrev pub FromAccept : List String → Type 0
FromAccept ts = (ts ≡ "Accept" ∷ []) ⊎ FromCommit ts

abbrev pub InSteps : List String → Type 0
InSteps ts = (ts ≡ []) ⊎ FromAccept ts

pub add_type-FromAccept : (ts : List String) → InSteps ts → FromAccept (add_type "Accept" ts)
unfolding add_type
add_type-FromAccept ts (inl e) = inl (rw e refl)
add_type-FromAccept ts (inr (inl e)) = inl (rw e refl)
add_type-FromAccept ts (inr (inr (inl e))) = inr (inl (rw e refl))
add_type-FromAccept ts (inr (inr (inr e))) = inr (inr (rw e refl))

pub add_type-FromCommit : (ts : List String) → FromAccept ts → FromCommit (add_type "Commit" ts)
unfolding add_type
add_type-FromCommit ts (inl e) = inl (rw e refl)
add_type-FromCommit ts (inr (inl e)) = inl (rw e refl)
add_type-FromCommit ts (inr (inr e)) = inr (rw e refl)

pub add_type-AllSteps : (ts : List String) → FromCommit ts → AllSteps (add_type "Push" ts)
unfolding add_type
add_type-AllSteps ts (inl e) = rw e refl
add_type-AllSteps ts (inr e) = rw e refl

-- Where all steps have a condition and are done, every condition is true.
pub every_by-AllSteps :
    (cs : List Condition)
    → AllSteps (types cs)
    → is_done "Accept" cs ≡ true
    → is_done "Commit" cs ≡ true
    → is_done "Push" cs ≡ true
    → every_by (λ (c : Condition). is_cond_true c.status) cs ≡ true
unfolding is_done
every_by-AllSteps [] e a c p = cc
every_by-AllSteps (c1 ∷ []) e a c p = cc
every_by-AllSteps (c1 ∷ c2 ∷ []) e a c p = cc
every_by-AllSteps (c1 ∷ c2 ∷ c3 ∷ []) e a c p =
    let e1 : c1.typ ≡ "Accept" = cc e in
    let e2 : c2.typ ≡ "Commit" = cc e in
    let e3 : c3.typ ≡ "Push" = cc e in
    let s1 : is_cond_true c1.status ≡ true = rw e1 at a in
    let s2 : is_cond_true c2.status ≡ true = rw (e1, e2) at c in
    let s3 : is_cond_true c3.status ≡ true = rw (e1, e2, e3) at p in rw (s1, s2, s3) refl
every_by-AllSteps (c1 ∷ c2 ∷ c3 ∷ c4 ∷ cs) e a c p = cc
