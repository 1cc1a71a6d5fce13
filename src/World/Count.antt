-- ===== src/World/Count.antt =====
-- How many commands an action runs, at most.
use kube_snapshot.Base.{
  ℕ, ◌+◌, ◌≤◌, ◌≡◌, Bool, true, false, Option, none, some, [], ◌∷◌, arith, if◌then◌else◌,
}
use kube_snapshot.World.{
  Call, Trace, Error, Result, ok, err, Exit, returns, panics, M, ask, continue, ◌>>=◌, handle,
  check, exec,
}
use kube_snapshot.World.Logic.{Grows, same, more}
use kube_snapshot.World.Calls.{Makes}
use kube_snapshot.World.State.{Holds, After}

abbrev pub weight : Call → ℕ
weight (exec ctx command argv) = 1
weight _ = 0

-- the number of commands that were run
abbrev pub executed : Trace → ℕ
executed [] = 0
executed (c ∷ tr) = weight c + executed tr

pub record AtMost {A : Type 0} (n : ℕ) (m : M A) : Type 0 where
  pub at : (tr : Trace) → executed (m tr).1 ≤ n + executed tr

-- no command
abbrev pub IsFree : Call → Type 0
IsFree c = weight c ≡ 0

Grows-free : {tr tr' : Trace} → Grows IsFree tr tr' → executed tr' ≤ executed tr
Grows-free same = omega arith
Grows-free (more c p g) = let rest = Grows-free g in omega arith

module _ {A : Type 0} where
  pub AtMost-Makes : {m : M A} → Makes IsFree m → AtMost 0 m
  AtMost-Makes k = record { at = λ tr. let g = Grows-free (k.calls tr) in omega arith }

  pub AtMost-ask : (c : Call) (answer : Trace → A) → AtMost (weight c) (ask c answer)
  unfolding ask
  AtMost-ask c answer = record { at = λ tr. omega arith }

  pub AtMost-weaken : {i j : ℕ} {m : M A} → i ≤ j → AtMost i m → AtMost j m
  AtMost-weaken h k = record { at = λ tr. let g = k.at tr in omega arith }

module _ {A B : Type 0} {i j : ℕ} where
  pub AtMost-bind :
      (m : M A) (f : A → M B) → AtMost i m → ((a : A) → AtMost j (f a)) → AtMost (i + j) (m >>= f)
  unfolding ◌>>=◌
  AtMost-bind m f km kf = record { at = λ tr. go (executed tr) (m tr).0 (m tr).1 (km.at tr) }
    where
      go :
          (e : ℕ) (r : Exit A) (tr : Trace)
          → executed tr ≤ i + e
          → executed (continue r f tr).1 ≤ i + j + e
      go e (returns a) tr h = let g = (kf a).at tr in omega arith
      go e panics tr h = omega arith

module _ {B : Type 0} {i : ℕ} where
  pub AtMost-if : (b : Bool) (m n : M B) → AtMost i m → AtMost i n → AtMost i (if b then m else n)
  AtMost-if true m n km kn = km
  AtMost-if false m n km kn = kn

  pub AtMost-handle :
      {A : Type 0} (r : Result A) (bad : Error → M B) (good : A → M B)
      → ((e : Error) → AtMost i (bad e))
      → ((a : A) → AtMost i (good a))
      → AtMost i (handle r bad good)
  AtMost-handle (ok a) bad good kb kg = kg a
  AtMost-handle (err e) bad good kb kg = kb e

  pub AtMost-check :
      (e : Option Error) (bad : Error → M B) (good : M B)
      → ((x : Error) → AtMost i (bad x))
      → AtMost i good
      → AtMost i (check e bad good)
  AtMost-check none bad good kb kg = kg
  AtMost-check (some x) bad good kb kg = kb x

-- a claim on the trace, with the count
pub Holds-AtMost :
    {A : Type 0} {P : Trace → Type 0} {Q : A → Trace → Type 0} {m : M A} {n : ℕ}
    → Holds P m Q
    → AtMost n m
    → (b : ℕ) → Holds (λ tr. P tr × (executed tr ≤ b)) m (λ a tr. Q a tr × (executed tr ≤ n + b))
Holds-AtMost {Q} {m} {n} k l b = record {
  at = λ tr (p, h). go (m tr).0 (m tr).1 (k.at tr p) (let g = l.at tr in omega arith);
}
  where
    go :
        (r : Exit _) (tr : Trace)
        → After Q r tr
        → executed tr ≤ n + b
        → After (λ a tr. Q a tr × (executed tr ≤ n + b)) r tr
    go (returns a) tr q h = (q, h)
    go panics tr q h = absurd q
