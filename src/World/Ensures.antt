-- ===== src/World/Ensures.antt =====
-- A program logic for what holds where an action returns; it may panic.
use kube_snapshot.Base.{Bool, true, false, Option, none, some, ◌≡◌, refl, ◌∷◌, if◌then◌else◌}
use kube_snapshot.World.{
  Call, Trace, Error, Result, ok, err, Exit, returns, panics, M, pure, panic, ask, tell, continue,
  ◌>>=◌, handle, check,
}
use kube_snapshot.World.Logic.{Grows, same, more}
use kube_snapshot.World.Calls.{Makes}
use kube_snapshot.World.State.{Holds, After}

abbrev pub Post : {A : Type 0} → (A → Trace → Type 0) → Exit A → Trace → Type 0
Post Q (returns a) tr = Q a tr
Post Q panics tr = Unit

-- From a trace with `P`, wherever `m` returns its value and trace satisfy `Q`.
pub record Ensures {A : Type 0} (P : Trace → Type 0) (m : M A) (Q : A → Trace → Type 0)
    : Type 0 where
  pub at : (tr : Trace) → P tr → Post Q (m tr).0 (m tr).1

-- what a later call does not undo
abbrev pub Stable : (Trace → Type 0) → Type 0
Stable P = (c : Call) (tr : Trace) → P tr → P (c ∷ tr)

Grows-stable :
    {R : Call → Type 0} {P : Trace → Type 0} {tr tr' : Trace}
    → Stable P
    → Grows R tr tr'
    → P tr
    → P tr'
Grows-stable stable same p = p
Grows-stable stable (more c r g) p = stable c _ (Grows-stable stable g p)

module _ {A : Type 0} {P : Trace → Type 0} {Q : A → Trace → Type 0} where
  pub Ensures-pure : (a : A) → ((tr : Trace) → P tr → Q a tr) → Ensures P (pure a) Q
  unfolding pure
  Ensures-pure a q = record { at = q }

  pub Ensures-panic : Ensures P (panic {A = A}) Q
  unfolding panic
  Ensures-panic = record { at = λ tr p. tt }

  pub Ensures-ask :
      (c : Call) (answer : Trace → A)
      → ((tr : Trace) → P tr → Q (answer tr) (c ∷ tr))
      → Ensures P (ask c answer) Q
  unfolding ask
  Ensures-ask c answer q = record { at = q }

  pub Ensures-if :
      (b : Bool) (m n : M A)
      → (b ≡ true → Ensures P m Q)
      → (b ≡ false → Ensures P n Q)
      → Ensures P (if b then m else n) Q
  Ensures-if true m n km kn = km refl
  Ensures-if false m n km kn = kn refl

  pub Ensures-check :
      (e : Option Error) (bad : Error → M A) (good : M A)
      → ((x : Error) → Ensures P (bad x) Q)
      → (e ≡ none → Ensures P good Q)
      → Ensures P (check e bad good) Q
  Ensures-check none bad good kb kg = kg refl
  Ensures-check (some x) bad good kb kg = kb x

pub Ensures-tell :
    {P : Trace → Type 0} {Q : Unit {0} → Trace → Type 0} (c : Call)
    → ((tr : Trace) → P tr → Q tt (c ∷ tr))
    → Ensures P (tell c) Q
unfolding tell
Ensures-tell c q = record { at = q }

pub Ensures-weaken :
    {A : Type 0} {P P' : Trace → Type 0} {Q : A → Trace → Type 0} {m : M A}
    → ((tr : Trace) → P' tr → P tr)
    → Ensures P m Q
    → Ensures P' m Q
Ensures-weaken before k = record { at = λ tr p. k.at tr (before tr p) }

-- a claim on the trace before, as an argument
pub Ensures-given :
    {A : Type 0} {X : Type 0} {P : Trace → Type 0} {Q : A → Trace → Type 0} {m : M A}
    → (X → Ensures P m Q)
    → Ensures (λ tr. X × P tr) m Q
Ensures-given k = record { at = λ tr (x, p). (k x).at tr p }

-- two claims on the same action
pub Ensures-both :
    {A : Type 0} {P : Trace → Type 0} {Q R : A → Trace → Type 0} {m : M A}
    → Ensures P m Q
    → Ensures P m R
    → Ensures P m (λ a tr. Q a tr × R a tr)
Ensures-both {A} {Q} {R} {m} k l = record {
  at = λ tr p. go (m tr).0 (m tr).1 (k.at tr p) (l.at tr p);
}
  where
    go : (r : Exit A) (tr : Trace) → Post Q r tr → Post R r tr → Post (λ a tr. Q a tr × R a tr) r tr
    go (returns a) tr q r = (q, r)
    go panics tr q r = tt

-- nothing is claimed
pub Ensures-any : {A : Type 0} {P : Trace → Type 0} (m : M A) → Ensures P m (λ a tr. Unit {0})
Ensures-any {A} m = record { at = λ tr p. go (m tr).0 (m tr).1 }
  where
    go : (r : Exit A) (tr : Trace) → Post (λ a tr. Unit {0}) r tr
    go (returns a) tr = tt
    go panics tr = tt

-- what was there before a call that no later call undoes
pub Ensures-Makes :
    {A : Type 0} {R : Call → Type 0} {P : Trace → Type 0} {m : M A}
    → Stable P
    → Makes R m
    → Ensures P m (λ a. P)
Ensures-Makes {A} {P} {m} stable k = record {
  at = λ tr p. go (m tr).0 (m tr).1 (Grows-stable stable (k.calls tr) p);
}
  where
    go : (r : Exit A) (tr : Trace) → P tr → Post (λ a. P) r tr
    go (returns a) tr p = p
    go panics tr p = tt

module _ {A B : Type 0} {P : Trace → Type 0} {R : B → Trace → Type 0} where
  pub Ensures-handle :
      (r : Result A) (bad : Error → M B) (good : A → M B)
      → ((x : Error) → Ensures P (bad x) R)
      → ((a : A) → r ≡ ok a → Ensures P (good a) R)
      → Ensures P (handle r bad good) R
  Ensures-handle (ok a) bad good kb kg = kg a refl
  Ensures-handle (err x) bad good kb kg = kb x

  pub Ensures-bind :
      {Q : A → Trace → Type 0} (m : M A) (f : A → M B)
      → Ensures P m Q
      → ((a : A) → Ensures (Q a) (f a) R)
      → Ensures P (m >>= f) R
  unfolding ◌>>=◌
  Ensures-bind {Q} m f km kf = record { at = λ tr p. go (m tr).0 (m tr).1 (km.at tr p) }
    where
      go : (r : Exit A) (tr : Trace) → Post Q r tr → Post R (continue r f tr).0 (continue r f tr).1
      go (returns a) tr q = (kf a).at tr q
      go panics tr q = tt

-- an action that returns
pub Holds-Ensures :
    {A : Type 0} {P : Trace → Type 0} {Q R : A → Trace → Type 0} {m : M A}
    → Holds P m Q
    → Ensures P m R
    → Holds P m (λ a tr. Q a tr × R a tr)
Holds-Ensures {A} {Q} {R} {m} k l = record {
  at = λ tr p. go (m tr).0 (m tr).1 (k.at tr p) (l.at tr p);
}
  where
    go :
        (r : Exit A) (tr : Trace)
        → After Q r tr
        → Post R r tr
        → After (λ a tr. Q a tr × R a tr) r tr
    go (returns a) tr q r = (q, r)
    go panics tr q r = absurd q
