-- ===== src/World/State.antt =====
-- A program logic for `M` with a claim on the trace before and after.
use kube_snapshot.Base.{◌∷◌, ◌≡◌, refl, Bool, true, false, if◌then◌else◌}
use kube_snapshot.World.{Call, Trace, Exit, returns, panics, M, pure, continue, ◌>>=◌}
use kube_snapshot.World.Logic.{Grows, same, more, Runs, Returns}

abbrev pub After : {A : Type 0} → (A → Trace → Type 0) → Exit A → Trace → Type 0
After Q (returns a) tr = Q a tr
After Q panics tr = ⊥

-- From a trace with `P`, `m` returns, and its value and trace satisfy `Q`.
pub record Holds {A : Type 0} (P : Trace → Type 0) (m : M A) (Q : A → Trace → Type 0) : Type 0 where
  pub at : (tr : Trace) → P tr → After Q (m tr).0 (m tr).1

pub Holds-bind :
    {A B : Type 0} {P : Trace → Type 0} {Q : A → Trace → Type 0} {R : B → Trace → Type 0} (m : M A)
    (f : A → M B)
    → Holds P m Q
    → ((a : A) → Holds (Q a) (f a) R)
    → Holds P (m >>= f) R
unfolding ◌>>=◌
Holds-bind {Q} {R} m f km kf = record { at = λ tr p. go (m tr).0 (m tr).1 (km.at tr p) }
  where
    go : (r : Exit _) (tr : Trace) → After Q r tr → After R (continue r f tr).0 (continue r f tr).1
    go (returns a) tr q = (kf a).at tr q
    go panics tr q = absurd q

Grows-keeps :
    {P : Call → Type 0} {I : Trace → Type 0} {tr tr' : Trace}
    → ((c : Call) (tr : Trace) → P c → I tr → I (c ∷ tr))
    → Grows P tr tr'
    → I tr
    → I tr'
Grows-keeps keep same i = i
Grows-keeps keep (more c p g) i = keep c _ p (Grows-keeps keep g i)

-- What every call of the action keeps, it keeps.
pub Holds-Runs :
    {A : Type 0} {P : Call → Type 0} {Q : A → Type 0} {m : M A} (I : Trace → Type 0)
    → ((c : Call) (tr : Trace) → P c → I tr → I (c ∷ tr))
    → Runs P Q m
    → Holds I m (λ a tr. Q a × I tr)
Holds-Runs {Q} {m} I keep k = record {
  at = λ tr i. go (m tr).0 (m tr).1 (k.result tr) (Grows-keeps keep (k.calls tr) i);
}
  where
    go : (r : Exit _) (tr : Trace) → Returns Q r → I tr → After (λ a tr. Q a × I tr) r tr
    go (returns a) tr q i = (q, i)
    go panics tr q i = absurd q

pub Holds-weaken :
    {A : Type 0} {P P' : Trace → Type 0} {Q R : A → Trace → Type 0} {m : M A}
    → ((tr : Trace) → P' tr → P tr)
    → ((a : A) (tr : Trace) → Q a tr → R a tr)
    → Holds P m Q
    → Holds P' m R
Holds-weaken {Q} {R} {m} before after k = record {
  at = λ tr p. go (m tr).0 (m tr).1 (k.at tr (before tr p));
}
  where
    go : (r : Exit _) (tr : Trace) → After Q r tr → After R r tr
    go (returns a) tr q = after a tr q
    go panics tr q = absurd q

-- a claim on the trace before, as an argument
pub Holds-given :
    {A : Type 0} {X : Type 0} {P : Trace → Type 0} {Q : A → Trace → Type 0} {m : M A}
    → (X → Holds P m Q)
    → Holds (λ tr. X × P tr) m Q
Holds-given k = record { at = λ tr (x, p). (k x).at tr p }

-- Two claims on the same action
pub Holds-both :
    {A : Type 0} {P : Trace → Type 0} {Q R : A → Trace → Type 0} {m : M A}
    → Holds P m Q
    → Holds P m R
    → Holds P m (λ a tr. Q a tr × R a tr)
Holds-both {Q} {R} {m} k l = record { at = λ tr p. go (m tr).0 (m tr).1 (k.at tr p) (l.at tr p) }
  where
    go :
        (r : Exit _) (tr : Trace)
        → After Q r tr
        → After R r tr
        → After (λ a tr. Q a tr × R a tr) r tr
    go (returns a) tr q r = (q, r)
    go panics tr q r = absurd q

module _ {A : Type 0} {P : Trace → Type 0} {Q : A → Trace → Type 0} where
  pub Holds-pure : (a : A) → ((tr : Trace) → P tr → Q a tr) → Holds P (pure a) Q
  unfolding pure
  Holds-pure a q = record { at = q }

  pub Holds-if :
      (b : Bool) (m n : M A)
      → (b ≡ true → Holds P m Q)
      → (b ≡ false → Holds P n Q)
      → Holds P (if b then m else n) Q
  Holds-if true m n km kn = km refl
  Holds-if false m n km kn = kn refl

-- an action without an answer returns
pub After-returns :
    (I : Trace → Type 0) (e : Exit (Unit {0})) (tr : Trace)
    → After (λ a tr. I tr) e tr
    → (e ≡ returns tt) × I tr
After-returns I (returns a) tr i = (refl, i)
After-returns I panics tr i = absurd i
