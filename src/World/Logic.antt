-- ===== src/World/Logic.antt =====
-- A program logic for `M`: which calls an action makes, and what it returns.
use kube_snapshot.Base.{◌≡◌, refl, Bool, true, false, Option, none, some, ◌∷◌, if◌then◌else◌}
use kube_snapshot.World.{
  Call, Trace, Error, Result, ok, err, Exit, returns, panics, M, pure, ask, tell, continue, ◌>>=◌,
  handle, check,
}

-- the second trace is the first with calls for which `P` holds made after it
pub data Grows (P : Call → Type 0) (tr : Trace) : Trace → Type 0 where
  same : Grows P tr tr
  more : {tr' : Trace} (c : Call) → P c → Grows P tr tr' → Grows P tr (c ∷ tr')

pub Grows-trans : {P : Call → Type 0} {a b c : Trace} → Grows P a b → Grows P b c → Grows P a c
Grows-trans g same = g
Grows-trans g (more c p h) = more c p (Grows-trans g h)

abbrev pub Returns : {A : Type 0} → (A → Type 0) → Exit A → Type 0
Returns Q (returns a) = Q a
Returns Q panics = ⊥

-- Whatever was called before, `m` returns: it does not panic, each call that it makes satisfies `P`,
-- and the value satisfies `Q`.
pub record Runs {A : Type 0} (P : Call → Type 0) (Q : A → Type 0) (m : M A) : Type 0 where
  pub calls : (tr : Trace) → Grows P tr (m tr).1
  pub result : (tr : Trace) → Returns Q (m tr).0

abbrev pub Any : {A : Type 0} → A → Type 0
Any a = Unit

module _ {A : Type 0} {P : Call → Type 0} {Q : A → Type 0} where
  pub Runs-pure : (a : A) → Q a → Runs P Q (pure a)
  unfolding pure
  Runs-pure a q = record { calls = λ tr. same; result = λ tr. q }

  pub Runs-ask :
      (c : Call) (answer : Trace → A)
      → P c
      → ((tr : Trace) → Q (answer tr))
      → Runs P Q (ask c answer)
  unfolding ask
  Runs-ask c answer p q = record { calls = λ tr. more c p same; result = q }

  pub Runs-if :
      (b : Bool) (m n : M A)
      → (b ≡ true → Runs P Q m)
      → (b ≡ false → Runs P Q n)
      → Runs P Q (if b then m else n)
  Runs-if true m n km kn = km refl
  Runs-if false m n km kn = kn refl

  pub Runs-check :
      (e : Option Error) (bad : Error → M A) (good : M A)
      → ((x : Error) → Runs P Q (bad x))
      → (e ≡ none → Runs P Q good)
      → Runs P Q (check e bad good)
  Runs-check none bad good kb kg = kg refl
  Runs-check (some x) bad good kb kg = kb x

pub Runs-tell : {P : Call → Type 0} {Q : Unit → Type 0} (c : Call) → P c → Q tt → Runs P Q (tell c)
unfolding tell
Runs-tell c p q = record { calls = λ tr. more c p same; result = λ tr. q }

module _ {A B : Type 0} {P : Call → Type 0} {R : B → Type 0} where
  pub Runs-handle :
      (r : Result A) (bad : Error → M B) (good : A → M B)
      → ((x : Error) → Runs P R (bad x))
      → ((a : A) → r ≡ ok a → Runs P R (good a))
      → Runs P R (handle r bad good)
  Runs-handle (ok a) bad good kb kg = kg a refl
  Runs-handle (err x) bad good kb kg = kb x

  pub Runs-bind :
      {Q : A → Type 0} (m : M A) (f : A → M B)
      → Runs P Q m
      → ((a : A) → Q a → Runs P R (f a))
      → Runs P R (m >>= f)
  unfolding ◌>>=◌
  Runs-bind {Q} m f km kf = record {
    calls = λ tr. calls_of (m tr).0 (m tr).1 (km.calls tr) (km.result tr);
    result = λ tr. result_of (m tr).0 (m tr).1 (km.result tr);
  }
    where
      calls_of :
          {tr : Trace} (r : Exit A) (tr' : Trace)
          → Grows P tr tr'
          → Returns Q r
          → Grows P tr (continue r f tr').1
      calls_of (returns a) tr' g q = Grows-trans g ((kf a q).calls tr')
      calls_of panics tr' g q = absurd q

      result_of : (r : Exit A) (tr' : Trace) → Returns Q r → Returns R (continue r f tr').0
      result_of (returns a) tr' q = (kf a q).result tr'
      result_of panics tr' q = absurd q

-- where nothing is said of what the first action returns
pub Runs-bind_free :
    {A B : Type 0} {P : Call → Type 0} {R : B → Type 0} (m : M A) (f : A → M B)
    → Runs P Any m
    → ((a : A) → Runs P R (f a))
    → Runs P R (m >>= f)
Runs-bind_free m f km kf = Runs-bind m f km (λ a _. kf a)

pub Runs-weaken :
    {A : Type 0} {P : Call → Type 0} {Q R : A → Type 0} {m : M A}
    → ((a : A) → Q a → R a)
    → Runs P Q m
    → Runs P R m
Runs-weaken {Q} {R} {m} w k = record { calls = k.calls; result = λ tr. go (m tr).0 (k.result tr) }
  where
    go : (r : Exit _) → Returns Q r → Returns R r
    go (returns a) q = w a q
    go panics q = absurd q

pub ruleset runs_rules =
    (Runs-pure, Runs-ask, Runs-tell, Runs-if, Runs-check, Runs-handle, Runs-bind_free)

Grows-map :
    {P R : Call → Type 0} {a b : Trace} → ((c : Call) → P c → R c) → Grows P a b → Grows R a b
Grows-map w same = same
Grows-map w (more c p g) = more c (w c p) (Grows-map w g)

pub Runs-map :
    {A : Type 0} {P R : Call → Type 0} {Q : A → Type 0} {m : M A}
    → ((c : Call) → P c → R c)
    → Runs P Q m
    → Runs R Q m
Runs-map w k = record { calls = λ tr. Grows-map w (k.calls tr); result = k.result }

-- Two claims on what the same action returns, with the calls of the first
pub Runs-both :
    {A : Type 0} {P P' : Call → Type 0} {Q R : A → Type 0} {m : M A}
    → Runs P Q m
    → Runs P' R m
    → Runs P (λ a. Q a × R a) m
Runs-both {Q} {R} {m} k l = record {
  calls = k.calls;
  result = λ tr. go (m tr).0 (k.result tr) (l.result tr);
}
  where
    go : (r : Exit _) → Returns Q r → Returns R r → Returns (λ a. Q a × R a) r
    go (returns a) q r = (q, r)
    go panics q r = absurd q
