-- ===== src/World/Calls.antt =====
-- A logic for the calls of an action alone, which may panic.
use kube_snapshot.Base.{◌≡◌, refl, Bool, true, false, Option, none, some, ◌∷◌, if◌then◌else◌}
use kube_snapshot.World.{
  Call, Trace, Error, Result, ok, err, Exit, returns, panics, M, pure, panic, ask, tell, continue,
  ◌>>=◌, handle, check,
}
use kube_snapshot.World.Logic.{Grows, same, more, Grows-trans}

-- Each call that `m` makes satisfies `P`, whatever was called before and however `m` ends.
pub record Makes {A : Type 0} (P : Call → Type 0) (m : M A) : Type 0 where
  pub calls : (tr : Trace) → Grows P tr (m tr).1

module _ {A : Type 0} {P : Call → Type 0} where
  pub Makes-pure : (a : A) → Makes P (pure a)
  unfolding pure
  Makes-pure a = record { calls = λ tr. same }

  pub Makes-panic : Makes P (panic {A = A})
  unfolding panic
  Makes-panic = record { calls = λ tr. same }

  pub Makes-ask : (c : Call) (answer : Trace → A) → P c → Makes P (ask c answer)
  unfolding ask
  Makes-ask c answer p = record { calls = λ tr. more c p same }

  pub Makes-if :
      (b : Bool) (m n : M A)
      → (b ≡ true → Makes P m)
      → (b ≡ false → Makes P n)
      → Makes P (if b then m else n)
  Makes-if true m n km kn = km refl
  Makes-if false m n km kn = kn refl

  pub Makes-check :
      (e : Option Error) (bad : Error → M A) (good : M A)
      → ((x : Error) → Makes P (bad x))
      → (e ≡ none → Makes P good)
      → Makes P (check e bad good)
  Makes-check none bad good kb kg = kg refl
  Makes-check (some x) bad good kb kg = kb x

pub Makes-tell : {P : Call → Type 0} (c : Call) → P c → Makes P (tell c)
unfolding tell
Makes-tell c p = record { calls = λ tr. more c p same }

module _ {A B : Type 0} {P : Call → Type 0} where
  pub Makes-handle :
      (r : Result A) (bad : Error → M B) (good : A → M B)
      → ((x : Error) → Makes P (bad x))
      → ((a : A) → Makes P (good a))
      → Makes P (handle r bad good)
  Makes-handle (ok a) bad good kb kg = kg a
  Makes-handle (err x) bad good kb kg = kb x

  pub Makes-bind :
      (m : M A) (f : A → M B) → Makes P m → ((a : A) → Makes P (f a)) → Makes P (m >>= f)
  unfolding ◌>>=◌
  Makes-bind m f km kf = record { calls = λ tr. go (m tr).0 (m tr).1 (km.calls tr) }
    where
      go :
          {tr : Trace} (r : Exit A) (tr' : Trace) → Grows P tr tr' → Grows P tr (continue r f tr').1
      go (returns a) tr' g = Grows-trans g ((kf a).calls tr')
      go panics tr' g = g

pub ruleset makes_rules = (
  Makes-pure, Makes-panic, Makes-ask, Makes-tell, Makes-if, Makes-check, Makes-handle, Makes-bind,
)

-- an answer that is known beforehand
pub Makes-ask_known :
    {A B : Type 0} {P : Call → Type 0} (c : Call) (answer : Trace → A) (a : A) (f : A → M B)
    → ((tr : Trace) → answer tr ≡ a)
    → P c
    → Makes P (f a)
    → Makes P (ask c answer >>= f)
unfolding ◌>>=◌
Makes-ask_known {P} c answer a f known p k = record {
  calls = λ tr. rw (known tr) (Grows-trans (more c p same) (k.calls (c ∷ tr)));
}
