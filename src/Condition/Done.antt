-- ===== src/Condition/Done.antt =====
-- Which steps a list of conditions records as done, and how the reconcilers' writes change that.
use kube_snapshot.Base.{
  ℕ, zero, suc, String, ◌≡◌, refl, Bool, false, Option, none, some, List, [], ◌∷◌, ◌++◌, ◌==◌,
  eq_iff, eq_refl, length, get_elem?, modify, arith, if◌then◌else◌, Bool-cases, inl, inr,
}
use kube_snapshot.Api.{Time, Condition, is_cond_true}
use kube_snapshot.World.{Call, Env, now, ask}
use kube_snapshot.World.Logic.{Runs, Runs-pure, Runs-bind, Runs-ask, Any}
use kube_snapshot.Condition.{index_of, new_condition, ensure_at, ensure_condition}

abbrev pub untimed : Condition → Condition
untimed c = record c { last_transition_time = 0 }

-- the first condition of the type is true
unfoldable pub is_done : String → List Condition → Bool
is_done typ [] = false
is_done typ (c ∷ cs) =
    let rest = is_done typ cs in if c.typ == typ then is_cond_true c.status else rest

pub is_done-append :
    (typ new : String) (t : Time) (cs : List Condition)
    → is_done typ (cs ++ new_condition new t ∷ []) ≡ is_done typ cs
unfolding is_done
is_done-append typ new t [] = ground arith
is_done-append typ new t (c ∷ cs) = ground (arith, is_done-append typ new t cs)

pub index_of-append :
    (typ : String) (t : Time) (cs : List Condition)
    → index_of typ cs ≡ none
    → index_of typ (cs ++ new_condition typ t ∷ []) ≡ some (length cs)
index_of-append typ t [] h = ground (arith, eq_refl typ)
index_of-append typ t (c ∷ cs) h = ground (arith, index_of-append typ t cs)

pub index_of-get_elem?-some :
    (typ : String) (cs : List Condition) (i : ℕ)
    → index_of typ cs ≡ some i
    → (c : Condition) × (get_elem? cs i ≡ some c)
index_of-get_elem?-some typ [] i h = cc
index_of-get_elem?-some typ (c ∷ cs) zero h = (c, refl)
index_of-get_elem?-some typ (c ∷ cs) (suc i) h = index_of-get_elem?-some typ cs i (ground arith)

-- what stands at the index that was found
pub index_of-get_elem? :
    (typ : String) (cs : List Condition) (i : ℕ) (c : Condition)
    → index_of typ cs ≡ some i
    → get_elem? cs i ≡ some c
    → (c.typ ≡ typ) × (is_cond_true c.status ≡ is_done typ cs)
unfolding is_done
index_of-get_elem? typ [] i c h g = cc
index_of-get_elem? typ (d ∷ cs) zero c h g = ground (arith, eq_iff d.typ typ)
index_of-get_elem? typ (d ∷ cs) (suc i) c h g = ground (arith, index_of-get_elem? typ cs i c)

-- A write at the index decides the step of the type, and no other step.
pub is_done-modify :
    (typ other : String) (cs : List Condition) (i : ℕ) (f : Condition → Condition) (old : Condition)
    → index_of typ cs ≡ some i
    → get_elem? cs i ≡ some old
    → (f old).typ ≡ typ
    → is_done other (modify i f cs)
      ≡ (if typ == other then is_cond_true (f old).status else is_done other cs)
unfolding is_done
is_done-modify typ other [] i f old h g e = cc
is_done-modify typ other (d ∷ cs) zero f old h g e =
    ground (arith, eq_iff d.typ typ, eq_iff typ other, eq_iff d.typ other)
is_done-modify typ other (d ∷ cs) (suc i) f old h g e = elim (Bool-cases (d.typ == typ)) [
  | inl at_head ↦ absurd (ground arith)
  | inr later ↦ ground (
    arith,
    later,
    is_done-modify typ other cs i f old,
    eq_iff d.typ typ,
    eq_iff typ other,
    eq_iff d.typ other,
  )
]

-- `ensure_condition` finds or adds the condition of a type, and no step is done by that.
abbrev pub Located : String → List Condition → ℕ × List Condition → Type 0
Located typ cs (i, cs') =
    (index_of typ cs' ≡ some i) × ((other : String) → is_done other cs' ≡ is_done other cs)

ensure_at-Located :
    {P : Call → Type 0} (env : Env) (typ : String) (cs : List Condition) (o : Option ℕ)
    → P now
    → index_of typ cs ≡ o
    → Runs P (Located typ cs) (ensure_at env typ cs o)
unfolding ensure_at
ensure_at-Located env typ cs (some i) p e = Runs-pure (i, cs) (e, λ other. refl)
ensure_at-Located env typ cs none p e =
    Runs-bind (ask now env.clock) _ (Runs-ask {Q = Any} now env.clock p (λ tr. tt))
      λ t _. Runs-pure _ (index_of-append typ t cs e, λ other. is_done-append other typ t cs)

pub ensure_condition-Located :
    {P : Call → Type 0} (env : Env) (typ : String) (cs : List Condition)
    → P now
    → Runs P (Located typ cs) (ensure_condition env typ cs)
unfolding ensure_condition
ensure_condition-Located env typ cs p = ensure_at-Located env typ cs (index_of typ cs) p refl
