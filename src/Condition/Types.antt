-- ===== src/Condition/Types.antt =====
-- The types of the conditions of an object, which the loops of the reconcilers add.
use kube_snapshot.Base.{
  ℕ, zero, suc, String, ◌≡◌, refl, ap, true, false, Option, none, some, List, [], ◌∷◌, ◌++◌, map,
  arith, inl, inr, eq_refl, eq_iff, contains_text, every_by, get_elem?, modify, All, if◌then◌else◌,
  Bool-cases, ◌==◌,
}
use kube_snapshot.Api.{Condition, is_cond_true, Time}
use kube_snapshot.World.{Call, Env, now, ask}
use kube_snapshot.World.Logic.{Runs, Any, Runs-pure, Runs-ask, Runs-bind_free}
use kube_snapshot.Condition.{index_of, new_condition, ensure_at, ensure_condition}
use kube_snapshot.Condition.Done.{is_done, untimed}

abbrev pub types : List Condition → List String
types cs = map (λ (c : Condition). c.typ) cs

-- the types with one more, where it is not there
unfoldable pub add_type : String → List String → List String
add_type typ ts = if contains_text ts typ then ts else ts ++ typ ∷ []

types-append :
    (typ : String) (t : Time) (cs : List Condition)
    → types (cs ++ new_condition typ t ∷ []) ≡ types cs ++ typ ∷ []
types-append typ t [] = refl
types-append typ t (c ∷ cs) = ap (λ ts. c.typ ∷ ts) (types-append typ t cs)

index_of-none :
    (typ : String) (cs : List Condition)
    → index_of typ cs ≡ none
    → contains_text (types cs) typ ≡ false
index_of-none typ [] h = refl
index_of-none typ (c ∷ cs) h = ground (arith, index_of-none typ cs)

index_of-some :
    (typ : String) (cs : List Condition) (i : ℕ)
    → index_of typ cs ≡ some i
    → contains_text (types cs) typ ≡ true
index_of-some typ [] i h = cc
index_of-some typ (c ∷ cs) zero h = ground (arith, index_of-some typ cs 0)
index_of-some typ (c ∷ cs) (suc i) h = ground (arith, index_of-some typ cs i)

pub types-modify :
    (i : ℕ) (f : Condition → Condition) (cs : List Condition) (old : Condition)
    → get_elem? cs i ≡ some old
    → (f old).typ ≡ old.typ
    → types (modify i f cs) ≡ types cs
types-modify i f [] old g e = refl
types-modify zero f (c ∷ cs) old g e = ground arith
types-modify (suc i) f (c ∷ cs) old g e = ap (λ ts. c.typ ∷ ts) (types-modify i f cs old g e)

pub types-untimed : (cs : List Condition) → types (map untimed cs) ≡ types cs
types-untimed [] = refl
types-untimed (c ∷ cs) = ap (λ ts. c.typ ∷ ts) (types-untimed cs)

module _ {P : Call → Type 0} (env : Env) (typ : String) (cs : List Condition) (p : P now) where
  ensure_at-types :
      (o : Option ℕ)
      → index_of typ cs ≡ o
      → Runs P (λ (i, cs'). types cs' ≡ add_type typ (types cs)) (ensure_at env typ cs o)
  unfolding ensure_at add_type
  ensure_at-types (some i) e = Runs-pure (i, cs) (rw (index_of-some typ cs i e) refl)
  ensure_at-types none e =
      Runs-bind_free (ask now env.clock) _ (Runs-ask {Q = Any} now env.clock p (λ tr. tt))
        λ t. Runs-pure _ (rw (index_of-none typ cs e) (types-append typ t cs))

  pub ensure_condition-types :
      Runs P (λ (i, cs'). types cs' ≡ add_type typ (types cs)) (ensure_condition env typ cs)
  unfolding ensure_condition
  ensure_condition-types = ensure_at-types (index_of typ cs) refl

-- The type is there once it was added.
contains_text-append : (typ : String) (ts : List String) → contains_text (ts ++ typ ∷ []) typ ≡ true
contains_text-append typ [] = ground (arith, eq_refl typ)
contains_text-append typ (s ∷ ts) = ground (arith, contains_text-append typ ts)

pub contains_text-add_type :
    (typ : String) (ts : List String) → contains_text (add_type typ ts) typ ≡ true
unfolding add_type
contains_text-add_type typ ts = ground (arith, contains_text-append typ ts)

-- A condition whose step is not done is not true.
pub every_by-undone :
    (typ : String) (cs : List Condition)
    → contains_text (types cs) typ ≡ true
    → is_done typ cs ≡ false
    → every_by (λ (c : Condition). is_cond_true c.status) cs ≡ false
unfolding is_done
every_by-undone typ [] h d = cc
every_by-undone typ (c ∷ cs) h d = ground (arith, every_by-undone typ cs)

-- each type stands once
abbrev pub Distinct : List String → Type 0
Distinct [] = Unit
Distinct (t ∷ ts) = (contains_text ts t ≡ false) × Distinct ts

-- Each type stands once, and is one of `names`.
pub record IsTidy (names ts : List String) : Type 0 where
  pub known : All (λ t. contains_text names t ≡ true) ts
  pub distinct : Distinct ts

All-add :
    (names ts : List String) (typ : String)
    → contains_text names typ ≡ true
    → All (λ t. contains_text names t ≡ true) ts
    → All (λ t. contains_text names t ≡ true) (ts ++ typ ∷ [])
All-add names [] typ h a = (h, tt)
All-add names (t ∷ ts) typ h a = (a.0, All-add names ts typ h a.1)

contains_text-append_other :
    (ts : List String) (typ t : String)
    → contains_text ts t ≡ false
    → (typ == t) ≡ false
    → contains_text (ts ++ typ ∷ []) t ≡ false
contains_text-append_other [] typ t h d = ground arith
contains_text-append_other (s ∷ ts) typ t h d = ground (arith, contains_text-append_other ts typ t)

Distinct-add :
    (ts : List String) (typ : String)
    → contains_text ts typ ≡ false
    → Distinct ts
    → Distinct (ts ++ typ ∷ [])
Distinct-add [] typ h d = (refl, tt)
Distinct-add (t ∷ ts) typ h d = (
  contains_text-append_other ts typ t d.0 (ground (arith, eq_iff t typ, eq_iff typ t)),
  Distinct-add ts typ (ground arith) d.1,
)

pub add_type-IsTidy :
    (names ts : List String) (typ : String)
    → contains_text names typ ≡ true
    → IsTidy names ts
    → IsTidy names (add_type typ ts)
unfolding add_type
add_type-IsTidy names ts typ h t = elim (Bool-cases (contains_text ts typ)) [
  | inl there ↦ rw there t
  | inr new ↦ rw new (record {
    known = All-add names ts typ h t.known;
    distinct = Distinct-add ts typ new t.distinct;
  })
]

-- Where each type stands once, and the step of each is done, every condition is true.
pub all_done :
    (cs : List Condition)
    → Distinct (types cs)
    → ((t : String) → contains_text (types cs) t ≡ true → is_done t cs ≡ true)
    → All (λ (c : Condition). is_cond_true c.status ≡ true) cs
unfolding is_done
all_done [] d h = tt
all_done (c ∷ cs) d h = (
  ground (arith, h c.typ, eq_refl c.typ),
  all_done cs d.1 (λ t there. ground (arith, h t, d.0, there, eq_iff c.typ t)),
)
