-- ===== src/Base/AllLaws.antt =====
-- Laws of `All` and of `Pairwise`.
use Prim.Native.Nat.{ℕ, zero, suc}
use mathlib.Core.Path.{◌≡◌, refl, ap}
use mathlib.Core.List.{List, [], ◌∷◌, ◌++◌}
use kube_snapshot.Base.Lists.{All, Pairwise, length, drop}

module _ {A : Type 0} where
  pub All-map_each : {P Q : A → Type 0} (xs : List A) → ((x : A) → P x → Q x) → All P xs → All Q xs
  All-map_each [] f a = tt
  All-map_each (x ∷ xs) f a = (f x a.0, All-map_each xs f a.1)

  module _ (P : A → Type 0) where
    pub All-drop : (n : ℕ) (xs : List A) → All P xs → All P (drop n xs)
    All-drop zero xs a = a
    All-drop (suc n) [] a = tt
    All-drop (suc n) (x ∷ xs) a = All-drop n xs a.1

    pub All-append : (xs ys : List A) → All P xs → All P ys → All P (xs ++ ys)
    All-append [] ys a b = b
    All-append (x ∷ xs) ys a b = (a.0, All-append xs ys a.1 b)

-- what each item's counterpart inherits
pub Pairwise-All :
    {A B : Type 0} {R : A → B → Type 0} {P : A → Type 0} {Q : B → Type 0}
    → ((x : A) (y : B) → P x → R x y → Q y)
    → (xs : List A) (ys : List B) → All P xs
    → Pairwise R xs ys
    → All Q ys
Pairwise-All step [] [] p r = tt
Pairwise-All step [] (y ∷ ys) p r = absurd r
Pairwise-All step (x ∷ xs) [] p r = absurd r
Pairwise-All step (x ∷ xs) (y ∷ ys) p r = (step x y p.0 r.0, Pairwise-All step xs ys p.1 r.1)

pub Pairwise-length :
    {A B : Type 0} (R : A → B → Type 0) (xs : List A) (ys : List B)
    → Pairwise R xs ys
    → length ys ≡ length xs
Pairwise-length R [] [] p = refl
Pairwise-length R [] (y ∷ ys) p = absurd p
Pairwise-length R (x ∷ xs) [] p = absurd p
Pairwise-length R (x ∷ xs) (y ∷ ys) p = ap suc (Pairwise-length R xs ys p.1)

pub Pairwise-map_each :
    {A B : Type 0} {R S : A → B → Type 0} (xs : List A) (ys : List B)
    → ((x : A) (y : B) → R x y → S x y)
    → Pairwise R xs ys
    → Pairwise S xs ys
Pairwise-map_each [] [] f r = tt
Pairwise-map_each [] (y ∷ ys) f r = absurd r
Pairwise-map_each (x ∷ xs) [] f r = absurd r
Pairwise-map_each (x ∷ xs) (y ∷ ys) f r = (f x y r.0, Pairwise-map_each xs ys f r.1)

pub Pairwise-refl :
    {A : Type 0} (R : A → A → Type 0) → ((x : A) → R x x) → (xs : List A) → Pairwise R xs xs
Pairwise-refl R same [] = tt
Pairwise-refl R same (x ∷ xs) = (same x, Pairwise-refl R same xs)

pub Pairwise-trans :
    {A : Type 0} {R : A → A → Type 0}
    → ((x y z : A) → R x y → R y z → R x z)
    → (xs ys zs : List A) → Pairwise R xs ys
    → Pairwise R ys zs
    → Pairwise R xs zs
Pairwise-trans join [] [] zs p q = q
Pairwise-trans join [] (y ∷ ys) zs p q = absurd p
Pairwise-trans join (x ∷ xs) [] zs p q = absurd p
Pairwise-trans join (x ∷ xs) (y ∷ ys) [] p q = absurd q
Pairwise-trans join (x ∷ xs) (y ∷ ys) (z ∷ zs) p q =
    (join x y z p.0 q.0, Pairwise-trans join xs ys zs p.1 q.1)
