-- ===== src/Base/Replace.antt =====
-- Laws of `strings.ReplaceAll` and `strings.Split`: the places of an old text that begins with a
-- character which other parts of the text lack.
use Prim.Native.Nat.{ℕ, zero, suc, ◌-◌}
use Prim.Native.Char.{Char, code}
use Prim.Native.String.{String, ◌++◌}
use mathlib.Core.Bool.{Bool, true, false, not, ◌&&◌, true≢false}
use mathlib.Core.Logic.{inl, inr}
use mathlib.Core.Option.{none, some}
use mathlib.Core.Path.{◌≡◌, refl, ap, ◌∙◌, sym}
use mathlib.Core.List.{List, [], ◌∷◌}
use native.Mathlib.Omega.{arith}
use text.Mathlib.TextLemmas.{nil-append, cons-append}
use kube_snapshot.Base.Tests.{eqb, if◌then◌else◌, Bool-cases, Option-cases}
use kube_snapshot.Base.Lists.{All}
use kube_snapshot.Base.Text.{
  strip_prefix, replace_from, replace_all, split, split_from, cons_head, last_text, text_size,
}
use kube_snapshot.Base.Strings.{eqb_refl, strip_prefix-append}

-- the character stands nowhere in the text
abbrev pub lacks : Char → String → Bool
lacks o String.[] = true
lacks o (String.◌∷◌ c s) = not (eqb (code o) (code c)) && lacks o s

-- the texts differ at a place that both have
abbrev pub differs : String → String → Bool
differs String.[] s = false
differs (String.◌∷◌ c p) String.[] = false
differs (String.◌∷◌ c p) (String.◌∷◌ d s) =
    let later = differs p s in if eqb (code c) (code d) then later else true

strip_prefix-differs : (p a s : String) → differs p a ≡ true → strip_prefix p (a ++ s) ≡ none
unfolding strip_prefix
strip_prefix-differs String.[] a s h = cc
strip_prefix-differs (String.◌∷◌ c p) String.[] s h = cc
strip_prefix-differs (String.◌∷◌ c p) (String.◌∷◌ d a) s h =
    elim (Bool-cases (eqb (code c) (code d))) [
      | inl e ↦
          rw (cons-append d a s, e)
            (strip_prefix-differs p a s (sym (ap (λ b. if b then differs p a else true) e) ∙ h))
      | inr e ↦ rw (cons-append d a s, e) refl
    ]

lacks-rest :
    (o : Char) (c : Char) (s : String)
    → lacks o (String.◌∷◌ c s) ≡ true
    → (eqb (code o) (code c) ≡ false) × (lacks o s ≡ true)
lacks-rest o c s h = elim (Bool-cases (eqb (code o) (code c))) [
  | inl e ↦ absurd (true≢false (sym h ∙ ap (λ b. not b && lacks o s) e))
  | inr e ↦ (e, sym (ap (λ b. not b && lacks o s) e) ∙ h)
]

module _ (o : Char) (p new : String) where
  pub replace_all-empty : (old : String) → replace_all "" old new ≡ ""
  unfolding replace_all replace_from
  replace_all-empty old = refl

  pub replace_all-lacks :
      (a s : String)
      → lacks o a ≡ true
      → replace_all (a ++ s) (String.◌∷◌ o p) new ≡ a ++ replace_all s (String.◌∷◌ o p) new
  unfolding replace_all replace_from strip_prefix
  replace_all-lacks String.[] s h =
      rw (nil-append s, nil-append (replace_all s (String.◌∷◌ o p) new)) refl
  replace_all-lacks (String.◌∷◌ c a) s h =
      let (other, l) = lacks-rest o c a h in
      rw
        (
          cons-append c a s,
          cons-append c a (replace_all s (String.◌∷◌ o p) new),
          replace_from,
          other,
        )
        (ap (String.◌∷◌ c) (replace_all-lacks a s l))

  replace_from-skip :
      (old a s : String) → replace_from old new (text_size a) (a ++ s) ≡ replace_from old new zero s
  unfolding replace_from
  replace_from-skip old String.[] s = rw (nil-append s) refl
  replace_from-skip old (String.◌∷◌ c a) s = rw (cons-append c a s) (replace_from-skip old a s)

  pub replace_all-here :
      (s : String)
      → replace_all (String.◌∷◌ o (p ++ s)) (String.◌∷◌ o p) new
        ≡ new ++ replace_all s (String.◌∷◌ o p) new
  unfolding replace_all replace_from
  replace_all-here s =
      let found : strip_prefix (String.◌∷◌ o p) (String.◌∷◌ o (p ++ s)) ≡ some s =
        ap (strip_prefix (String.◌∷◌ o p)) (sym (cons-append o p s))
        ∙ strip_prefix-append (String.◌∷◌ o p) s in
      let one_less : suc (text_size p) - 1 ≡ text_size p = omega arith in
      rw (replace_from, found)
        (ap (λ n. new ++ replace_from (String.◌∷◌ o p) new n (p ++ s)) one_less
          ∙ ap (λ t. new ++ t) (replace_from-skip (String.◌∷◌ o p) p s))

  pub replace_all-differs :
      (a s : String)
      → differs p a ≡ true
      → lacks o a ≡ true
      → replace_all (String.◌∷◌ o (a ++ s)) (String.◌∷◌ o p) new
        ≡ String.◌∷◌ o (a ++ replace_all s (String.◌∷◌ o p) new)
  unfolding replace_all replace_from strip_prefix
  replace_all-differs a s h l =
      rw (replace_from, strip_prefix-differs p a s h, eqb_refl (code o))
        (ap (String.◌∷◌ o) (replace_all-lacks a s l))

module _ (o : Char) where
  abbrev Lacking : String → Type 0
  Lacking s = lacks o s ≡ true

  cons_head-lacks :
      (c : Char) (xs : List String)
      → eqb (code o) (code c) ≡ false
      → All Lacking xs
      → All Lacking (cons_head c xs)
  cons_head-lacks c [] e all = tt
  cons_head-lacks c (x ∷ xs) e (l, all) = (rw e l, all)

  -- the parts of a text have no other characters
  split_from-lacks :
      (sep : String) (skip : ℕ) (s : String)
      → lacks o s ≡ true
      → All (λ part. lacks o part ≡ true) (split_from sep skip s)
  unfolding split_from
  split_from-lacks sep skip String.[] h = (refl, tt)
  split_from-lacks sep (suc skip) (String.◌∷◌ c s) h =
      split_from-lacks sep skip s (lacks-rest o c s h).1
  split_from-lacks sep zero (String.◌∷◌ c s) h =
      let (other, l) = lacks-rest o c s h in
      elim (Option-cases (strip_prefix sep (String.◌∷◌ c s))) [
        | inl e ↦ rw (split_from, e) (cons_head-lacks c _ other (split_from-lacks sep zero s l))
        | inr (r, e) ↦ rw (split_from, e) (refl, split_from-lacks sep (text_size sep - 1) s l)
      ]

  pub last_text-lacks :
      (xs : List String) → All (λ part. lacks o part ≡ true) xs → lacks o (last_text xs) ≡ true
  last_text-lacks [] all = refl
  last_text-lacks (x ∷ []) all = all.0
  last_text-lacks (x ∷ y ∷ xs) all = last_text-lacks (y ∷ xs) all.1

  pub split-lacks :
      (s sep : String) → lacks o s ≡ true → All (λ part. lacks o part ≡ true) (split s sep)
  unfolding split
  split-lacks s sep h = split_from-lacks sep zero s h
