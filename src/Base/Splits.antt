-- ===== src/Base/Splits.antt =====
-- Laws of `strings.Split`: when a text has one part, and when more.
use Prim.Native.Nat.{ℕ, zero, suc, ◌-◌}
use Prim.Native.Char.{Char}
use Prim.Native.String.{String}
use mathlib.Core.Bool.{true, false, true≢false}
use mathlib.Core.List.{List, [], ◌∷◌}
use mathlib.Core.Logic.{inl, inr}
use mathlib.Core.Option.{none}
use mathlib.Core.Path.{◌≡◌, refl, sym, ◌∙◌}
use kube_snapshot.Base.Tests.{Option-cases}
use kube_snapshot.Base.Strings.{contains-here}
use kube_snapshot.Base.Text.{strip_prefix, contains, split, split_from, text_size}

split_from-nonempty :
    (sep : String) (skip : ℕ) (s : String)
    → (x : String) × (xs : List String) × (split_from sep skip s ≡ x ∷ xs)
unfolding split_from
split_from-nonempty sep skip String.[] = ("", [], refl)
split_from-nonempty sep (suc skip) (String.◌∷◌ c s) = split_from-nonempty sep skip s
split_from-nonempty sep zero (String.◌∷◌ c s) =
    let (x, xs, e) = split_from-nonempty sep zero s in
    elim (Option-cases (strip_prefix sep (String.◌∷◌ c s))) [
      | inl miss ↦ (String.◌∷◌ c x, xs, rw (split_from, miss, e) refl)
      | inr (r, hit) ↦ ("", split_from sep (text_size sep - 1) s, rw (split_from, hit) refl)
    ]

contains-miss :
    (c : Char) (s p : String)
    → strip_prefix p (String.◌∷◌ c s) ≡ none
    → contains (String.◌∷◌ c s) p ≡ contains s p
unfolding contains
contains-miss c s p miss = rw (contains, miss) refl

-- a text in which the separator does not stand is its one part
split_from-whole : (sep s : String) → contains s sep ≡ false → split_from sep zero s ≡ s ∷ []
unfolding split_from
split_from-whole sep String.[] h = refl
split_from-whole sep (String.◌∷◌ c s) h = elim (Option-cases (strip_prefix sep (String.◌∷◌ c s))) [
  | inl miss ↦
      rw (split_from, miss, split_from-whole sep s (sym (contains-miss c s sep miss) ∙ h)) refl
  | inr (r, hit) ↦ absurd (true≢false (sym (contains-here c s sep r hit) ∙ h))
]

contains-nil : (o : Char) (p : String) → contains "" (String.◌∷◌ o p) ≡ false
unfolding contains
contains-nil o p = refl

split_from-more :
    (o : Char) (p s : String)
    → contains s (String.◌∷◌ o p) ≡ true
    → (x y : String) × (xs : List String) × (split_from (String.◌∷◌ o p) zero s ≡ x ∷ y ∷ xs)
unfolding split_from
split_from-more o p String.[] h = absurd (true≢false (sym h ∙ contains-nil o p))
split_from-more o p (String.◌∷◌ c s) h =
    elim (Option-cases (strip_prefix (String.◌∷◌ o p) (String.◌∷◌ c s))) [
      | inl miss ↦
          let (x, y, xs, e) =
            split_from-more o p s (sym (contains-miss c s (String.◌∷◌ o p) miss) ∙ h) in
          (String.◌∷◌ c x, y, xs, rw (split_from, miss, e) refl)
      | inr (r, hit) ↦
          let (y, ys, e) =
            split_from-nonempty (String.◌∷◌ o p) (text_size (String.◌∷◌ o p) - 1) s in
          ("", y, ys, rw (split_from, hit, e) refl)
    ]

pub split-whole : (s sep : String) → contains s sep ≡ false → split s sep ≡ s ∷ []
unfolding split
split-whole s sep h = split_from-whole sep s h

-- a text in which the separator stands has two parts at least
pub split-more :
    (s : String) (o : Char) (p : String)
    → contains s (String.◌∷◌ o p) ≡ true
    → (x y : String) × (xs : List String) × (split s (String.◌∷◌ o p) ≡ x ∷ y ∷ xs)
unfolding split
split-more s o p h = split_from-more o p s h
