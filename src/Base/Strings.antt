-- ===== src/Base/Strings.antt =====
-- Laws of the functions on texts: prefixes and places, and decimal numbers read back.
use Prim.Native.Nat.{ℕ, zero, suc, ◌+◌, ◌-◌, ◌*◌, ◌/◌, ◌%◌, ◌≤◌, ◌<◌}
use Prim.Native.Char.{Char, code}
use Prim.Native.String.{String, ◌++◌}
use mathlib.Core.Bool.{true, false, ◌&&◌}
use mathlib.Core.Option.{Option, none, some}
use mathlib.Core.Path.{◌≡◌, refl, ap, ◌∙◌, sym}
use native.Mathlib.Omega.{arith}
use text.Mathlib.TextLemmas.{nil-append, cons-append, append_assoc}
use mathlib.Core.Logic.{inl, inr}
use kube_snapshot.Base.Tests.{leb, eqb, if◌then◌else◌, Bool-cases}
use kube_snapshot.Base.Text.{strip_prefix, contains, digit, digits_before, show_nat}

pub eqb_refl : (n : ℕ) → eqb n n ≡ true
eqb_refl n = grind arith

pub strip_prefix-append : (p s : String) → strip_prefix p (p ++ s) ≡ some s
unfolding strip_prefix
strip_prefix-append String.[] s = rw (nil-append s) refl
strip_prefix-append (String.◌∷◌ c p) s =
    rw (cons-append c p s, eqb_refl (code c)) (strip_prefix-append p s)

pub contains-here :
    (c : Char) (s p r : String)
    → strip_prefix p (String.◌∷◌ c s) ≡ some r
    → contains (String.◌∷◌ c s) p ≡ true
unfolding contains
contains-here c s p r h = rw (contains, h) refl

-- A text that is not empty is found where it stands.
pub contains-prefix :
    (c : Char) (p s : String) → contains (String.◌∷◌ c p ++ s) (String.◌∷◌ c p) ≡ true
contains-prefix c p s = rw (cons-append c p s) (
    contains-here c (p ++ s) (String.◌∷◌ c p) s (
      ap (strip_prefix (String.◌∷◌ c p)) (sym (cons-append c p s))
      ∙ strip_prefix-append (String.◌∷◌ c p) s))

contains-later :
    (c : Char) (s p : String) → contains s p ≡ true → contains (String.◌∷◌ c s) p ≡ true
unfolding contains
contains-later c s p h = go (strip_prefix p (String.◌∷◌ c s)) refl
  where
    go :
        (o : Option String)
        → strip_prefix p (String.◌∷◌ c s) ≡ o
        → contains (String.◌∷◌ c s) p ≡ true
    go (some r) e = contains-here c s p r e
    go none e = rw (contains, e, h) refl

pub contains-append : (a s p : String) → contains s p ≡ true → contains (a ++ s) p ≡ true
contains-append String.[] s p h = rw (nil-append s) h
contains-append (String.◌∷◌ c a) s p h =
    rw (cons-append c a s) (contains-later c (a ++ s) p (contains-append a s p h))

-- The decimal number that a text starts with, after `n`, and the rest of the text
unfoldable pub read_nat : ℕ → String → ℕ × String
read_nat n String.[] = (n, "")
read_nat n (String.◌∷◌ c s) =
    let d = code c - 48 in
    let rest = read_nat (n * 10 + d) s in
    if leb 48 (code c) && leb (code c) 57 then rest else (n, String.◌∷◌ c s)

-- `digit` and `read_nat` agree on one digit.
read_nat-one :
    (n : ℕ) (c : Char) (s : String)
    → (leb 48 (code c) && leb (code c) 57) ≡ true
    → read_nat n (String.◌∷◌ c "" ++ s) ≡ read_nat (n * 10 + (code c - 48)) s
unfolding read_nat
read_nat-one n c s h = rw (cons-append c "" s, nil-append s, h) refl

read_nat-digit :
    (n d : ℕ) (s : String) → d < 10 → read_nat n (digit d ++ s) ≡ read_nat (n * 10 + d) s
read_nat-digit n zero s h = read_nat-one n "0" s refl
read_nat-digit n (suc zero) s h = read_nat-one n "1" s refl
read_nat-digit n (suc (suc zero)) s h = read_nat-one n "2" s refl
read_nat-digit n (suc (suc (suc zero))) s h = read_nat-one n "3" s refl
read_nat-digit n (suc (suc (suc (suc zero)))) s h = read_nat-one n "4" s refl
read_nat-digit n (suc (suc (suc (suc (suc zero))))) s h = read_nat-one n "5" s refl
read_nat-digit n (suc (suc (suc (suc (suc (suc zero)))))) s h = read_nat-one n "6" s refl
read_nat-digit n (suc (suc (suc (suc (suc (suc (suc zero))))))) s h = read_nat-one n "7" s refl
read_nat-digit n (suc (suc (suc (suc (suc (suc (suc (suc zero)))))))) s h =
    read_nat-one n "8" s refl
read_nat-digit n (suc (suc (suc (suc (suc (suc (suc (suc (suc zero))))))))) s h =
    read_nat-one n "9" s refl
read_nat-digit n (suc (suc (suc (suc (suc (suc (suc (suc (suc (suc d)))))))))) s h =
    absurd (omega arith)

zero-of : (n : ℕ) → n ≤ 0 → n ≡ 0
zero-of n h = omega arith

eqb-zero : (n : ℕ) → eqb n 0 ≡ true → n ≡ 0
eqb-zero n e = grind arith

eqb-positive : (n : ℕ) → eqb n 0 ≡ false → 1 ≤ n
eqb-positive n e = grind arith

-- The digits of a number stand before the rest, and are read as the number.
digits_before-append :
    (f n : ℕ) (a b : String) → digits_before f n a ++ b ≡ digits_before f n (a ++ b)
unfolding digits_before
digits_before-append zero n a b = refl
digits_before-append (suc f) n a b = elim (Bool-cases (eqb n 0)) [
  | inl e ↦ rw e refl
  | inr e ↦ rw e (
      digits_before-append f (n / 10) (digit (n % 10) ++ a) b
      ∙ ap (digits_before f (n / 10)) (append_assoc (digit (n % 10)) a b))
]

read_nat-digits_before :
    (f n : ℕ) (s : String) → n ≤ f → read_nat 0 (digits_before f n s) ≡ read_nat n s
unfolding digits_before
read_nat-digits_before zero n s h = rw (zero-of n h) refl
read_nat-digits_before (suc f) n s h = elim (Bool-cases (eqb n 0)) [
  | inl e ↦ rw (e, eqb-zero n e) refl
  | inr e ↦ rw e (
      read_nat-digits_before f (n / 10) (digit (n % 10) ++ s)
        (let p = eqb-positive n e in omega arith)
      ∙ read_nat-digit (n / 10) (n % 10) s (omega arith)
      ∙ ap (λ m. read_nat m s) (omega arith))
]

-- A number is read back from its digits.
pub read_nat-show_nat : (n : ℕ) (s : String) → read_nat 0 (show_nat n ++ s) ≡ read_nat n s
unfolding show_nat
read_nat-show_nat n s = elim (Bool-cases (eqb n 0)) [
  | inl e ↦ rw (e, eqb-zero n e) (read_nat-digit 0 0 s (omega arith))
  | inr e ↦ rw e (
      ap (read_nat 0) (digits_before-append n n "" s)
      ∙ read_nat-digits_before n n ("" ++ s) (omega arith)
      ∙ ap (read_nat n) (nil-append s))
]

-- The number ends at a dash.
pub read_nat-dash : (n : ℕ) (s : String) → read_nat n ("-" ++ s) ≡ (n, "-" ++ s)
unfolding read_nat
read_nat-dash n s = rw (cons-append "-" "" s) refl
