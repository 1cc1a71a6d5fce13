-- ===== src/Base/Int.antt =====
-- Signed integers, and the 32-bit ones of the API types with their wrap-around.
use Prim.Native.Nat.{ℕ, zero, suc, ◌+◌, ◌-◌, ◌≤◌, ◌<◌}
use mathlib.Core.Path.{◌≡◌}
use mathlib.Core.Bool.{Bool, true, false}
use native.Mathlib.Omega.{arith}
use Prim.Native.String.{String}
use mathlib.Core.List.{[], ◌∷◌}
use kube_snapshot.Base.Text.{show_nat, sprint}
use kube_snapshot.Base.Tests.{leb, eqb, if◌then◌else◌}

-- `negsuc n` is -(n + 1).
pub data ℤ : Type 0 where
  pos : ℕ → ℤ
  negsuc : ℕ → ℤ

-- a - b, as an integer
abbrev pub sub_ℕ : ℕ → ℕ → ℤ
sub_ℕ a b = if leb b a then pos (a - b) else negsuc (b - a - 1)

infix 50 ◌≤?◌ ◌==ℤ◌ ◌≤ℤ◌
abbrev pub ◌≤?◌ : ℤ → ℤ → Bool
pos a ≤? pos b = leb a b
pos a ≤? negsuc b = false
negsuc a ≤? pos b = true
negsuc a ≤? negsuc b = leb b a

abbrev pub ◌==ℤ◌ : ℤ → ℤ → Bool
pos a ==ℤ pos b = eqb a b
pos a ==ℤ negsuc b = false
negsuc a ==ℤ pos b = false
negsuc a ==ℤ negsuc b = eqb a b

-- `n + 1` in int32: the largest value wraps to the least.
pub inc32 : ℤ → ℤ
inc32 (pos n) = if eqb n 2147483647 then negsuc 2147483647 else pos (n + 1)
inc32 (negsuc zero) = pos 0
inc32 (negsuc (suc n)) = negsuc n

pub inc32-pos : (n : ℕ) → n < 2147483647 → inc32 (pos n) ≡ pos (suc n)
unfolding inc32
inc32-pos n h = ground arith

abbrev pub ◌≤ℤ◌ : ℤ → ℤ → Type 0
◌≤ℤ◌ (pos a) (pos b) = a ≤ b
◌≤ℤ◌ (pos a) (negsuc b) = ⊥
◌≤ℤ◌ (negsuc a) (pos b) = Unit
◌≤ℤ◌ (negsuc a) (negsuc b) = b ≤ a

pub ==ℤ_iff : (a b : ℤ) → (a ==ℤ b) ≡ true → a ≡ b
==ℤ_iff (pos a) (pos b) h = ground arith
==ℤ_iff (pos a) (negsuc b) h = ground arith
==ℤ_iff (negsuc a) (pos b) h = ground arith
==ℤ_iff (negsuc a) (negsuc b) h = ground arith

pub ==ℤ_refl : (a : ℤ) → (a ==ℤ a) ≡ true
==ℤ_refl (pos a) = ground arith
==ℤ_refl (negsuc a) = ground arith

-- `%d`
unfoldable pub show_int : ℤ → String
show_int (pos n) = show_nat n
show_int (negsuc n) = sprint ("-" ∷ show_nat (suc n) ∷ [])
