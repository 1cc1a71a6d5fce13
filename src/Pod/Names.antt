-- ===== src/Pod/Names.antt =====
-- internal/controller/snapshotpod_controller.go: what the name of a task says of its round and
-- its container.
use kube_snapshot.Base.{
  ℕ, suc, String, ◌≡◌, refl, sym, ◌∙◌, ap, none, arith, strip_prefix, show_nat,
}
use Prim.Native.String.{◌++◌}
use text.Mathlib.TextLemmas.{append_cancel_left, append_assoc, append-nil, cons-append}
use kube_snapshot.Base.Int.{ℤ, pos, negsuc, show_int}
use kube_snapshot.Base.Strings.{strip_prefix-append, read_nat, read_nat-show_nat, read_nat-dash}
use kube_snapshot.Pod.Tasks.{task_name}

read_back : (n : ℕ) (c : String) → read_nat 0 (show_nat n ++ ("-" ++ c)) ≡ (n, "-" ++ c)
read_back n c = read_nat-show_nat n ("-" ++ c) ∙ read_nat-dash n c

-- the number and the container are read from their text
read_one :
    (n m : ℕ) (c d : String)
    → show_nat n ++ ("-" ++ c) ≡ show_nat m ++ ("-" ++ d)
    → (n ≡ m) × (c ≡ d)
read_one n m c d e =
    let same = sym (read_back n c) ∙ ap (read_nat 0) e ∙ read_back m d in
    (ap (λ p. p.0) same, append_cancel_left "-" c d (ap (λ p. p.1) same))

zero-dash : (c : String) → strip_prefix "-" (show_nat 0 ++ c) ≡ none
unfolding strip_prefix show_nat
zero-dash c = rw (cons-append "0" "" c) refl

-- no number that is not negative starts as a negative one
signs : (n m : ℕ) (c d : String) → show_nat n ++ ("-" ++ c) ≡ ("-" ++ show_nat m) ++ ("-" ++ d) → ⊥
signs n m c d e =
    let right = append_assoc "-" (show_nat m) ("-" ++ d) in
    let zero_n = sym (
      ap (λ p. p.0)
        (sym (read_back n c)
          ∙ ap (read_nat 0) (e ∙ right)
          ∙ read_nat-dash 0 (show_nat m ++ ("-" ++ d)))) in
    let starts =
      sym (zero-dash ("-" ++ c))
      ∙ ap (λ k. strip_prefix "-" (show_nat k ++ ("-" ++ c))) zero_n
      ∙ ap (strip_prefix "-") (e ∙ right)
      ∙ strip_prefix-append "-" (show_nat m ++ ("-" ++ d)) in
    cc starts

minus :
    (n : ℕ) (c : String)
    → show_int (negsuc n) ++ ("-" ++ c) ≡ ("-" ++ show_nat (suc n)) ++ ("-" ++ c)
unfolding show_int
minus n c = ap (λ s. ("-" ++ s) ++ ("-" ++ c)) (append-nil (show_nat (suc n)))

negative :
    (n : ℕ) (c : String)
    → show_int (negsuc n) ++ ("-" ++ c) ≡ "-" ++ (show_nat (suc n) ++ ("-" ++ c))
negative n c = minus n c ∙ append_assoc "-" (show_nat (suc n)) ("-" ++ c)

read_round :
    (r q : ℤ) (c d : String)
    → show_int r ++ ("-" ++ c) ≡ show_int q ++ ("-" ++ d)
    → (r ≡ q) × (c ≡ d)
unfolding show_int
read_round (pos n) (pos m) c d e = let (a, b) = read_one n m c d e in (ap pos a, b)
read_round (pos n) (negsuc m) c d e = absurd (signs n (suc m) c d (e ∙ minus m d))
read_round (negsuc n) (pos m) c d e = absurd (signs m (suc n) d c (sym e ∙ minus n c))
read_round (negsuc n) (negsuc m) c d e =
    let inner = append_cancel_left "-" _ _ (sym (negative n c) ∙ e ∙ negative m d) in
    let (a, b) = read_one (suc n) (suc m) c d inner in (ap negsuc (omega arith), b)

-- The tasks of one SnapshotPod have different names wherever their rounds, which may be negative,
-- or their containers differ.
pub task_name-Injective :
    (name : String) (r q : ℤ) (c d : String)
    → task_name name r c ≡ task_name name q d
    → (r ≡ q) × (c ≡ d)
unfolding task_name
task_name-Injective name r q c d e =
    let inner = append_cancel_left "-" _ _ (append_cancel_left name _ _ e) in
    let (a, b) = read_round r q _ _ inner in (a, sym (append-nil c) ∙ b ∙ append-nil d)
