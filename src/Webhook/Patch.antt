-- ===== src/Webhook/Patch.antt =====
-- internal/webhooks/pod.go: the patch of a pod that is created.
use kube_snapshot.Base.{
  ℕ, zero, suc, ◌+◌, String, ◌≡◌, sym, ◌∙◌, ap, true, Option, none, some, List, [], ◌∷◌, ◌==◌,
  arith, get_elem?, lookup, sprint, show_nat, inl, inr, Bool-cases, Option-cases,
}
use mathlib.Core.Path.{subst}
use mathlib.Core.List.Memᴰ
use mathlib.Core.List.{Memᴰ}
use kube_snapshot.Api.{PodObject, Container}
use kube_snapshot.Webhook.Images.{ImageConfig, Images}
use kube_snapshot.Webhook.Handle.{text_value, image_op, secret_ops, container_ops, patch_ops}

some-injective : {A : Type 0} {a b : A} → some a ≡ some b → a ≡ b
some-injective {A} {a} {b} e = ap (λ (o : Option A). elim o as (λ x. A) [ some x ↦ x | none ↦ a ]) e

module _ (secrets : List String) (k : String) (ic : ImageConfig) {c : Container}
    (named : (c.name == k) ≡ true) where
  container_ops-Memᴰ :
      (j i : ℕ) (cs : List Container)
      → get_elem? cs i ≡ some c
      → Memᴰ (image_op (j + i) ic) (container_ops secrets k ic j cs)
  unfolding container_ops
  container_ops-Memᴰ j i [] there = cc
  container_ops-Memᴰ j zero (d ∷ cs) there =
      let same : d.name == k ≡ true =
        ap (λ (x : Container). x.name == k) (some-injective there) ∙ named in
      rw same (Memᴰ.head (ap (λ n. image_op n ic) (omega arith)))
  container_ops-Memᴰ j (suc i) (d ∷ cs) there =
      let rest =
        subst (λ n. Memᴰ (image_op n ic) (container_ops secrets k ic (j + 1) cs)) (omega arith)
          (container_ops-Memᴰ (j + 1) i cs there) in
      elim (Bool-cases (d.name == k)) [
        | inl hit ↦ rw hit (Memᴰ.tail (Memᴰ.append_right (secret_ops secrets ic.pull_secret) rest))
        | inr miss ↦ rw miss rest
      ]

-- Where the keys of the map are listed, in any order, each container of the pod whose name has an
-- image in the map has an operation of the patch that replaces "/spec/containers/<i>/image", for its
-- index, by that image.
pub patch_ops-Memᴰ :
    (ks : List String) (out : Images) (p : PodObject) (k : String) (ic : ImageConfig) (i : ℕ)
    (c : Container)
    → Memᴰ k ks
    → lookup k out ≡ some ic
    → get_elem? p.containers i ≡ some c
    → (c.name == k) ≡ true
    → Memᴰ
        (record {
          operation = "replace";
          path = sprint ("/spec/containers/" ∷ show_nat i ∷ "/image" ∷ []);
          value = text_value ic.image;
        })
        (patch_ops ks out p)
unfolding patch_ops
patch_ops-Memᴰ [] out p k ic i c m found there named = elim m [ ]
patch_ops-Memᴰ (j ∷ ks) out p k ic i c (Memᴰ.head e) found there named =
    let here : lookup j out ≡ some ic = ap (λ x. lookup x out) (sym e) ∙ found in
    let called : c.name == j ≡ true = ap (λ x. c.name == x) (sym e) ∙ named in
    rw (patch_ops, here)
      (Memᴰ.append_left _ (
        subst (λ n. Memᴰ (image_op n ic) (container_ops p.image_pull_secrets j ic 0 p.containers))
          (omega arith)
          (container_ops-Memᴰ p.image_pull_secrets j ic called 0 i p.containers there)))
patch_ops-Memᴰ (j ∷ ks) out p k ic i c (Memᴰ.tail m) found there named =
    let rest = patch_ops-Memᴰ ks out p k ic i c m found there named in
    elim (Option-cases (lookup j out)) [
      | inl missing ↦ rw (patch_ops, missing) rest
      | inr (other, e) ↦ rw (patch_ops, e) (Memᴰ.append_right _ rest)
    ]
