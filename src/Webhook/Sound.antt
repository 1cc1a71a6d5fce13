-- ===== src/Webhook/Sound.antt =====
-- internal/webhooks/pod.go: the patch of a pod that is created changes nothing else.
use kube_snapshot.Base.{
  ℕ, suc, ◌+◌, String, ◌≡◌, refl, sym, true, some, List, [], ◌∷◌, ◌==◌, arith, get_elem?, false,
  is_empty, contains_text, sprint, show_nat, lookup, inl, inr, ◌⊎◌, Bool-cases, Option-cases, All,
  eq_iff,
}
use mathlib.Core.Path.{subst}
use kube_snapshot.Base.AllLaws.{All-append, All-map_each}
use kube_snapshot.Api.{PodObject, Container}
use kube_snapshot.Webhook.Images.{ImageConfig, Images}
use kube_snapshot.Webhook.Handle.{
  PatchOp, text_value, secret_value, secrets_value, secret_ops, container_ops, patch_ops,
}

-- the image of a container of the pod, as the map has it for the container's name
pub record SetsImage (out : Images) (p : PodObject) (op : PatchOp) : Type 0 where
  pub index : ℕ
  pub container : Container
  pub image : ImageConfig
  pub stands : get_elem? p.containers index ≡ some container
  pub chosen : lookup container.name out ≡ some image
  pub is_op : op ≡ record {
    operation = "replace";
    path = sprint ("/spec/containers/" ∷ show_nat index ∷ "/image" ∷ []);
    value = text_value image.image;
  }

-- The secret is added to the list `secrets`: as a list of its own where there is none, as nil is no
-- array, and otherwise at the end.
pub data Adds (secrets : List String) (secret : String) : PatchOp → Type 0 where
  first :
      {op : PatchOp}
      → secrets ≡ []
      → op ≡ record {
        operation = "add";
        path = "/spec/imagePullSecrets";
        value = secrets_value (secret ∷ []);
      }
      → Adds secrets secret op
  later :
      {op : PatchOp} (old : String) (others : List String)
      → secrets ≡ old ∷ others
      → op ≡ record {
        operation = "add";
        path = "/spec/imagePullSecrets/-";
        value = secret_value secret;
      }
      → Adds secrets secret op

-- the pull secret of an image of the map for a container of the pod, which the pod does not have
pub record AddsSecret (out : Images) (p : PodObject) (op : PatchOp) : Type 0 where
  pub index : ℕ
  pub container : Container
  pub image : ImageConfig
  pub stands : get_elem? p.containers index ≡ some container
  pub chosen : lookup container.name out ≡ some image
  pub some_secret : is_empty image.pull_secret ≡ false
  pub is_missing : contains_text p.image_pull_secrets image.pull_secret ≡ false
  pub adds : Adds p.image_pull_secrets image.pull_secret op

abbrev pub Patches : Images → PodObject → PatchOp → Type 0
Patches out p op = SetsImage out p op ⊎ AddsSecret out p op

-- the operation adds a secret that is named and missing
abbrev IsWanted : List String → String → PatchOp → Type 0
IsWanted secrets secret op =
    (is_empty secret ≡ false) × (contains_text secrets secret ≡ false) × Adds secrets secret op

secret_ops-IsWanted :
    (secrets : List String) (secret : String)
    → All (IsWanted secrets secret) (secret_ops secrets secret)
secret_ops-IsWanted [] secret = elim (Bool-cases (is_empty secret)) [
  | inl e ↦ rw e tt
  | inr named ↦ rw named ((named, refl, first refl refl), tt)
]
secret_ops-IsWanted (old ∷ others) secret = elim (Bool-cases (is_empty secret)) [
  | inl e ↦ rw e tt
  | inr named ↦ elim (Bool-cases (contains_text (old ∷ others) secret)) [
    | inl e ↦ rw (named, e) tt
    | inr missing ↦ rw (named, missing) ((named, missing, later old others refl refl), tt)
  ]
]

same_name : (a b : String) → (a == b) ≡ true → a ≡ b
same_name a b h = ground (arith, eq_iff a b)

module _ (out : Images) (p : PodObject) (k : String) (ic : ImageConfig)
    (found : lookup k out ≡ some ic) where
  -- the rest `cs` of the containers, from the index `i`
  container_ops-Patches :
      (i : ℕ) (cs : List Container)
      → ((j : ℕ) (c : Container)
          → get_elem? cs j ≡ some c
          → get_elem? p.containers (i + j) ≡ some c)
      → All (Patches out p) (container_ops p.image_pull_secrets k ic i cs)
  unfolding container_ops
  container_ops-Patches i [] at = tt
  container_ops-Patches i (c ∷ cs) at =
      let rest =
        container_ops-Patches (i + 1) cs (λ j d e.
          subst (λ n. get_elem? p.containers n ≡ some d) (omega arith) (at (suc j) d e)) in
      elim (Bool-cases (c.name == k)) [
        | inr miss ↦ rw miss rest
        | inl hit ↦
            let stands : get_elem? p.containers i ≡ some c =
              subst (λ n. get_elem? p.containers n ≡ some c) (omega arith) (at 0 c refl) in
            let chosen : lookup c.name out ≡ some ic =
              subst (λ n. lookup n out ≡ some ic) (sym (same_name c.name k hit)) found in
            rw hit (
              inl (record {
                index = i;
                container = c;
                image = ic;
                stands = stands;
                chosen = chosen;
                is_op = refl;
              }),
              All-append (Patches out p) (secret_ops p.image_pull_secrets ic.pull_secret) _
                  (All-map_each (secret_ops p.image_pull_secrets ic.pull_secret)
                    (λ op (some_secret, missing, adds). inr (record {
                      index = i;
                      container = c;
                      image = ic;
                      stands = stands;
                      chosen = chosen;
                      some_secret = some_secret;
                      is_missing = missing;
                      adds = adds;
                    }))
                    (secret_ops-IsWanted p.image_pull_secrets ic.pull_secret))
                  rest,
            )
      ]

-- Whatever the order of the map's keys, every operation of the patch replaces the image of a
-- container of the pod, under "/spec/containers/<i>/image" for its index, by the one that the map has
-- for its name; or it adds the pull secret of such an image, which is not empty and not among the
-- pod's: as the list "/spec/imagePullSecrets" where the pod has none, and at its end otherwise.
pub patch_ops-Patches :
    (ks : List String) (out : Images) (p : PodObject) → All (Patches out p) (patch_ops ks out p)
unfolding patch_ops
patch_ops-Patches [] out p = tt
patch_ops-Patches (k ∷ ks) out p = elim (Option-cases (lookup k out)) [
  | inl missing ↦ rw (patch_ops, missing) (patch_ops-Patches ks out p)
  | inr (ic, found) ↦
      rw (patch_ops, found)
        (All-append (Patches out p) (container_ops p.image_pull_secrets k ic 0 p.containers) _
          (container_ops-Patches out p k ic found 0 p.containers
            (λ j c e. subst (λ n. get_elem? p.containers n ≡ some c) (omega arith) e))
          (patch_ops-Patches ks out p))
]
