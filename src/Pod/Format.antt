-- ===== src/Pod/Format.antt =====
-- internal/controller/snapshotpod_controller.go: what `renderNewImageName` makes of a format.
use kube_snapshot.Base.{
  String, true, false, List, [], ◌∷◌, ◌≡◌, refl, sym, ap, ◌∙◌, inl, inr, All, contains_text,
  lookup_text, replace_all, sprint, split, last_text, ◌==◌, ◌||◌, if◌then◌else◌, Bool-cases, ◌⊎◌,
  eq_refl,
}
use Prim.Native.String.{◌++◌}
use mathlib.Core.Bool.{or_comm, or_assoc}
use kube_snapshot.Base.Replace.{
  lacks, differs, replace_all-empty, replace_all-lacks, replace_all-here, replace_all-differs,
  split-lacks, last_text-lacks,
}
use kube_snapshot.World.{Reference, Env, Trace}
use kube_snapshot.Pod.Image.{format_values, origin_tag, replace_keys}

-- what a format may ask for of the image that a container runs
pub data Key : Type 0 where
  domain last_repository repository tag : Key

abbrev pub key_name : Key → String
key_name domain = "domain"
key_name last_repository = "last_repository"
key_name repository = "repository"
key_name tag = "tag"

abbrev pub value_of : Reference → Key → String
value_of ref domain = ref.domain
value_of ref last_repository = last_text (split ref.path "/")
value_of ref repository = ref.path
value_of ref tag = origin_tag ref

-- a format, as its author means it
pub data Piece : Type 0 where
  literal : String → Piece
  key : Key → Piece

-- the key with the closing brace
abbrev pub closed_key : Key → String
closed_key k = key_name k ++ "}"

-- the text of a format, in which a key stands between braces
abbrev pub written : List Piece → String
written [] = ""
written (literal s ∷ ps) = s ++ written ps
written (key k ∷ ps) = String.◌∷◌ "{" (closed_key k ++ written ps)

-- the format with the values of an image in place of the keys
abbrev pub filled : Reference → List Piece → String
filled ref [] = ""
filled ref (literal s ∷ ps) = s ++ filled ref ps
filled ref (key k ∷ ps) = value_of ref k ++ filled ref ps

-- no literal has an opening brace
abbrev pub IsFormat : List Piece → Type 0
IsFormat [] = Unit
IsFormat (literal s ∷ ps) = (lacks "{" s ≡ true) × IsFormat ps
IsFormat (key k ∷ ps) = IsFormat ps

-- A reference whose parts have no opening brace, as the grammar of image references has it.
pub record IsPlain (ref : Reference) : Type 0 where
  pub plain_domain : lacks "{" ref.domain ≡ true
  pub plain_path : lacks "{" ref.path ≡ true
  pub plain_tag : lacks "{" (origin_tag ref) ≡ true

-- A range over a map visits its keys, in some order.
pub record ListsKeys (env : Env) : Type 0 where
  pub visits :
      (tr : Trace) (keys : List String) (k : String)
      → contains_text (env.key_order tr keys) k ≡ contains_text keys k

-- the format once the keys `done` are replaced
abbrev pub partly : List String → Reference → List Piece → String
partly done ref [] = ""
partly done ref (literal s ∷ ps) = s ++ partly done ref ps
partly done ref (key k ∷ ps) =
    let rest = partly done ref ps in
    if contains_text done (key_name k)
    then value_of ref k ++ rest
    else String.◌∷◌ "{" (closed_key k ++ rest)

value_of-lacks : (ref : Reference) → IsPlain ref → (k : Key) → lacks "{" (value_of ref k) ≡ true
value_of-lacks ref plain domain = plain.plain_domain
value_of-lacks ref plain last_repository =
    last_text-lacks "{" _ (split-lacks "{" ref.path "/" plain.plain_path)
value_of-lacks ref plain repository = plain.plain_path
value_of-lacks ref plain tag = plain.plain_tag

closed_key-lacks : (k : Key) → lacks "{" (closed_key k) ≡ true
closed_key-lacks domain = refl
closed_key-lacks last_repository = refl
closed_key-lacks repository = refl
closed_key-lacks tag = refl

lookup_value :
    (ref : Reference) (k : Key) → lookup_text (key_name k) (format_values ref) ≡ value_of ref k
lookup_value ref domain = refl
lookup_value ref last_repository = refl
lookup_value ref repository = refl
lookup_value ref tag = refl

old_text : (k : Key) → sprint ("{" ∷ key_name k ∷ "}" ∷ []) ≡ String.◌∷◌ "{" (closed_key k)
old_text domain = refl
old_text last_repository = refl
old_text repository = refl
old_text tag = refl

-- two keys are the same, or no text has both at one place
abbrev Apart : Key → Key → Type 0
Apart k j = (key_name k == key_name j ≡ false) × (differs (closed_key k) (closed_key j) ≡ true)

Key-cases : (k j : Key) → (k ≡ j) ⊎ Apart k j
Key-cases domain domain = inl refl
Key-cases domain last_repository = inr (refl, refl)
Key-cases domain repository = inr (refl, refl)
Key-cases domain tag = inr (refl, refl)
Key-cases last_repository domain = inr (refl, refl)
Key-cases last_repository last_repository = inl refl
Key-cases last_repository repository = inr (refl, refl)
Key-cases last_repository tag = inr (refl, refl)
Key-cases repository domain = inr (refl, refl)
Key-cases repository last_repository = inr (refl, refl)
Key-cases repository repository = inl refl
Key-cases repository tag = inr (refl, refl)
Key-cases tag domain = inr (refl, refl)
Key-cases tag last_repository = inr (refl, refl)
Key-cases tag repository = inr (refl, refl)
Key-cases tag tag = inl refl

module _ (ref : Reference) (plain : IsPlain ref) where
  replace_all-key :
      (k j : Key) (done : List String) (s t : String)
      → replace_all s (String.◌∷◌ "{" (closed_key k)) (value_of ref k) ≡ t
      → replace_all
          (if contains_text done (key_name j)
            then value_of ref j ++ s
            else String.◌∷◌ "{" (closed_key j ++ s))
          (String.◌∷◌ "{" (closed_key k))
          (value_of ref k)
        ≡ (if contains_text (key_name k ∷ done) (key_name j)
            then value_of ref j ++ t
            else String.◌∷◌ "{" (closed_key j ++ t))
  replace_all-key k j done s t e = elim (Bool-cases (contains_text done (key_name j))) [
    | inl there ↦
        rw (there, or_comm (key_name k == key_name j) true)
          (replace_all-lacks "{" (closed_key k) (value_of ref k) (value_of ref j) s
              (value_of-lacks ref plain j)
            ∙ ap (λ x. value_of ref j ++ x) e)
    | inr open_yet ↦ elim (Key-cases k j) [
      | inl one ↦
          rw (open_yet, sym one, eq_refl (key_name k))
            (replace_all-here "{" (closed_key k) (value_of ref k) s
              ∙ ap (λ x. value_of ref k ++ x) e)
      | inr (other, apart) ↦
          rw (open_yet, other)
            (replace_all-differs "{" (closed_key k) (value_of ref k) (closed_key j) s apart
                (closed_key-lacks j)
              ∙ ap (λ x. String.◌∷◌ "{" (closed_key j ++ x)) e)
    ]
  ]

  replace_all-partly :
      (k : Key) (done : List String) (ps : List Piece)
      → IsFormat ps
      → replace_all (partly done ref ps) (String.◌∷◌ "{" (closed_key k)) (value_of ref k)
        ≡ partly (key_name k ∷ done) ref ps
  replace_all-partly k done [] f = replace_all-empty "{" "" (value_of ref k) _
  replace_all-partly k done (literal s ∷ ps) f =
      replace_all-lacks "{" (closed_key k) (value_of ref k) s _ f.0
      ∙ ap (λ x. s ++ x) (replace_all-partly k done ps f.1)
  replace_all-partly k done (key j ∷ ps) f =
      replace_all-key k j done _ _ (replace_all-partly k done ps f)

  partly-filled :
      (done : List String) (ps : List Piece)
      → ((k : Key) → contains_text done (key_name k) ≡ true)
      → partly done ref ps ≡ filled ref ps
  partly-filled done [] all = refl
  partly-filled done (literal s ∷ ps) all = ap (λ x. s ++ x) (partly-filled done ps all)
  partly-filled done (key k ∷ ps) all =
      rw (all k) (ap (λ x. value_of ref k ++ x) (partly-filled done ps all))

  pub replace_keys-partly :
      (ks : List String) (done : List String) (ps : List Piece)
      → IsFormat ps
      → All (λ s. (k : Key) × (s ≡ key_name k)) ks
      → ((k : Key) → (contains_text done (key_name k) || contains_text ks (key_name k)) ≡ true)
      → replace_keys ks (format_values ref) (partly done ref ps) ≡ filled ref ps
  unfolding replace_keys
  replace_keys-partly [] done ps f known all =
      partly-filled done ps (λ k. sym (or_comm (contains_text done (key_name k)) false) ∙ all k)
  replace_keys-partly (s ∷ ks) done ps f ((k, is), known) all =
      rw (is, old_text k, lookup_value ref k, replace_all-partly k done ps f)
        (replace_keys-partly ks (key_name k ∷ done) ps f known λ j.
          let a = key_name k == key_name j in
          let b = contains_text done (key_name j) in
          let c = contains_text ks (key_name j) in
          ap (λ x. x || c) (or_comm a b)
          ∙ or_assoc b a c
          ∙ ap (λ x. b || ((x == key_name j) || c)) (sym is)
          ∙ all j)
