-- ===== src/Pod/Rendered.antt =====
-- internal/controller/snapshotpod_controller.go: the image that `renderNewImageName` names for a
-- format, whatever the order in which it replaces the keys.
use kube_snapshot.Base.{
  String, Bool, true, false, List, [], ◌∷◌, ◌≡◌, refl, sym, ap, ◌∙◌, inl, inr, All, contains_text,
  ◌==◌, ◌||◌, eq_iff, Bool-cases, map, eq_refl,
}
use Prim.Native.String.{◌++◌}
use mathlib.Core.Bool.{or_comm}
use kube_snapshot.World.{Reference, Env, Trace, Call, ok, range_keys}
use kube_snapshot.World.Logic.{same, Runs, Runs-pure, Runs-bind}
use kube_snapshot.Pod.Image.{
  format_values, tag_or_empty, replace_keys, with_random_tag, render_new_image_name,
}
use kube_snapshot.Pod.Sound.{HasUuids}
use kube_snapshot.Pod.Tags.{ClockOrUuid, Marked, with_random_tag-Marked}
use kube_snapshot.Pod.Format.{
  Key, domain, last_repository, repository, tag, key_name, Piece, literal, key, closed_key, written,
  filled, IsFormat, IsPlain, ListsKeys, partly, replace_keys-partly,
}

partly-nil : (ref : Reference) (ps : List Piece) → partly [] ref ps ≡ written ps
partly-nil ref [] = refl
partly-nil ref (literal s ∷ ps) = ap (λ x. s ++ x) (partly-nil ref ps)
partly-nil ref (key k ∷ ps) = ap (λ x. String.◌∷◌ "{" (closed_key k ++ x)) (partly-nil ref ps)

named_key :
    (s : String) (ks : List Key)
    → contains_text (map key_name ks) s ≡ true
    → (k : Key) × (s ≡ key_name k)
named_key s [] h = cc
named_key s (k ∷ ks) h = elim (Bool-cases (key_name k == s)) [
  | inl e ↦ (k, sym ((eq_iff (key_name k) s).0 e))
  | inr e ↦ named_key s ks (sym (ap (λ b. b || contains_text (map key_name ks) s) e) ∙ h)
]

abbrev keys : List Key
keys = domain ∷ last_repository ∷ repository ∷ tag ∷ []

All-named :
    (ss : List String)
    → ((s : String) → contains_text ss s ≡ true → contains_text (map key_name keys) s ≡ true)
    → All (λ s. (k : Key) × (s ≡ key_name k)) ss
All-named [] w = tt
All-named (s ∷ ss) w = (
  named_key s keys (w s (rw (eq_refl s) refl)),
  All-named ss (λ x h. w x (rw h (or_comm (s == x) true))),
)

is_listed : (k : Key) → contains_text (map key_name keys) (key_name k) ≡ true
is_listed domain = refl
is_listed last_repository = refl
is_listed repository = refl
is_listed tag = refl

replace_keys-filled :
    (env : Env)
    → ListsKeys env
    → (ref : Reference) → IsPlain ref
    → (ps : List Piece) → IsFormat ps
    → (tr : Trace)
    → replace_keys
        (env.key_order tr (map (λ e. e.0) (format_values ref)))
        (format_values ref)
        (written ps)
      ≡ filled ref ps
replace_keys-filled env ranges ref plain ps f tr =
    let names = map key_name keys in
    let visited = ranges.visits tr names in
    ap (replace_keys (env.key_order tr names) (format_values ref)) (sym (partly-nil ref ps))
    ∙ replace_keys-partly ref plain (env.key_order tr names) [] ps f
        (All-named (env.key_order tr names) (λ s h. sym (visited s) ∙ h))
        (λ k. visited (key_name k) ∙ is_listed k)

-- the tag of the new image, by whether the suffix is asked for
abbrev pub Tagged : Env → Bool → String → String → Type 0
Tagged env true given t = Marked env given t
Tagged env false given t = t ≡ given

range_keys-Runs_with :
    {P : Call → Type 0} {Q : List String → Type 0} (env : Env) (ks : List String)
    → ((tr : Trace) → Q (env.key_order tr ks))
    → Runs P Q (range_keys env ks)
unfolding range_keys
range_keys-Runs_with env ks q = record { calls = λ tr. same; result = q }

module _ (env : Env) (uuids : HasUuids env) (ranges : ListsKeys env) where
  with_random_tag-Tagged :
      (append : Bool) (given : String)
      → Runs ClockOrUuid (Tagged env append given) (with_random_tag env given append)
  unfolding with_random_tag
  with_random_tag-Tagged true given = with_random_tag-Marked env uuids given
  with_random_tag-Tagged false given = Runs-pure given refl

  -- Where uuids have eight characters besides their dashes, and a range over a map visits its keys in
  -- whatever order: for a format of literals without an opening brace and of keys between braces, an
  -- origin that parses as a reference whose parts have no opening brace, and where the format with
  -- the values of the origin in place of its keys parses, `renderNewImageName` returns, after no call but of the
  -- clock and of a uuid, what `WithTag` makes of the reference so parsed and a tag, which without the suffix is the tag
  -- of the reference, and with it begins with that tag, unless that is empty or "latest", and is not
  -- marked again.
  pub render_new_image_name-filled :
      (ps : List Piece)
      → IsFormat ps
      → (append : Bool) (origin : String) (ref new_ref : Reference) → IsPlain ref
      → env.parse_reference origin ≡ ok ref
      → env.parse_reference (filled ref ps) ≡ ok new_ref
      → Runs ClockOrUuid
          (λ r.
            (t : String) × (r ≡ env.with_tag new_ref t)
            × Tagged env append (tag_or_empty new_ref) t)
          (render_new_image_name env origin (written ps) append)
  unfolding render_new_image_name
  render_new_image_name-filled ps f append origin ref new_ref plain parsed new_parsed = rw parsed (
      Runs-bind {Q = λ ks. replace_keys ks (format_values ref) (written ps) ≡ filled ref ps} _ _
        (range_keys-Runs_with env _ (replace_keys-filled env ranges ref plain ps f))
        λ ks e.
          rw (e, new_parsed)
            (Runs-bind _ _ (with_random_tag-Tagged append (tag_or_empty new_ref))
              λ t tagged. Runs-pure _ (t, refl, tagged)))
