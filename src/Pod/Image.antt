-- ===== src/Pod/Image.antt =====
-- internal/controller/snapshotpod_controller.go: `withRandomTag` and `renderNewImageName`.
use kube_snapshot.Base.{
  ◌/◌, String, Bool, Option, none, some, List, [], ◌∷◌, contains, replace_all, split, sprint,
  last_text, take_text, is_empty, lookup_text, ◌==◌, ◌||◌, map, not, if◌then◌else◌,
}
use kube_snapshot.Base.Int.{ℤ, sub_ℕ, show_int}
use kube_snapshot.Api.{Time, second}
use kube_snapshot.World.{
  Result, err, Reference, Env, M, ◌>>=◌, pure, panic, ask, handle, now, new_uuid, range_keys,
}

-- `Unix()`: the seconds from Go's zero time to 1970 are 62135596800
abbrev pub unix_seconds : Time → ℤ
unix_seconds t = sub_ℕ (t / second) 62135596800

-- `strings.ReplaceAll(uuid, "-", "")[:8]`, which panics on a text that is shorter
abbrev pub short_uuid : String → Option String
short_uuid u = take_text 8 (replace_all u "-" "")

abbrev pub join_tag : String → String → String
join_tag tag suffix =
    if is_empty tag || tag == "latest" then suffix else sprint (tag ∷ "-" ∷ suffix ∷ [])

unfoldable pub tag_with : String → Time → Option String → M String
tag_with tag t none = panic
tag_with tag t (some short) =
    pure (join_tag tag (sprint ("snapped-" ∷ show_int (unix_seconds t) ∷ "-" ∷ short ∷ [])))

-- `v.Tag()`, else `v.Digest().Hex()`, else nothing
abbrev pub origin_tag : Reference → String
origin_tag ref = elim ref.tag [ some t ↦ t | none ↦ elim ref.digest_hex [ some d ↦ d | none ↦ "" ] ]

abbrev pub tag_or_empty : Reference → String
tag_or_empty ref = elim ref.tag [ some t ↦ t | none ↦ "" ]

-- the map `m` of the keys of the format
abbrev pub format_values : Reference → List (String × String)
format_values ref =
    ("domain", ref.domain)
    ∷ ("last_repository", last_text (split ref.path "/"))
    ∷ ("repository", ref.path)
    ∷ ("tag", origin_tag ref)
    ∷ []

-- `for k, v := range m { … }`
unfoldable pub replace_keys : List String → List (String × String) → String → String
replace_keys [] m format = format
replace_keys (k ∷ ks) m format =
    replace_keys ks m (replace_all format (sprint ("{" ∷ k ∷ "}" ∷ [])) (lookup_text k m))

module _ (env : Env) where
  unfoldable pub with_random_tag : String → Bool → M String
  with_random_tag tag append =
      if not append
      then pure tag
      else if contains tag "snapped-"
      then pure tag
      else do t ← ask now env.clock; u ← ask new_uuid env.uuid; tag_with tag t (short_uuid u)

  unfoldable pub render_new_image_name : String → String → Bool → M (Result String)
  render_new_image_name origin format append =
      handle (env.parse_reference origin) (λ e. pure (err e))
        λ ref. do
          keys ← range_keys env (map (λ e. e.0) (format_values ref))
          handle (env.parse_reference (replace_keys keys (format_values ref) format))
              (λ e. pure (err e))
              λ new_ref. do
                tag ← with_random_tag (tag_or_empty new_ref) append
                pure (env.with_tag new_ref tag)
