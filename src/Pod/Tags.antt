-- ===== src/Pod/Tags.antt =====
-- internal/controller/snapshotpod_controller.go: the tags that `withRandomTag` gives.
use kube_snapshot.Base.{
  String, ◌≡◌, refl, sym, ◌∙◌, true, false, Option, none, some, inl, inr, contains, is_empty, ◌==◌,
  ◌||◌, Bool-cases, [], ◌∷◌, sprint,
}
use Prim.Native.String.{◌++◌}
use text.Mathlib.TextLemmas.{append-nil}
use kube_snapshot.Base.Strings.{contains-prefix, contains-append}
use kube_snapshot.Api.{Time}
use kube_snapshot.Base.Int.{show_int}
use kube_snapshot.World.{Call, Trace, Env, returns, now, new_uuid, pure}
use kube_snapshot.World.Logic.{Runs, Runs-pure, Runs-ask, Runs-if, Runs-bind, Runs-bind_free}
use kube_snapshot.Pod.Image.{unix_seconds, short_uuid, join_tag, tag_with, with_random_tag}
use kube_snapshot.Pod.Sound.{HasUuids}

-- a tag that `withRandomTag` may give for `tag`: it gives the same tag for it, without a call, and
-- begins with `tag` unless that says nothing
pub record Marked (env : Env) (tag t : String) : Type 0 where
  pub fixed : (tr : Trace) → with_random_tag env t true tr ≡ (returns t, tr)
  pub extends : (is_empty tag || tag == "latest") ≡ false → (s : String) × (t ≡ tag ++ s)

-- the clock is read and a uuid made, and nothing else
pub data ClockOrUuid : Call → Type 0 where
  clock : ClockOrUuid now
  uuid : ClockOrUuid new_uuid

module _ (env : Env) where
  keeps_marked :
      (t : String)
      → contains t "snapped-" ≡ true
      → (tr : Trace) → with_random_tag env t true tr ≡ (returns t, tr)
  unfolding with_random_tag pure
  keeps_marked t h tr = rw h refl

  join_tag-Marked : (tag s : String) → Marked env tag (join_tag tag ("snapped-" ++ s))
  join_tag-Marked tag s = elim (Bool-cases (is_empty tag || tag == "latest")) [
    | inl e ↦ record {
      fixed = keeps_marked _ (rw e (contains-prefix _ "napped-" s));
      extends = λ f. absurd (let g = sym e ∙ f in cc);
    }
    | inr e ↦ record {
      fixed = keeps_marked _ (
          rw e (
            contains-append tag _ "snapped-" (
              contains-append "-" _ "snapped-"
                (rw (append-nil ("snapped-" ++ s)) (contains-prefix _ "napped-" s)))));
      extends = λ f. ("-" ++ (("snapped-" ++ s) ++ ""), rw e refl);
    }
  ]

  tag_with-Marked :
      {P : Call → Type 0} (tag : String) (t : Time) (o : Option String)
      → (s : String) × (o ≡ some s)
      → Runs P (Marked env tag) (tag_with tag t o)
  unfolding tag_with
  tag_with-Marked tag t none (s, e) = cc
  tag_with-Marked tag t (some x) h =
      Runs-pure _ (join_tag-Marked tag (sprint (show_int (unix_seconds t) ∷ "-" ∷ x ∷ [])))

  -- Where uuids have eight characters besides their dashes, `withRandomTag` with the suffix asked
  -- for returns, after no call but of the clock and of a uuid, a tag that begins with the given tag,
  -- unless that is empty or "latest", and for which it returns the same tag without a call.
  pub with_random_tag-Marked :
      HasUuids env
      → (tag : String) → Runs ClockOrUuid (Marked env tag) (with_random_tag env tag true)
  unfolding with_random_tag
  with_random_tag-Marked uuids tag =
      Runs-if (contains tag "snapped-") _ _
        (λ h.
          Runs-pure tag
            record { fixed = keeps_marked tag h; extends = λ _. ("", sym (append-nil tag)) })
        λ _. Runs-bind_free _ _ (Runs-ask now env.clock clock (λ tr. tt)) λ t.
          Runs-bind {Q = λ u. (s : String) × (short_uuid u ≡ some s)} _ _
            (Runs-ask new_uuid env.uuid uuid uuids.at)
            λ u short. tag_with-Marked tag t (short_uuid u) short
