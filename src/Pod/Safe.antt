-- ===== src/Pod/Safe.antt =====
-- What no number of calls of `Reconcile` of a SnapshotPod breaks, by its machine.
use kube_snapshot.Base.{
  ◌≤◌, ◌-◌, String, ◌≡◌, refl, sym, ◌∙◌, ap, true, false, List, [], ◌∷◌, ◌++◌, inl, inr, arith,
  length, ltb, All, Pairwise, Bool-cases,
}
use mathlib.Core.Bool.{true≢false}
use kube_snapshot.Base.Int.{ℤ, ◌==ℤ◌, ==ℤ_refl}
use kube_snapshot.Base.AllLaws.{
  All-drop, All-append, Pairwise-All, Pairwise-refl, Pairwise-trans, Pairwise-map_each,
  Pairwise-length, All-map_each,
}
use kube_snapshot.Api.{
  succeed, failed, created, SnapshotRunningResult, SnapshotPodTaskPhase, phase_completed,
}
use kube_snapshot.Pod.Sound.{length-drop}
use kube_snapshot.Pod.Machine.{
  is_final, Entry, View, append_entry, append_entries, Next, stays, succeeds, fails, lost, Step,
  list, close, follow, Reach, stay, go,
}

append_entry-few : (es : List Entry) (e : Entry) → length (append_entry es e) ≤ 20
unfolding append_entry
append_entry-few es e = ground (arith, length-drop (length (es ++ e ∷ []) - 5) (es ++ e ∷ []))

-- the same snapshot, which stays as it is once it has ended
pub record Stays (e e' : Entry) : Type 0 where
  pub same_round : e'.round ≡ e.round
  pub same_task : e'.task ≡ e.task
  pub same_image : e'.image ≡ e.image
  pub same_container : e'.container ≡ e.container
  pub same_end : is_final e.result ≡ true → e'.result ≡ e.result

pub Stays-refl : (e : Entry) → Stays e e
Stays-refl e = record {
  same_round = refl;
  same_task = refl;
  same_image = refl;
  same_container = refl;
  same_end = λ _. refl;
}

pub Stays-trans : (e f g : Entry) → Stays e f → Stays f g → Stays e g
Stays-trans e f g a b = record {
  same_round = b.same_round ∙ a.same_round;
  same_task = b.same_task ∙ a.same_task;
  same_image = b.same_image ∙ a.same_image;
  same_container = b.same_container ∙ a.same_container;
  same_end = λ h. b.same_end (ap is_final (a.same_end h) ∙ h) ∙ a.same_end h;
}

module _ (Seen : String → SnapshotPodTaskPhase → Type 0) where
  -- At most twenty entries, and each that has succeeded was seen to.
  pub record IsSafe (v : View) : Type 0 where
    pub few : length v.entries ≤ 20
    pub backed : All (λ (e : Entry). e.result ≡ succeed → Seen e.task phase_completed) v.entries

  Next-backed :
      (e e' : Entry)
      → (e.result ≡ succeed → Seen e.task phase_completed)
      → Next Seen e e'
      → e'.result ≡ succeed
      → Seen e'.task phase_completed
  Next-backed e e' b stays h = b h
  Next-backed e e' b (succeeds live seen) h = seen
  Next-backed e e' b (fails live seen) h = cc h
  Next-backed e e' b (lost live) h = cc h

  -- an entry that changes has not ended
  changed :
      (e : Entry) (r : SnapshotRunningResult)
      → is_final e.result ≡ false
      → Stays e (record e { result = r })
  changed e r live = record {
    same_round = refl;
    same_task = refl;
    same_image = refl;
    same_container = refl;
    same_end = λ h. absurd (true≢false (sym h ∙ live));
  }

  pub Next-Stays : (e e' : Entry) → Next Seen e e' → Stays e e'
  Next-Stays e e' stays = Stays-refl e
  Next-Stays e e' (succeeds live seen) = changed e succeed live
  Next-Stays e e' (fails live seen) = changed e failed live
  Next-Stays e e' (lost live) = changed e created live

  append_entries-few : (new es : List Entry) → length es ≤ 20 → length (append_entries es new) ≤ 20
  append_entries-few [] es few = few
  append_entries-few (e ∷ new) es few =
      append_entries-few new (append_entry es e) (append_entry-few es e)

  append_entry-All :
      (P : Entry → Type 0) (es : List Entry) (e : Entry)
      → All P es
      → P e
      → All P (append_entry es e)
  unfolding append_entry
  append_entry-All P es e a p =
      let all = All-append P es (e ∷ []) a (p, tt) in
      elim (Bool-cases (ltb 20 (length (es ++ e ∷ [])))) [
        | inl over ↦ rw over (All-drop P (length (es ++ e ∷ []) - 5) (es ++ e ∷ []) all)
        | inr few ↦ rw few all
      ]

  append_entries-All :
      (P : Entry → Type 0) (new es : List Entry)
      → All P es
      → All P new
      → All P (append_entries es new)
  append_entries-All P [] es a b = a
  append_entries-All P (e ∷ new) es a b =
      append_entries-All P new (append_entry es e) (append_entry-All P es e a b.0) b.1

  module _ (round : ℤ) where
    Step-IsSafe : {v w : View} → Step Seen round v w → IsSafe v → IsSafe w
    Step-IsSafe (list v new open_round unlisted all_new) s = record {
      few = append_entries-few new v.entries s.few;
      backed =
          append_entries-All (λ (e : Entry). e.result ≡ succeed → Seen e.task phase_completed) new
            v.entries s.backed (All-map_each new (λ e (_, made) h. cc (made, h)) all_new);
    }
    Step-IsSafe (close v open_round listed) s = record { few = s.few; backed = s.backed }
    Step-IsSafe (follow v es next) s = record {
      few = rw (Pairwise-length (Next Seen) v.entries es next) s.few;
      backed = Pairwise-All Next-backed v.entries es s.backed next;
    }

    pub Reach-IsSafe : {v w : View} → Reach Seen round v w → IsSafe v → IsSafe w
    Reach-IsSafe stay s = s
    Reach-IsSafe (go r step) s = Step-IsSafe step (Reach-IsSafe r s)

    -- the round is closed, and the entries of `v` are those of `w`
    abbrev pub Closed : View → View → Type 0
    Closed v w = ((w.last ==ℤ round) ≡ true) × Pairwise Stays v.entries w.entries

    Step-Closed : (v : View) {u w : View} → Closed v u → Step Seen round u w → Closed v w
    Step-Closed v c (list u new open_round unlisted all_new) =
        absurd (true≢false (sym c.0 ∙ open_round))
    Step-Closed v c (close u open_round listed) = (==ℤ_refl round, c.1)
    Step-Closed v c (follow u es next) = (
      c.0,
      Pairwise-trans Stays-trans v.entries u.entries es c.1
          (Pairwise-map_each u.entries es Next-Stays next),
    )

    pub Reach-Closed : {v w : View} → (v.last ==ℤ round) ≡ true → Reach Seen round v w → Closed v w
    Reach-Closed {v} h stay = (h, Pairwise-refl Stays Stays-refl v.entries)
    Reach-Closed {v} h (go r step) = Step-Closed v (Reach-Closed h r) step
