-- ===== src/Condition.antt =====
-- What the two reconcilers share of the status conditions: the search for a condition by its type
-- with the one that is appended where there is none (internal/controller/snapshotpod_controller.go
-- and snapshotpodtask_controller.go), and `cmpConditionWithoutTime`.
pub mod Done
pub mod Types
use kube_snapshot.Base.{
  ℕ, String, Bool, Option, none, some, List, [], ◌∷◌, ◌++◌, ◌&&◌, ◌==◌, length, find_index, sprint,
}
use kube_snapshot.Api.{Time, Condition, cond_unknown, same_status}
use kube_snapshot.World.{Env, M, ◌>>=◌, pure, ask, now}

abbrev pub new_condition : String → Time → Condition
new_condition typ t = record {
  typ = typ;
  status = cond_unknown;
  reason = sprint (typ ∷ "Ready" ∷ []);
  message = "";
  last_transition_time = t;
}

abbrev pub index_of : String → List Condition → Option ℕ
index_of typ cs = find_index (λ c. c.typ == typ) cs

-- the branch on `ok` of the search
unfoldable pub ensure_at : Env → String → List Condition → Option ℕ → M (ℕ × List Condition)
ensure_at env typ cs (some i) = pure (i, cs)
ensure_at env typ cs none = do
  t ← ask now env.clock
  pure (length cs, cs ++ new_condition typ t ∷ [])

-- the conditions with one of the type, and its index
unfoldable pub ensure_condition : Env → String → List Condition → M (ℕ × List Condition)
ensure_condition env typ cs = ensure_at env typ cs (index_of typ cs)

unfoldable pub cmp_condition_without_time : Condition → Condition → Bool
cmp_condition_without_time c d =
    same_status c.status d.status
    && (c.message == d.message && (c.reason == d.reason && c.typ == d.typ))
