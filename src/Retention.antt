-- ===== src/Retention.antt =====
-- prune_closed_tasks of scripts/governance_lifecycle.py.
pub mod Open
use subagent_governance.Base.{
  ℕ, zero, suc, ◌-◌, Text, Dict, erase, Option, none, some, Bool, true, false, List, [], ◌∷◌,
  if◌then◌else◌, length, ltb, ◌==◌,
}
use subagent_governance.Semantics.{Phase, closed_task_retention}
use subagent_governance.Ledger.{Task, Ledger}

-- `(closed_at, created_at, task_id)`. A missing closed_at is -1: times are kept plus one.
pub record ClosedKey : Type 0 where
  pub closed_at : ℕ
  pub created_at : ℕ
  pub task_id : Text

abbrev pub is_closed : Phase → Bool
is_closed Phase.closed = true
is_closed _ = false

abbrev time_key : Option ℕ → ℕ
time_key none = 0
time_key (some n) = suc n

abbrev pub closed_key : Text → Task → ClosedKey
closed_key task_id t = record {
  closed_at = time_key t.closed_at;
  created_at = suc t.created_at;
  task_id = task_id;
}

unfoldable pub closed_keys : Dict Task → List ClosedKey
closed_keys [] = []
closed_keys ((task_id, t) ∷ d) =
    if is_closed t.phase then closed_key task_id t ∷ closed_keys d else closed_keys d

-- The order of texts: by code points.
unfoldable pub text_le : Text → Text → Bool
text_le [] t = true
text_le (c ∷ s) [] = false
text_le (c ∷ s) (d ∷ t) = let rest = text_le s t in if c == d then rest else ltb c d

-- The order of tuples.
unfoldable pub key_le : ClosedKey → ClosedKey → Bool
unfolding text_le
key_le a b =
    if a.closed_at == b.closed_at
    then if a.created_at == b.created_at
      then text_le a.task_id b.task_id
      else ltb a.created_at b.created_at
    else ltb a.closed_at b.closed_at

unfoldable pub insert_key : ClosedKey → List ClosedKey → List ClosedKey
insert_key k [] = k ∷ []
insert_key k (j ∷ js) = if key_le k j then k ∷ j ∷ js else j ∷ insert_key k js

-- `sorted(closed)`
unfoldable pub sort_keys : List ClosedKey → List ClosedKey
sort_keys [] = []
sort_keys (k ∷ ks) = insert_key k (sort_keys ks)

-- The loop over the sorted records: `excess` counts the records still above the retention limit.
unfoldable pub prune_loop : (Ledger → Bool) → ℕ → List ClosedKey → Ledger → Ledger × List Text
prune_loop exceeds excess [] l = (l, [])
prune_loop exceeds (suc excess) (k ∷ ks) l =
    let (l', removed) =
      prune_loop exceeds excess ks (record l { tasks = erase k.task_id l.tasks }) in
    (l', k.task_id ∷ removed)
prune_loop exceeds zero (k ∷ ks) l = elim (exceeds l) [
  | false ↦ (l, [])
  | true ↦
      let (l', removed) =
        prune_loop exceeds zero ks (record l { tasks = erase k.task_id l.tasks }) in
      (l', k.task_id ∷ removed)
]

unfoldable pub prune_closed_tasks : (Ledger → Bool) → Ledger → Ledger × List Text
unfolding closed_keys sort_keys insert_key key_le prune_loop
prune_closed_tasks exceeds l =
    let closed = closed_keys l.tasks in
    prune_loop exceeds (length closed - closed_task_retention) (sort_keys closed) l

-- With no test of capacity.
abbrev pub within_capacity : Ledger → Bool
within_capacity l = false
