-- ===== src/Retention/Open.antt =====
-- prune_closed_tasks of governance_lifecycle.py drops closed tasks only.
use subagent_governance.Base.{
  ℕ, zero, suc, ◌-◌, Text, text_eq, text_eq_sound, Dict, lookup, erase, lookup-erase_ne, ◌≡◌, ◌≢◌,
  refl, arith, none, some, Bool, false, Bool-cases, inl, inr, List, [], ◌∷◌, length,
}
use subagent_governance.Semantics.{Phase, closed_task_retention}
use subagent_governance.Ledger.{Task, Ledger}
use subagent_governance.Retention.{
  ClosedKey, is_closed, closed_keys, key_le, insert_key, sort_keys, prune_loop, prune_closed_tasks,
}

-- No key stands twice, as in every Python dictionary.
abbrev pub Unique {ℓ} : {V : Type ℓ} → Dict V → Type ℓ
Unique [] = Unit
Unique ((k, v) ∷ d) = (lookup k d ≡ none) × Unique d

-- None of the keys is the one of this task.
abbrev Avoids : Text → List ClosedKey → Type 0
Avoids j [] = Unit
Avoids j (k ∷ ks) = (k.task_id ≢ j) × Avoids j ks

absent-Avoids : (j : Text) (d : Dict Task) → lookup j d ≡ none → Avoids j (closed_keys d)
unfolding lookup closed_keys
absent-Avoids j [] h = tt
absent-Avoids j ((k, t) ∷ d) h = elim (Bool-cases (is_closed t.phase)) [
  | inl e ↦ rw e (λ same. ground (arith, h, same), absent-Avoids j d (ground (arith, h)))
  | inr e ↦ rw e (absent-Avoids j d (ground (arith, h)))
]

open-Avoids :
    (j : Text) (u : Task) (d : Dict Task)
    → Unique d
    → lookup j d ≡ some u
    → u.phase ≢ Phase.closed
    → Avoids j (closed_keys d)
unfolding lookup closed_keys
open-Avoids j u [] n h o = tt
open-Avoids j u ((k, t) ∷ d) (a, n) h o = elim (Bool-cases (text_eq k j)) [
  | inl same ↦
      let e : is_closed t.phase ≡ false = ground (arith, h, same, o) in
      rw e (absent-Avoids j d (rw (text_eq_sound k j same) at a))
  | inr other ↦
      let rest = open-Avoids j u d n (ground (arith, h, other)) o in
      elim (Bool-cases (is_closed t.phase)) [
        | inl e ↦ rw e (λ same. ground (arith, other, same), rest)
        | inr e ↦ rw e rest
      ]
]

insert-Avoids :
    (j : Text) (k : ClosedKey) (ks : List ClosedKey)
    → k.task_id ≢ j
    → Avoids j ks
    → Avoids j (insert_key k ks)
unfolding insert_key
insert-Avoids j k [] a r = (a, tt)
insert-Avoids j k (i ∷ ks) a (b, r) = elim (Bool-cases (key_le k i)) [
  | inl e ↦ rw e (a, (b, r))
  | inr e ↦ rw e (b, insert-Avoids j k ks a r)
]

sort-Avoids : (j : Text) (ks : List ClosedKey) → Avoids j ks → Avoids j (sort_keys ks)
unfolding sort_keys
sort-Avoids j [] r = tt
sort-Avoids j (k ∷ ks) (a, r) = insert-Avoids j k (sort_keys ks) a (sort-Avoids j ks r)

prune_loop-keeps :
    (exceeds : Ledger → Bool) (n : ℕ) (j : Text) (ks : List ClosedKey) (l : Ledger)
    → Avoids j ks
    → lookup j (prune_loop exceeds n ks l).0.tasks ≡ lookup j l.tasks
unfolding prune_loop
prune_loop-keeps exceeds n j [] l a = refl
prune_loop-keeps exceeds (suc n) j (k ∷ ks) l (a, r) =
    let rest = prune_loop-keeps exceeds n j ks (record l { tasks = erase k.task_id l.tasks }) r in
    ground (arith, rest, lookup-erase_ne k.task_id j l.tasks a)
prune_loop-keeps exceeds zero j (k ∷ ks) l (a, r) =
    let rest =
      prune_loop-keeps exceeds zero j ks (record l { tasks = erase k.task_id l.tasks }) r in
    ground (arith, rest, lookup-erase_ne k.task_id j l.tasks a)

-- Pruning never drops or changes a task that is not closed, whatever the test of capacity says.
pub prune_closed_tasks-open :
    (exceeds : Ledger → Bool) (l : Ledger) (task_id : Text) (t : Task)
    → Unique l.tasks
    → lookup task_id l.tasks ≡ some t
    → t.phase ≢ Phase.closed
    → lookup task_id (prune_closed_tasks exceeds l).0.tasks ≡ some t
unfolding prune_closed_tasks
prune_closed_tasks-open exceeds l task_id t n h o =
    let away = sort-Avoids task_id (closed_keys l.tasks) (open-Avoids task_id t l.tasks n h o) in
    let kept =
      prune_loop-keeps exceeds (length (closed_keys l.tasks) - closed_task_retention) task_id
        (sort_keys (closed_keys l.tasks)) l away in
    cc
