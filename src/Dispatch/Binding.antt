-- ===== src/Dispatch/Binding.antt =====
-- confirm_dispatch of governance_dispatch.py where it answers that the task is bound.
use mathlib.Core.Path.{subst}
use subagent_governance.Base.{
  ◌∙◌, lookup-insert_self, ℕ, Text, text_eq, Dict, insert, lookup, ◌≡◌, ◌≢◌, refl, arith, Option,
  none, some, Bool-cases, inl, inr, ok, Error, or_raise, >>=-eq-ok, [], ◌∷◌,
}
use subagent_governance.Semantics.{Phase}
use subagent_governance.Ledger.{Task, Ledger, put_task}
use subagent_governance.Inputs.{operation_inputs}
use subagent_governance.Retention.{prune_closed_tasks, within_capacity}
use subagent_governance.Lifecycle.{Verdict, Outcome, with_inputs}
use subagent_governance.Dispatch.{
  find_owner, mismatch, confirm_again, confirm_closed, confirm_claimed, confirm_at, confirm_task,
  confirm_in_ledger, bound_task,
}

find_owner-insert :
    (k goal : Text) (u : Task) (d : Dict Task)
    → find_owner k goal (insert k u d) ≡ find_owner k goal d
unfolding find_owner insert
find_owner-insert k goal u [] = ground arith
find_owner-insert k goal u ((j, w) ∷ d) = ground (arith, find_owner-insert k goal u d)

-- The task is open and has the target.
pub data Has (target : Text) (t : Task) : Type 0 where
  bound : t.phase ≡ Phase.bound → t.target ≡ some target → Has target t
  terminal : t.phase ≡ Phase.terminal → t.target ≡ some target → Has target t
  reconcile : t.phase ≡ Phase.reconcile → t.target ≡ some target → Has target t

-- Every other task of the dictionary does not have the target.
abbrev pub OnlyTask : Text → Text → Dict Task → Type 0
OnlyTask task_id target [] = Unit
OnlyTask task_id target ((k, t) ∷ d) = (k ≢ task_id → Has target t → ⊥) × OnlyTask task_id target d

-- The task is bound to the target in the ledger, and no other task has it.
pub record IsBoundAlone (task_id target : Text) (l : Ledger) : Type 0 where
  pub task : Task
  pub stored : lookup task_id l.tasks ≡ some task
  pub phase : task.phase ≡ Phase.bound
  pub has : task.target ≡ some target
  pub alone : OnlyTask task_id target l.tasks

Has-owner :
    (task_id target k : Text) (t : Task) (d : Dict Task)
    → find_owner task_id target ((k, t) ∷ d) ≡ none
    → k ≢ task_id
    → Has target t
    → ⊥
unfolding find_owner
Has-owner task_id target k t d f n (Has.bound p g) = ground (arith, f, n, p, g)
Has-owner task_id target k t d f n (Has.terminal p g) = ground (arith, f, n, p, g)
Has-owner task_id target k t d f n (Has.reconcile p g) = ground (arith, f, n, p, g)

find_owner-OnlyTask :
    (task_id target : Text) (d : Dict Task)
    → find_owner task_id target d ≡ none
    → OnlyTask task_id target d
unfolding find_owner
find_owner-OnlyTask task_id target [] f = tt
find_owner-OnlyTask task_id target ((k, t) ∷ d) f =
    (Has-owner task_id target k t d f, find_owner-OnlyTask task_id target d (ground (arith, f)))

module _ (now : ℕ) (task_id task_ref target : Text) where
  confirm_again-bound :
      (t u : Task) (o : Outcome)
      → confirm_again now task_id task_ref target t ≡ ok (u, o)
      → o.result ≡ Verdict.bound
      → ⊥
  unfolding confirm_again mismatch
  confirm_again-bound t u o h e = ground arith

  -- The target was free, and the task takes it.
  IsTaken : Dict Task → Task → Type 0
  IsTaken d u =
      (find_owner task_id target d ≡ none) × (u.phase ≡ Phase.bound) × (u.target ≡ some target)

  confirm_claimed-IsTaken :
      (owner : Option (Text × Task)) (d : Dict Task) (t u : Task) (o : Outcome)
      → find_owner task_id target d ≡ owner
      → confirm_claimed now task_id task_ref target owner t ≡ ok (u, o)
      → o.result ≡ Verdict.bound
      → IsTaken d u
  unfolding confirm_claimed bound_task IsTaken
  confirm_claimed-IsTaken none d t u o f h e = (f, ground (arith, h), ground (arith, h))
  confirm_claimed-IsTaken (some owner) d t u o f h e = ground arith

  confirm_at-IsTaken :
      (p : Phase) (d : Dict Task) (t u : Task) (o : Outcome)
      → confirm_at now task_id task_ref target p d t ≡ ok (u, o)
      → o.result ≡ Verdict.bound
      → IsTaken d u
  unfolding confirm_at confirm_closed mismatch
  confirm_at-IsTaken Phase.closed d t u o h e = ground arith
  confirm_at-IsTaken Phase.bound d t u o h e = absurd (confirm_again-bound t u o h e)
  confirm_at-IsTaken Phase.terminal d t u o h e = absurd (confirm_again-bound t u o h e)
  confirm_at-IsTaken Phase.reconcile d t u o h e = ground arith
  confirm_at-IsTaken Phase.prepared d t u o h e = ground arith
  confirm_at-IsTaken Phase.claimed d t u o h e = confirm_claimed-IsTaken _ d t u o refl h e

  confirm_task-IsTaken :
      (d : Dict Task) (t u : Task) (o : Outcome)
      → confirm_task now task_id task_ref target d t ≡ ok (u, o)
      → o.result ≡ Verdict.bound
      → IsTaken d u
  unfolding confirm_task mismatch
  confirm_task-IsTaken d t u o h e = elim (Bool-cases (text_eq t.task_ref task_ref)) [
    | inl same ↦ confirm_at-IsTaken t.phase d t u o (ground arith) e
    | inr other ↦ ground arith
  ]

  with_inputs-same :
      (t u : Task) (o o' : Outcome)
      → with_inputs task_id (t, o) ≡ ok (u, o')
      → (o'.result ≡ o.result) × (t ≡ u)
  unfolding with_inputs
  with_inputs-same t u o o' h =
      let (inputs, e, f) = >>=-eq-ok (operation_inputs task_id t) _ h in
      (ground arith, ground (arith, f))

  put-IsBoundAlone :
      (kept : Ledger) (u : Task)
      → IsTaken kept.tasks u
      → IsBoundAlone task_id target (put_task task_id u kept)
  unfolding IsTaken
  put-IsBoundAlone kept u (free, phase, has) =
      let still = find_owner-insert task_id target u kept.tasks ∙ free in
      record {
        task = u;
        stored = lookup-insert_self task_id u kept.tasks;
        phase = phase;
        has = has;
        alone = find_owner-OnlyTask task_id target (insert task_id u kept.tasks) still;
      }

  -- Where confirm_dispatch answers that the task is bound, the task stands bound with that target in
  -- the ledger that is stored, and no other task of the ledger is bound, terminal or in reconcile with
  -- the target.
  pub confirm_in_ledger-IsBoundAlone :
      (l l' : Ledger) (o : Outcome)
      → confirm_in_ledger now task_id task_ref target l ≡ ok (l', o)
      → o.result ≡ Verdict.bound
      → IsBoundAlone task_id target l'
  unfolding confirm_in_ledger
  confirm_in_ledger-IsBoundAlone l l' o h e =
      let kept = (prune_closed_tasks within_capacity l).0 in
      let (t, at, h₁) = >>=-eq-ok (or_raise (lookup task_id kept.tasks) Error.state_conflict) _ h in
      let ((u, o₁), c, h₂) =
        >>=-eq-ok (confirm_task now task_id task_ref target kept.tasks t) _ h₁ in
      let ((u', o₂), i, last) = >>=-eq-ok (with_inputs task_id (u, o₁)) _ h₂ in
      let (same, task) = with_inputs-same u u' o₁ o₂ i in
      let verdict : o₁.result ≡ Verdict.bound = ground (arith, same, last, e) in
      let stored : put_task task_id u kept ≡ l' = ground (arith, task, last) in
      subst (IsBoundAlone task_id target) stored
        (put-IsBoundAlone kept u (confirm_task-IsTaken kept.tasks t u o₁ c verdict))
