-- ===== src/Steps/Ledgers.antt =====
-- A task of a valid ledger replaced by what a walk of the step relation makes of it.
use subagent_governance.Base.{
  ℕ, zero, suc, ◌-◌, Text, lookup, ◌≡◌, ◌≤◌, refl, ◌∙◌, arith, Option, none, some, true, List, [],
  ◌∷◌, ◌⊎◌, inl, inr, ok, >>=-eq-ok, or_raise, length, erase, length-insert_old, length-erase-le,
}
use subagent_governance.Semantics.{closed_task_retention}
use subagent_governance.Contract.Canon.{Canon}
use subagent_governance.Ledger.{Task, Ledger, put_task, is_option}
use subagent_governance.Inputs.{operation_inputs}
use subagent_governance.Retention.{
  ClosedKey, closed_keys, sort_keys, prune_loop, prune_closed_tasks, within_capacity,
}
use subagent_governance.Lifecycle.{
  Outcome, task_for_identity, with_inputs, store_and_prune, reconciled,
}
use subagent_governance.Lifecycle.Receipts.{closed_task}
use subagent_governance.Dispatch.{bound_task, dispatched}
use subagent_governance.State.{owned}
use subagent_governance.State.Fields.{field_issues}
use subagent_governance.State.Valid.{IsValidTask}
use subagent_governance.State.Ledgers.{IsValidLedger, All}
use subagent_governance.State.Replacing.{
  All-lookup, All-insert, All-erase, Refs-insert, Refs-erase, Targets-insert, Targets-erase,
}
use subagent_governance.Steps.{Step, Walk}
use subagent_governance.Steps.History.{Keeps, rank, Step-rank}
use subagent_governance.Steps.Retained.{Walk-Keeps}
use subagent_governance.Steps.Validity.{Walk-IsValidTask}

pub Step-owned :
    {now : ℕ} {t u : Task}
    → Step now t u
    → 2 ≤ rank t.phase
    → (owned u ≡ owned t) ⊎ (owned u ≡ none)
unfolding reconciled closed_task bound_task dispatched
Step-owned (Step.note code p q e) h = inl (ground arith)
Step-owned (Step.observe s p q e) h = inl (ground arith)
Step-owned (Step.interrupt s p q e) h = inl (ground arith)
Step-owned (Step.end source s p q e) h = inl (ground arith)
Step-owned (Step.refine source s p q r e) h = inl (ground arith)
Step-owned (Step.claim call p a e) h = absurd (ground arith)
Step-owned (Step.bind target p a e) h = absurd (ground arith)
Step-owned (Step.give_up result p e) h = absurd (ground arith)
Step-owned (Step.set_aside code p e) h = inl (ground arith)
Step-owned (Step.close reason p a e) h = inr (ground arith)

pub Walk-owned :
    {now : ℕ} {t u : Task}
    → Walk now t u
    → 2 ≤ rank t.phase
    → (owned u ≡ owned t) ⊎ (owned u ≡ none)
Walk-owned (Walk.stay e) h = inl (rw e refl)
Walk-owned (Walk.next s w) h =
    let a = Step-rank s in go (Step-owned s h) (Walk-owned w (omega arith))
  where
    go : {a b c : Option Text} → (b ≡ a) ⊎ (b ≡ none) → (c ≡ b) ⊎ (c ≡ none) → (c ≡ a) ⊎ (c ≡ none)
    go (inl p) (inl q) = inl (q ∙ p)
    go (inr p) (inl q) = inr (q ∙ p)
    go p (inr q) = inr q

module _ (canon : Canon) where
  -- A valid task with a target is past its dispatch.
  pub targeted-rank :
      (task_id target : Text) (t : Task)
      → IsValidTask canon task_id t
      → is_option t.target target ≡ true
      → 2 ≤ rank t.phase
  unfolding field_issues
  targeted-rank task_id target t v h = ground (arith, v.shape)

  pub put-IsValidLedger :
      (task_id : Text) (t u : Task) (l : Ledger)
      → lookup task_id l.tasks ≡ some t
      → u.task_ref ≡ t.task_ref
      → (owned u ≡ owned t) ⊎ (owned u ≡ none)
      → IsValidTask canon task_id u
      → IsValidLedger canon l
      → IsValidLedger canon (put_task task_id u l)
  put-IsValidLedger task_id t u l h ref own valid v = record {
    session = v.session;
    few = rw (length-insert_old task_id u t l.tasks h) v.few;
    each = All-insert _ task_id u l.tasks v.each valid;
    refs = Refs-insert [] task_id t u l.tasks h ref v.refs;
    targets = Targets-insert [] task_id t u l.tasks h own v.targets;
  }

  erase-IsValidLedger :
      (task_id : Text) (l : Ledger)
      → IsValidLedger canon l
      → IsValidLedger canon (record l { tasks = erase task_id l.tasks })
  erase-IsValidLedger task_id l v =
      let shorter = length-erase-le task_id l.tasks in
      let few = v.few in
      record {
        session = v.session;
        few = omega arith;
        each = All-erase _ task_id l.tasks v.each;
        refs = Refs-erase [] task_id l.tasks v.refs;
        targets = Targets-erase [] task_id l.tasks v.targets;
      }

  prune_loop-IsValidLedger :
      (n : ℕ) (ks : List ClosedKey) (l : Ledger)
      → IsValidLedger canon l
      → IsValidLedger canon (prune_loop within_capacity n ks l).0
  unfolding prune_loop
  prune_loop-IsValidLedger n [] l v = v
  prune_loop-IsValidLedger zero (k ∷ ks) l v = v
  prune_loop-IsValidLedger (suc n) (k ∷ ks) l v =
      prune_loop-IsValidLedger n ks _ (erase-IsValidLedger k.task_id l v)

  -- Pruning closed tasks keeps a ledger valid.
  pub prune-IsValidLedger :
      (l : Ledger)
      → IsValidLedger canon l
      → IsValidLedger canon (prune_closed_tasks within_capacity l).0
  unfolding prune_closed_tasks
  prune-IsValidLedger l v =
      prune_loop-IsValidLedger (length (closed_keys l.tasks) - closed_task_retention)
        (sort_keys (closed_keys l.tasks)) l v

  -- No task of the ledger was created after `now`.
  abbrev pub BeforeNow : ℕ → Text → Task → Type 0
  BeforeNow now task_id t = t.created_at ≤ now

  pub walked-IsValidLedger :
      (now : ℕ) (task_id target : Text) (t u : Task) (l : Ledger)
      → lookup task_id l.tasks ≡ some t
      → is_option t.target target ≡ true
      → Walk now t u
      → All (BeforeNow now) l.tasks
      → IsValidLedger canon l
      → IsValidLedger canon (prune_closed_tasks within_capacity (put_task task_id u l)).0
  walked-IsValidLedger now task_id target t u l h goal w clock v =
      let valid = All-lookup (IsValidTask canon) task_id t l.tasks v.each h in
      let later = All-lookup (BeforeNow now) task_id t l.tasks clock h in
      prune-IsValidLedger _ (
        put-IsValidLedger task_id t u l h (Keeps.task_ref (Walk-Keeps w))
          (Walk-owned w (targeted-rank task_id target t valid goal))
          (Walk-IsValidTask canon now task_id w later valid) v)

pub task_for_identity-found :
    (l : Ledger) (task_id task_ref target : Text) (t : Task)
    → task_for_identity l task_id task_ref target ≡ ok t
    → (lookup task_id l.tasks ≡ some t) × (is_option t.target target ≡ true)
unfolding task_for_identity
task_for_identity-found l task_id task_ref target t h =
    let (found, e, f) = >>=-eq-ok (or_raise (lookup task_id l.tasks) _) _ h in ground arith

pub with_inputs-task :
    (task_id : Text) (t u : Task) (o o' : Outcome) → with_inputs task_id (t, o) ≡ ok (u, o') → u ≡ t
unfolding with_inputs
with_inputs-task task_id t u o o' h =
    let (inputs, e, f) = >>=-eq-ok (operation_inputs task_id t) _ h in ground arith

pub store_and_prune-ledger :
    (task_id : Text) (l l' : Ledger) (t : Task) (o o' : Outcome)
    → store_and_prune task_id l (t, o) ≡ ok (l', o')
    → l' ≡ (prune_closed_tasks within_capacity (put_task task_id t l)).0
unfolding store_and_prune
store_and_prune-ledger task_id l l' t o o' h = ground arith
