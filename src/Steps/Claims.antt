-- ===== src/Steps/Claims.antt =====
-- claim_spawn of governance_dispatch.py on a whole ledger: what it stores is a valid ledger.
use subagent_governance.Base.{
  ℕ, zero, suc, ◌-◌, Text, text_eq, text_eq_sound, is_text, Dict, lookup, erase, length, ◌≡◌, refl,
  arith, none, some, true, Bool-cases, List, [], ◌∷◌, ◌⊎◌, inl, inr, Result, ok, >>=-eq-ok,
}
use subagent_governance.Json.{Value}
use subagent_governance.Semantics.{closed_task_retention}
use subagent_governance.Contract.{Manifest, Verification}
use subagent_governance.Contract.Canon.{Canon}
use subagent_governance.Ledger.{Task, Ledger, put_task}
use subagent_governance.Retention.{
  ClosedKey, closed_keys, sort_keys, prune_loop, prune_closed_tasks, within_capacity,
}
use subagent_governance.Retention.Open.{Unique}
use subagent_governance.Lifecycle.{Outcome}
use subagent_governance.Dispatch.Claim.{
  with_ref, only, find_by_ref, claimed_task, claim_task, claim_in_ledger,
}
use subagent_governance.Dispatch.Once.{Claimed, claim_task-Claimed}
use subagent_governance.State.{owned}
use subagent_governance.State.Valid.{IsValidTask}
use subagent_governance.State.Ledgers.{IsValidLedger, All}
use subagent_governance.State.Replacing.{All-lookup, All-erase}
use subagent_governance.Steps.History.{Keeps}
use subagent_governance.Steps.Retained.{Walk-Keeps}
use subagent_governance.Steps.Validity.{Walk-IsValidTask}
use subagent_governance.Steps.Dispatching.{claim_task-Walk}
use subagent_governance.Steps.Ledgers.{BeforeNow, put-IsValidLedger, prune-IsValidLedger}

lookup-erase_absent : (j k : Text) (d : Dict Task) → lookup j d ≡ none → lookup j (erase k d) ≡ none
unfolding lookup erase
lookup-erase_absent j k [] h = refl
lookup-erase_absent j k ((i, t) ∷ d) h = ground (arith, lookup-erase_absent j k d)

pub Unique-erase : (k : Text) (d : Dict Task) → Unique d → Unique (erase k d)
unfolding erase
Unique-erase k [] u = tt
Unique-erase k ((i, t) ∷ d) (a, u) = elim (Bool-cases (text_eq i k)) [
  | inl e ↦ rw e u
  | inr e ↦ rw e (lookup-erase_absent i k d a, Unique-erase k d u)
]

module _ {ℓ} (P : Text → Task → Type ℓ) where
  -- What every entry has and no erasure takes away stays with pruning.
  prune_loop-All :
      (n : ℕ) (ks : List ClosedKey) (l : Ledger)
      → Unique l.tasks
      → All P l.tasks
      → Unique (prune_loop within_capacity n ks l).0.tasks
        × All P (prune_loop within_capacity n ks l).0.tasks
  unfolding prune_loop
  prune_loop-All n [] l u a = (u, a)
  prune_loop-All zero (k ∷ ks) l u a = (u, a)
  prune_loop-All (suc n) (k ∷ ks) l u a =
      prune_loop-All n ks _ (Unique-erase k.task_id l.tasks u) (All-erase P k.task_id l.tasks a)

  pub prune-All :
      (l : Ledger)
      → Unique l.tasks
      → All P l.tasks
      → Unique (prune_closed_tasks within_capacity l).0.tasks
        × All P (prune_closed_tasks within_capacity l).0.tasks
  unfolding prune_closed_tasks
  prune-All l u a =
      prune_loop-All (length (closed_keys l.tasks) - closed_task_retention)
        (sort_keys (closed_keys l.tasks)) l u a

pub with_ref-lookup :
    (ref k : Text) (t : Task) (d : Dict Task)
    → Unique d
    → with_ref ref d ≡ (k, t) ∷ []
    → lookup k d ≡ some t
unfolding with_ref lookup
with_ref-lookup ref k t [] u h = absurd (cc)
with_ref-lookup ref k t ((i, w) ∷ d) (a, u) h = elim (Bool-cases (text_eq w.task_ref ref)) [
  | inl e ↦ ground (arith, e, h)
  | inr e ↦
      let rest = with_ref-lookup ref k t d u (ground (arith, e, h)) in
      elim (Bool-cases (text_eq i k)) [
        | inl same ↦ absurd (cc (rw (text_eq_sound i k same) at a))
        | inr other ↦ ground (arith, rest, other)
      ]
]

pub only-one : (ms : List (Text × Task)) (m : Text × Task) → only ms ≡ ok m → ms ≡ m ∷ []
unfolding only
only-one [] m h = absurd (cc)
only-one (n ∷ []) m h = ground arith
only-one (n ∷ o ∷ ms) m h = absurd (cc)

find_by_ref-lookup :
    (ref k : Text) (t : Task) (l : Ledger)
    → Unique l.tasks
    → find_by_ref ref l ≡ ok (k, t)
    → lookup k l.tasks ≡ some t
unfolding find_by_ref
find_by_ref-lookup ref k t l u h = with_ref-lookup ref k t l.tasks u (only-one _ (k, t) h)

module _ (canon : Canon) (verify : Manifest → Result Verification) (now : ℕ)
    (task_ref tool_use_id : Text) (tool_input : Value) where
  Claimed-owned :
      (t u : Task)
      → Claimed canon verify now task_ref tool_use_id tool_input t u
      → (owned u ≡ owned t) ⊎ (owned u ≡ none)
  unfolding claimed_task
  Claimed-owned t u (Claimed.first p a b c d e) = inr (ground arith)
  Claimed-owned t u (Claimed.repeated p a b c d e) = inl (ground arith)

  -- What claim_spawn stores is a valid ledger, where the ledger was valid, no key stood twice in it, no
  -- task was created after now, and the tool_use_id has no surrounding space and 1 to 1024 characters.
  pub claim_in_ledger-IsValidLedger :
      (l l' : Ledger) (o : Outcome)
      → is_text 1024 tool_use_id ≡ true
      → Unique l.tasks
      → All (BeforeNow canon now) l.tasks
      → IsValidLedger canon l
      → claim_in_ledger canon verify now task_ref tool_use_id tool_input l ≡ ok (l', o)
      → IsValidLedger canon l'
  unfolding claim_in_ledger
  claim_in_ledger-IsValidLedger l l' o known unique clock v h =
      let kept = (prune_closed_tasks within_capacity l).0 in
      let (unique', clock') = prune-All (BeforeNow canon now) l unique clock in
      let v' = prune-IsValidLedger canon l v in
      let ((k, t), found, h₁) = >>=-eq-ok (find_by_ref task_ref kept) _ h in
      let ((u, o₁), e, stored) =
        >>=-eq-ok (claim_task canon verify now task_ref tool_use_id tool_input k t) _ h₁ in
      let at = find_by_ref-lookup task_ref k t kept unique' found in
      let w = claim_task-Walk canon verify now task_ref tool_use_id tool_input k known e in
      let valid = All-lookup (IsValidTask canon) k t kept.tasks v'.each at in
      let later = All-lookup (BeforeNow canon now) k t kept.tasks clock' at in
      let done =
        put-IsValidLedger canon k t u kept at (Keeps.task_ref (Walk-Keeps w))
          (Claimed-owned t u
            (claim_task-Claimed canon verify now task_ref tool_use_id tool_input k t u o₁ e))
          (Walk-IsValidTask canon now k w later valid) v' in
      let same : put_task k u kept ≡ l' = ground (arith, stored) in rw same at done
