-- ===== src/Dispatch/Recorded.antt =====
-- The ledger that claim_spawn of scripts/governance_dispatch.py writes, or reads again after an error,
-- records the claim.
use subagent_governance.Base.{
  ℕ, Text, text_eq, text_eq_sound, Dict, insert, ◌≡◌, refl, arith, some, Bool-cases, [], ◌∷◌, inl,
  inr, Result, ok, Error, >>=-eq-ok, guard, sym,
}
use subagent_governance.Json.{Value}
use subagent_governance.Semantics.{Phase}
use subagent_governance.Contract.{Manifest, Verification}
use subagent_governance.Contract.Canon.{Canon}
use subagent_governance.Ledger.{Task, Ledger, put_task, is_option}
use subagent_governance.State.{require_current_state_format}
use subagent_governance.State.Ledgers.{All}
use subagent_governance.Retention.{prune_closed_tasks, within_capacity}
use subagent_governance.Retention.Open.{Unique}
use subagent_governance.Lifecycle.{Outcome}
use subagent_governance.Dispatch.Claim.{
  with_ref, only, find_by_ref, claimed_task, claim_task, claim_in_ledger, committed,
  committed_claim,
}
use subagent_governance.Dispatch.Once.{Claimed, claim_task-Claimed, claimed_by}
use subagent_governance.Store.{Contents, Encoding, read_path}
use subagent_governance.Steps.Claims.{with_ref-lookup, only-one, prune-All}

with_ref-insert :
    (ref k : Text) (t u : Task) (d : Dict Task)
    → Unique d
    → u.task_ref ≡ t.task_ref
    → with_ref ref d ≡ (k, t) ∷ []
    → with_ref ref (insert k u d) ≡ (k, u) ∷ []
unfolding with_ref insert
with_ref-insert ref k t u [] q e h = absurd (cc)
with_ref-insert ref k t u ((i, w) ∷ d) (a, q) e h = elim (Bool-cases (text_eq w.task_ref ref)) [
  | inl here ↦ ground (arith, here, h, e)
  | inr away ↦ elim (Bool-cases (text_eq i k)) [
    | inl same ↦
        let there = with_ref-lookup ref k t d q (ground (arith, away, h)) in
        absurd (cc (rw (text_eq_sound i k same) at a, there))
    | inr other ↦
        ground (arith, away, other, with_ref-insert ref k t u d q e (ground (arith, away, h)))
  ]
]

all_unit : (d : Dict Task) → All (λ k t. Unit {0}) d
all_unit [] = tt
all_unit ((k, t) ∷ d) = (tt, all_unit d)

-- The keys of a dictionary that is read from a file are different.
abbrev pub HasUniqueKeys : Contents → Type 0
HasUniqueKeys (Contents.stored l) = Unique l.tasks
HasUniqueKeys _ = Unit

pub read-Unique :
    (encoding : Encoding) (session_id : Text) (file : Contents) (l : Ledger)
    → HasUniqueKeys file
    → read_path encoding session_id file ≡ ok l
    → Unique l.tasks
unfolding read_path require_current_state_format
read-Unique encoding session_id Contents.missing l q h = ground arith
read-Unique encoding session_id (Contents.unreadable e) l q h = absurd (cc)
read-Unique encoding session_id (Contents.stored m) l q h = ground arith

module _ (canon : Canon) (verify : Manifest → Result Verification) (now : ℕ)
    (task_ref tool_use_id : Text) (tool_input : Value) where
  Claimed-task_ref :
      (t u : Task)
      → Claimed canon verify now task_ref tool_use_id tool_input t u
      → u.task_ref ≡ t.task_ref
  unfolding claimed_task
  Claimed-task_ref t u (Claimed.first p a b c d e) = ground arith
  Claimed-task_ref t u (Claimed.repeated p a b c d e) = ground arith

  -- The ledger has one task of the reference, and this call has claimed it.
  pub record IsClaimed (l : Ledger) : Type 0 where
    pub task_id : Text
    pub task : Task
    pub found : find_by_ref task_ref l ≡ ok (task_id, task)
    pub phase : task.phase ≡ Phase.claimed
    pub call : task.claimed_tool_use_id ≡ some tool_use_id

  found-put :
      (k : Text) (t u : Task) (l : Ledger)
      → Unique l.tasks
      → u.task_ref ≡ t.task_ref
      → find_by_ref task_ref l ≡ ok (k, t)
      → find_by_ref task_ref (put_task k u l) ≡ ok (k, u)
  unfolding find_by_ref only
  found-put k t u l q e h =
      let one = only-one (with_ref task_ref l.tasks) (k, t) h in
      ground (arith, with_ref-insert task_ref k t u l.tasks q e one)

  pub claim_in_ledger-IsClaimed :
      (l l' : Ledger) (o : Outcome)
      → Unique l.tasks
      → claim_in_ledger canon verify now task_ref tool_use_id tool_input l ≡ ok (l', o)
      → IsClaimed l'
  unfolding claim_in_ledger
  claim_in_ledger-IsClaimed l l' o unique h =
      let kept = (prune_closed_tasks within_capacity l).0 in
      let (unique', _) = prune-All (λ k t. Unit {0}) l unique (all_unit l.tasks) in
      let ((k, t), found, h₁) = >>=-eq-ok (find_by_ref task_ref kept) _ h in
      let ((u, o₁), e, stored) =
        >>=-eq-ok (claim_task canon verify now task_ref tool_use_id tool_input k t) _ h₁ in
      let c = claim_task-Claimed canon verify now task_ref tool_use_id tool_input k t u o₁ e in
      let (phase, call) =
        claimed_by canon verify now now task_ref tool_use_id tool_use_id tool_input tool_input k t u
          o₁ c in
      let same : put_task k u kept ≡ l' = ground (arith, stored) in
      record {
        task_id = k;
        task = u;
        found = rw (sym same) (found-put k t u kept unique' (Claimed-task_ref t u c) found);
        phase = phase;
        call = call;
      }

  committed-claimed :
      (p : Phase) (k : Text) (t : Task) (o : Outcome)
      → committed canon verify now task_ref tool_use_id tool_input p k t ≡ ok o
      → (p ≡ Phase.claimed) × (t.claimed_tool_use_id ≡ some tool_use_id)
  unfolding committed
  committed-claimed Phase.claimed k t o h =
      let (_, mine, _) =
        >>=-eq-ok (guard (is_option t.claimed_tool_use_id tool_use_id) Error.state_conflict) _ h in
      (refl, ground (arith, mine))
  committed-claimed Phase.prepared k t o h = absurd (cc)
  committed-claimed Phase.bound k t o h = absurd (cc)
  committed-claimed Phase.terminal k t o h = absurd (cc)
  committed-claimed Phase.closed k t o h = absurd (cc)
  committed-claimed Phase.reconcile k t o h = absurd (cc)

  pub committed_claim-IsClaimed :
      (l : Ledger) (o : Outcome)
      → committed_claim canon verify now task_ref tool_use_id tool_input l ≡ ok o
      → IsClaimed l
  unfolding committed_claim
  committed_claim-IsClaimed l o h =
      let ((k, t), found, h₁) = >>=-eq-ok (find_by_ref task_ref l) _ h in
      let (phase, call) = committed-claimed t.phase k t o h₁ in
      record { task_id = k; task = t; found = found; phase = phase; call = call }
