-- ===== src/Dispatch.antt =====
-- scripts/governance_dispatch.py: a prepared task is claimed by a native call, confirmed with the
-- target that the call returned, or closed as failed.
pub mod Recorded
pub mod Claim
pub mod Once
pub mod Binding
pub mod Committed
use subagent_governance.Base.{
  ℕ, Text, codes, is_text, text_eq, Dict, lookup, Option, none, some, Bool, true, false, List, [],
  ◌∷◌, ◌&&◌, not, if◌then◌else◌, Result, ok, err, Error, guard, or_raise, ◌>>=◌, ◌>>◌,
}
use subagent_governance.Json.{Value, Fields, get, exact_fields, is_word, is_member}
use subagent_governance.Semantics.{Phase, Status, ReconcileCode, is_target_owning}
use subagent_governance.Ledger.{Task, Ledger, is_option, put_task}
use subagent_governance.Inputs.{operation_inputs}
use subagent_governance.Retention.{prune_closed_tasks, within_capacity}
use subagent_governance.Lifecycle.{
  Verdict, Outcome, outcome, enter_reconcile, with_inputs, store_and_prune,
}
use subagent_governance.Lifecycle.Requests.{Identity, identity_of}

-- The five keys that a confirmed or failed dispatch keeps: the task without its optional keys.
unfoldable pub common_facts : Task → Task
common_facts t = record t {
  prepared = none;
  claimed_tool_use_id = none;
  claimed_at = none;
  target = none;
  bound_at = none;
  platform_observation = none;
  terminal_fact = none;
  interrupt_fact = none;
  unknown_facts = none;
  reconcile = none;
  close_reason = none;
  closed_at = none;
}

-- Another task that is not closed and has the target.
unfoldable pub find_owner : Text → Text → Dict Task → Option (Text × Task)
find_owner task_id target [] = none
find_owner task_id target ((owner_id, owner) ∷ d) =
    if not (text_eq owner_id task_id)
      && (is_target_owning owner.phase && is_option owner.target target)
    then some (owner_id, owner)
    else find_owner task_id target d

module _ (observed_at : ℕ) (target : Text) where
  -- The task after `task.clear()` and `task.update(common, phase="bound", …)`.
  unfoldable pub bound_task : Task → Task
  unfolding common_facts
  bound_task t = record (common_facts t) {
    phase = Phase.bound;
    updated_at = observed_at;
    target = some target;
    bound_at = some observed_at;
  }

module _ (observed_at : ℕ) (task_id task_ref target : Text) where
  -- The branches that enter reconcile; `shown` is the target of the outcome, if it has one.
  unfoldable pub mismatch : ReconcileCode → Text → Option Text → Task → Result (Task × Outcome)
  unfolding enter_reconcile
  mismatch code ref shown t = do
    t' ← enter_reconcile code observed_at t
    ok (t', outcome Verdict.reconcile task_id ref shown)

  -- A bound or terminal task keeps its target.
  unfoldable pub confirm_again : Task → Result (Task × Outcome)
  unfolding mismatch
  confirm_again t =
      if is_option t.target target
      then ok (
        t,
        record (outcome Verdict.already_bound task_id task_ref (some target)) {
          phase = some t.phase;
        },
      )
      else mismatch ReconcileCode.dispatch_target_conflict task_ref t.target t

  unfoldable pub confirm_closed : Task → Result (Task × Outcome)
  confirm_closed t = do
    guard (is_option t.target target) Error.state_conflict
    ok (
      t,
      record (outcome Verdict.already_closed task_id task_ref (some target)) {
        phase = some t.phase;
      },
    )

  -- A claimed task is bound, unless another open task has the target.
  unfoldable pub confirm_claimed : Option (Text × Task) → Task → Result (Task × Outcome)
  unfolding bound_task enter_reconcile
  confirm_claimed none t =
      ok (bound_task observed_at target t, outcome Verdict.bound task_id task_ref (some target))
  confirm_claimed (some (owner_id, owner)) t = do
    t' ← enter_reconcile ReconcileCode.dispatch_target_already_bound observed_at t
    ok (
      t',
      record (outcome Verdict.reconcile task_id task_ref none) {
        reason = some ReconcileCode.dispatch_target_already_bound;
        submitted_target = some target;
        conflicting_task = some (owner_id, owner.task_ref);
      },
    )

  unfoldable pub confirm_at : Phase → Dict Task → Task → Result (Task × Outcome)
  unfolding confirm_again confirm_closed confirm_claimed mismatch find_owner
  confirm_at Phase.closed d t = confirm_closed t
  confirm_at Phase.bound d t = confirm_again t
  confirm_at Phase.terminal d t = confirm_again t
  confirm_at Phase.reconcile d t = ok (t, outcome Verdict.reconcile task_id task_ref t.target)
  confirm_at Phase.prepared d t = mismatch ReconcileCode.dispatch_claim_missing task_ref none t
  confirm_at Phase.claimed d t = confirm_claimed (find_owner task_id target d) t

  -- What the callback `confirm` does to the task, beside the other tasks of the ledger.
  unfoldable pub confirm_task : Dict Task → Task → Result (Task × Outcome)
  unfolding confirm_at
  confirm_task d t =
      if text_eq t.task_ref task_ref
      then confirm_at t.phase d t
      else mismatch ReconcileCode.dispatch_identity_mismatch t.task_ref none t

  -- The callback `confirm_with_inputs`. Closed records are dropped first.
  unfoldable pub confirm_in_ledger : Ledger → Result (Ledger × Outcome)
  confirm_in_ledger l = do
    let pruned = (prune_closed_tasks within_capacity l).0
    t ← or_raise (lookup task_id pruned.tasks) Error.state_conflict
    r ← confirm_task pruned.tasks t
    r' ← with_inputs task_id r
    ok (put_task task_id (r'.0) pruned, r'.1)

-- `_validate_confirmation`
unfoldable pub confirmation : Value → Result Identity
unfolding exact_fields identity_of
confirmation value = do
  let wanted = codes "task_id" ∷ codes "task_ref" ∷ codes "target" ∷ []
  fs ← or_raise (exact_fields wanted value) Error.value_error
  identity_of (codes "target") fs

pub data DispatchResult : Type 0 where
  failed unknown : DispatchResult

unfoldable pub dispatch_failed : Text
dispatch_failed = codes "dispatch_failed_not_created"

module _ (observed_at : ℕ) where
  -- The task after a dispatch that created nothing, or whose result is not known.
  unfoldable pub dispatched : DispatchResult → Task → Task
  unfolding common_facts
  dispatched DispatchResult.failed t = record (common_facts t) {
    phase = Phase.closed;
    updated_at = observed_at;
    close_reason = some dispatch_failed;
    closed_at = some observed_at;
  }
  dispatched DispatchResult.unknown t = record (common_facts t) {
    phase = Phase.reconcile;
    updated_at = observed_at;
    reconcile =
        some (record { code = ReconcileCode.dispatch_result_unknown; observed_at = observed_at });
  }

module _ (observed_at : ℕ) (task_id task_ref : Text) where
  dispatch_verdict : DispatchResult → Verdict
  dispatch_verdict DispatchResult.failed = Verdict.closed
  dispatch_verdict DispatchResult.unknown = Verdict.reconcile

  unfoldable pub dispatch_at : Phase → DispatchResult → Task → Result (Task × Outcome)
  unfolding dispatched dispatch_verdict
  dispatch_at Phase.prepared result t =
      ok (dispatched observed_at result t, outcome (dispatch_verdict result) task_id task_ref none)
  dispatch_at Phase.claimed result t =
      ok (dispatched observed_at result t, outcome (dispatch_verdict result) task_id task_ref none)
  dispatch_at _ result t = err Error.state_conflict

  unfoldable pub dispatch_task : DispatchResult → Task → Result (Task × Outcome)
  unfolding dispatch_at
  dispatch_task result t = dispatch_at t.phase result t

  -- The callback `record` of record_dispatch_result.
  unfoldable pub dispatch_in_ledger : DispatchResult → Ledger → Result (Ledger × Outcome)
  dispatch_in_ledger result l = do
    t ← or_raise (lookup task_id l.tasks) Error.state_conflict
    guard (text_eq t.task_ref task_ref) Error.state_conflict
    r ← dispatch_task result t
    store_and_prune task_id l r

pub record DispatchReport : Type 0 where
  pub task_id : Text
  pub task_ref : Text
  pub result : DispatchResult

abbrev text_value : ℕ → Value → Option Text
text_value maximum (Value.str s) = if is_text maximum s then some s else none
text_value maximum _ = none

-- The checks of record_dispatch_result.
unfoldable pub dispatch_report : Value → Result DispatchReport
unfolding exact_fields get
dispatch_report value = do
  let wanted = codes "task_id" ∷ codes "task_ref" ∷ codes "result" ∷ []
  fs ← or_raise (exact_fields wanted value) Error.value_error
  task_id ← or_raise (text_value 256 (get (codes "task_id") fs)) Error.value_error
  task_ref ← or_raise (text_value 20 (get (codes "task_ref") fs)) Error.value_error
  let result = get (codes "result") fs
  known ← is_member (codes "failed" ∷ codes "unknown" ∷ []) result
  guard known Error.value_error
  ok (record {
    task_id = task_id;
    task_ref = task_ref;
    result =
        if is_word (codes "failed") result then DispatchResult.failed else DispatchResult.unknown;
  })
