-- ===== src/Diagnostics.antt =====
-- scripts/governance_diagnostics.py: what a caller may see of a session, read from its file without
-- a lock and without a write.
pub mod Complete
use subagent_governance.Base.{
  ℕ, Text, is_text, Dict, lookup, Option, none, some, Bool, true, false, List, [], ◌∷◌, ◌&&◌, ◌||◌,
  text_eq, is_some, if◌then◌else◌, leb, Result, ok, err, Error, guard, or_raise, ◌>>=◌, ◌>>◌,
}
use subagent_governance.Semantics.{Phase, NativeInterface, Status, ReconcileCode}
use subagent_governance.Contract.{Business}
use subagent_governance.Identity.{is_task_ref}
use subagent_governance.Ledger.{
  Task, Ledger, UnknownFacts, terminal_status, platform_status, interrupt_status, reconcile_code,
}
use subagent_governance.Inputs.{OperationInput, operation_inputs}
use subagent_governance.Retention.{text_le}
use subagent_governance.Lifecycle.{facts_of}
use subagent_governance.Store.{Contents, Encoding, read_ledger_readonly}

-- The values of NEXT_ACTIONS, and the one of an expired preparation.
pub data NextAction : Type 0 where
  invoke_exact_spawn_args confirm_exact_target observe_exact_target parent_close : NextAction
  no_action manual_reconcile parent_review_expired_preparation : NextAction

-- NEXT_ACTIONS
unfoldable pub next_actions : Phase → NextAction
next_actions Phase.prepared = NextAction.invoke_exact_spawn_args
next_actions Phase.claimed = NextAction.confirm_exact_target
next_actions Phase.bound = NextAction.observe_exact_target
next_actions Phase.terminal = NextAction.parent_close
next_actions Phase.closed = NextAction.no_action
next_actions Phase.reconcile = NextAction.manual_reconcile

-- `expires_at` and `expired`
pub record Expiry : Type 0 where
  pub expires_at : ℕ
  pub expired : Bool

-- The view of one task. `expiry` is there for a prepared task, and the last two for a detail.
pub record View : Type 0 where
  pub task_id : Text
  pub task_ref : Text
  pub native_interface : NativeInterface
  pub phase : Phase
  pub objective : Text
  pub target : Option Text
  pub platform_status : Option Status
  pub terminal_status : Option Status
  pub interrupt_result : Option Status
  pub reconcile_reason : Option ReconcileCode
  pub unknown_facts : UnknownFacts
  pub close_reason : Option Text
  pub next_action : NextAction
  pub expiry : Option Expiry
  pub contract_summary : Option Business
  pub operation_inputs : Option (List OperationInput)

-- The entry of the list comprehension.
unfoldable pub view_of : Text → Task → View
unfolding next_actions
view_of task_id t = record {
  task_id = task_id;
  task_ref = t.task_ref;
  native_interface = t.native_interface;
  phase = t.phase;
  objective = t.contract_summary.objective;
  target = t.target;
  platform_status = platform_status t;
  terminal_status = terminal_status t;
  interrupt_result = interrupt_status t;
  reconcile_reason = reconcile_code t;
  unknown_facts = facts_of t.unknown_facts;
  close_reason = t.close_reason;
  next_action = next_actions t.phase;
  expiry = none;
  contract_summary = none;
  operation_inputs = none;
}

-- `sorted(state["tasks"].items())`; no two keys are the same.
unfoldable pub insert_by_id : Text → Task → Dict Task → Dict Task
insert_by_id k t [] = (k, t) ∷ []
insert_by_id k t ((j, u) ∷ d) =
    if text_le k j then (k, t) ∷ (j, u) ∷ d else (j, u) ∷ insert_by_id k t d

unfoldable pub sort_tasks : Dict Task → Dict Task
unfolding insert_by_id text_le
sort_tasks [] = []
sort_tasks ((k, t) ∷ d) = insert_by_id k t (sort_tasks d)

module _ (observed_at : ℕ) where
  expired_action : Bool → NextAction
  expired_action true = NextAction.parent_review_expired_preparation
  expired_action false = NextAction.invoke_exact_spawn_args

  with_expiry : ℕ → View → View
  unfolding expired_action
  with_expiry expires_at v = record v {
    expiry = some (record { expires_at = expires_at; expired = leb expires_at observed_at });
    next_action = expired_action (leb expires_at observed_at);
  }

  -- The loop over the views: a prepared one shows when it expires, and whether it has.
  expiry_at : Phase → Task → View → Result View
  unfolding with_expiry
  expiry_at Phase.prepared t v = do
    p ← or_raise t.prepared Error.key_error
    ok (with_expiry p.expires_at v)
  expiry_at _ t v = ok v

  unfoldable pub project_task : Text → Task → Result View
  unfolding expiry_at view_of
  project_task task_id t = expiry_at t.phase t (view_of task_id t)

  unfoldable pub project_tasks : Dict Task → Result (List View)
  unfolding project_task
  project_tasks [] = ok []
  project_tasks ((task_id, t) ∷ d) = do
    v ← project_task task_id t
    vs ← project_tasks d
    ok (v ∷ vs)

  -- project_status: the views of the tasks; the version and the session go with them unchanged.
  unfoldable pub project_status : Dict Task → Result (List View)
  unfolding project_tasks sort_tasks
  project_status d = project_tasks (sort_tasks d)

  -- The one task of a detail, with what only a detail shows.
  detail_of : Text → Text → Option Ledger → Result Task
  detail_of task_id task_ref none = err Error.state_conflict
  detail_of task_id task_ref (some l) = do
    t ← or_raise (lookup task_id l.tasks) Error.state_conflict
    guard (text_eq t.task_ref task_ref) Error.state_conflict
    ok t

  unfoldable pub detail : Text → Text → Option Ledger → Result (List View)
  unfolding detail_of project_task operation_inputs
  detail task_id task_ref l = do
    t ← detail_of task_id task_ref l
    v ← project_task task_id t
    inputs ← operation_inputs task_id t
    ok (
        record v { contract_summary = some t.contract_summary; operation_inputs = some inputs }
        ∷ [])

  abbrev task_views : Option Ledger → Result (List View)
  task_views none = ok []
  task_views (some l) = project_status l.tasks

  -- The identity of a detail: both texts, of their form.
  abbrev identity : Option Text → Option Text → Result (Text × Text)
  identity (some task_id) (some task_ref) = do
    guard (is_text 256 task_id && is_task_ref task_ref) Error.value_error
    ok (task_id, task_ref)
  identity _ _ = err Error.value_error

  status_detail : Encoding → Text → Option Text → Option Text → Contents → Result (List View)
  unfolding detail is_text is_task_ref read_ledger_readonly
  status_detail encoding session_id task_id task_ref file = do
    i ← identity task_id task_ref
    l ← read_ledger_readonly encoding session_id file
    detail (i.0) (i.1) l

  status_tasks : Encoding → Text → Contents → Result (List View)
  unfolding project_status read_ledger_readonly
  status_tasks encoding session_id file = do
    l ← read_ledger_readonly encoding session_id file
    task_views l

  -- status
  unfoldable pub status :
      Encoding → Text → Option Text → Option Text → Contents → Result (List View)
  unfolding status_detail status_tasks
  status encoding session_id task_id task_ref file =
      if is_some task_id || is_some task_ref
      then status_detail encoding session_id task_id task_ref file
      else status_tasks encoding session_id file

  -- diagnose: an error is reported, not raised. The views, or none with the one issue `unreadable`.
  unfoldable pub diagnose : Encoding → Text → Contents → Option (List View)
  unfolding status
  diagnose encoding session_id file = elim (status encoding session_id none none file) [
    | err e ↦ none
    | ok views ↦ some views
  ]
