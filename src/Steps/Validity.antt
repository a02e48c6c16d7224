-- ===== src/Steps/Validity.antt =====
-- A step keeps a valid task valid, as long as the clock is not behind the task's creation.
use mathlib.Core.Path.{subst, sym}
use subagent_governance.Base.{
  ℕ, Text, is_text, Text-discrete, ℕ_discrete, ◌≤◌, ◌≡◌, refl, true, [], arith,
}
use subagent_governance.Contract.Canon.{Canon}
use subagent_governance.Ledger.{Task}
use subagent_governance.Lifecycle.{reconciled}
use subagent_governance.Lifecycle.Receipts.{closed_task}
use subagent_governance.Dispatch.{bound_task, dispatched, DispatchResult, dispatch_failed}
use subagent_governance.State.{summary_issues, prepared_issues}
use subagent_governance.State.Fields.{
  field_issues, all_fields, claim_issues_at, claim_issues, identity_issues,
}
use subagent_governance.State.Valid.{IsValidTask, IsValidFacts}
use subagent_governance.Steps.History.{Keeps, Step-Keeps}
use subagent_governance.Steps.{Step, Walk}

failed_reason : is_text 1024 dispatch_failed ≡ true
unfolding dispatch_failed is_text Text-discrete ℕ_discrete
failed_reason = refl

dispatched-facts :
    (now : ℕ) (result : DispatchResult) (t : Task) → IsValidFacts (dispatched now result t)
unfolding dispatched
dispatched-facts now DispatchResult.failed t = record {
  terminal = refl;
  platform = refl;
  interrupt = refl;
  close = rw failed_reason refl;
  unknown = refl;
  reconcile = refl;
}
dispatched-facts now DispatchResult.unknown t = record {
  terminal = refl;
  platform = refl;
  interrupt = refl;
  close = refl;
  unknown = refl;
  reconcile = refl;
}

module _ (now : ℕ) {t u : Task} where
  Step-shape : Step now t u → field_issues t all_fields ≡ [] → field_issues u all_fields ≡ []
  unfolding field_issues reconciled closed_task bound_task dispatched
  Step-shape (Step.note code p q e) h = ground arith
  Step-shape (Step.observe s p q e) h = ground arith
  Step-shape (Step.interrupt s p q e) h = ground arith
  Step-shape (Step.end source s p q e) h = ground arith
  Step-shape (Step.refine source s p q r e) h = ground arith
  Step-shape (Step.claim call p a e) h = ground arith
  Step-shape (Step.bind target p a e) h = ground arith
  Step-shape (Step.give_up result p e) h = ground arith
  Step-shape (Step.set_aside code p e) h = ground arith
  Step-shape (Step.close reason p a e) h = ground arith

  Step-identity : Step now t u → identity_issues t ≡ [] → identity_issues u ≡ []
  unfolding identity_issues reconciled closed_task bound_task dispatched
  Step-identity (Step.note code p q e) h = ground arith
  Step-identity (Step.observe s p q e) h = ground arith
  Step-identity (Step.interrupt s p q e) h = ground arith
  Step-identity (Step.end source s p q e) h = ground arith
  Step-identity (Step.refine source s p q r e) h = ground arith
  Step-identity (Step.claim call p a e) h = ground arith
  Step-identity (Step.bind target p a e) h = ground arith
  Step-identity (Step.give_up result p e) h = ground arith
  Step-identity (Step.set_aside code p e) h = ground arith
  Step-identity (Step.close reason p a e) h = ground arith

  Step-facts : Step now t u → IsValidFacts t → IsValidFacts u
  unfolding reconciled closed_task bound_task dispatched
  Step-facts (Step.note code p q e) h = ground arith
  Step-facts (Step.observe s p q e) h = ground arith
  Step-facts (Step.interrupt s p q e) h = ground arith
  Step-facts (Step.end source s p q e) h = ground arith
  Step-facts (Step.refine source s p q r e) h = ground arith
  Step-facts (Step.claim call p a e) h = ground arith
  Step-facts (Step.bind target p a e) h = ground arith
  Step-facts (Step.give_up result p e) h =
      subst IsValidFacts (sym e) (dispatched-facts now result t)
  Step-facts (Step.set_aside code p e) h = ground arith
  Step-facts (Step.close reason p a e) h = ground arith

  Step-claim : Step now t u → claim_issues_at t.phase t ≡ [] → claim_issues_at u.phase u ≡ []
  unfolding claim_issues reconciled closed_task bound_task dispatched
  Step-claim (Step.note code p q e) h = ground arith
  Step-claim (Step.observe s p q e) h = ground arith
  Step-claim (Step.interrupt s p q e) h = ground arith
  Step-claim (Step.end source s p q e) h = ground arith
  Step-claim (Step.refine source s p q r e) h = ground arith
  Step-claim (Step.claim call p a e) h = ground arith
  Step-claim (Step.bind target p a e) h = ground arith
  Step-claim (Step.give_up result p e) h = ground arith
  Step-claim (Step.set_aside code p e) h = ground arith
  Step-claim (Step.close reason p a e) h = ground arith

  Step-times : Step now t u → t.created_at ≤ now → u.created_at ≤ u.updated_at
  unfolding reconciled closed_task bound_task dispatched
  Step-times (Step.note code p q e) h = ground arith
  Step-times (Step.observe s p q e) h = ground arith
  Step-times (Step.interrupt s p q e) h = ground arith
  Step-times (Step.end source s p q e) h = ground arith
  Step-times (Step.refine source s p q r e) h = ground arith
  Step-times (Step.claim call p a e) h = ground arith
  Step-times (Step.bind target p a e) h = ground arith
  Step-times (Step.give_up result p e) h = ground arith
  Step-times (Step.set_aside code p e) h = ground arith
  Step-times (Step.close reason p a e) h = ground arith

module _ (canon : Canon) (now : ℕ) {t u : Task} where
  Step-summary :
      Step now t u
      → summary_issues canon t.task_ref t.contract_digest t.contract_summary ≡ []
      → summary_issues canon u.task_ref u.contract_digest u.contract_summary ≡ []
  unfolding reconciled closed_task bound_task dispatched
  Step-summary (Step.note code p q e) h = ground arith
  Step-summary (Step.observe s p q e) h = ground arith
  Step-summary (Step.interrupt s p q e) h = ground arith
  Step-summary (Step.end source s p q e) h = ground arith
  Step-summary (Step.refine source s p q r e) h = ground arith
  Step-summary (Step.claim call p a e) h = ground arith
  Step-summary (Step.bind target p a e) h = ground arith
  Step-summary (Step.give_up result p e) h = ground arith
  Step-summary (Step.set_aside code p e) h = ground arith
  Step-summary (Step.close reason p a e) h = ground arith

  Step-capability :
      Step now t u → prepared_issues canon t.phase t ≡ [] → prepared_issues canon u.phase u ≡ []
  unfolding prepared_issues reconciled closed_task bound_task dispatched
  Step-capability (Step.note code p q e) h = ground arith
  Step-capability (Step.observe s p q e) h = ground arith
  Step-capability (Step.interrupt s p q e) h = ground arith
  Step-capability (Step.end source s p q e) h = ground arith
  Step-capability (Step.refine source s p q r e) h = ground arith
  Step-capability (Step.claim call p a e) h = ground arith
  Step-capability (Step.bind target p a e) h = ground arith
  Step-capability (Step.give_up result p e) h = ground arith
  Step-capability (Step.set_aside code p e) h = ground arith
  Step-capability (Step.close reason p a e) h = ground arith

  Step-IsValidTask :
      {task_id : Text}
      → Step now t u
      → t.created_at ≤ now
      → IsValidTask canon task_id t
      → IsValidTask canon task_id u
  Step-IsValidTask s later v = record {
    key = v.key;
    shape = Step-shape now s v.shape;
    summary = Step-summary s v.summary;
    times = Step-times now s later;
    capability = Step-capability s v.capability;
    claim = Step-claim now s v.claim;
    identity = Step-identity now s v.identity;
    facts = Step-facts now s v.facts;
  }

module _ (canon : Canon) (now : ℕ) (task_id : Text) where
  -- A walk keeps a task valid for the ledger, where the clock is not behind the task's creation.
  pub Walk-IsValidTask :
      {t u : Task}
      → Walk now t u
      → t.created_at ≤ now
      → IsValidTask canon task_id t
      → IsValidTask canon task_id u
  Walk-IsValidTask (Walk.stay e) later v = subst (IsValidTask canon task_id) (sym e) v
  Walk-IsValidTask (Walk.next s w) later v =
      Walk-IsValidTask w (rw (Keeps.created (Step-Keeps s)) later)
        (Step-IsValidTask canon now s later v)
