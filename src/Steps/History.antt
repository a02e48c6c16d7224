-- ===== src/Steps/History.antt =====
-- What a task keeps along its lifecycle, and the order of its phases.
use subagent_governance.Base.{ℕ, ◌≤◌, ◌≡◌, ◌∙◌, refl, arith, ◌≢◌}
use subagent_governance.Semantics.{Phase}
use subagent_governance.Ledger.{Task}
use subagent_governance.Lifecycle.{reconciled}
use subagent_governance.Lifecycle.Receipts.{closed_task}
use subagent_governance.Dispatch.{bound_task, dispatched}
use subagent_governance.Steps.{Step}

-- The identity of a task: what was prepared.
pub record Keeps (t u : Task) : Type 0 where
  pub task_ref : u.task_ref ≡ t.task_ref
  pub native_interface : u.native_interface ≡ t.native_interface
  pub digest : u.contract_digest ≡ t.contract_digest
  pub summary : u.contract_summary ≡ t.contract_summary
  pub created : u.created_at ≡ t.created_at

pub Keeps-refl : {t : Task} → Keeps t t
Keeps-refl = record {
  task_ref = refl;
  native_interface = refl;
  digest = refl;
  summary = refl;
  created = refl;
}

pub Keeps-trans : {t u w : Task} → Keeps t u → Keeps u w → Keeps t w
Keeps-trans a b = record {
  task_ref = b.task_ref ∙ a.task_ref;
  native_interface = b.native_interface ∙ a.native_interface;
  digest = b.digest ∙ a.digest;
  summary = b.summary ∙ a.summary;
  created = b.created ∙ a.created;
}

-- A phase never goes back in this order.
abbrev pub rank : Phase → ℕ
rank Phase.prepared = 0
rank Phase.claimed = 1
rank Phase.bound = 2
rank Phase.terminal = 3
rank Phase.reconcile = 4
rank Phase.closed = 5

module _ {now : ℕ} {t u : Task} where
  pub Step-Keeps : Step now t u → Keeps t u
  unfolding reconciled closed_task bound_task dispatched
  Step-Keeps (Step.note code p q e) = ground arith
  Step-Keeps (Step.observe s p q e) = ground arith
  Step-Keeps (Step.interrupt s p q e) = ground arith
  Step-Keeps (Step.end source s p q e) = ground arith
  Step-Keeps (Step.refine source s p q r e) = ground arith
  Step-Keeps (Step.claim call p a e) = ground arith
  Step-Keeps (Step.bind target p a e) = ground arith
  Step-Keeps (Step.give_up result p e) = ground arith
  Step-Keeps (Step.set_aside code p e) = ground arith
  Step-Keeps (Step.close reason p a e) = ground arith

  pub Step-rank : Step now t u → rank t.phase ≤ rank u.phase
  unfolding reconciled closed_task bound_task dispatched
  Step-rank (Step.note code p q e) = ground arith
  Step-rank (Step.observe s p q e) = ground arith
  Step-rank (Step.interrupt s p q e) = ground arith
  Step-rank (Step.end source s p q e) = ground arith
  Step-rank (Step.refine source s p q r e) = ground arith
  Step-rank (Step.claim call p a e) = ground arith
  Step-rank (Step.bind target p a e) = ground arith
  Step-rank (Step.give_up result p e) = ground arith
  Step-rank (Step.set_aside code p e) = ground arith
  Step-rank (Step.close reason p a e) = ground arith

  pub Step-not_closed : Step now t u → t.phase ≢ Phase.closed
  unfolding reconciled closed_task bound_task dispatched
  Step-not_closed (Step.note code p q e) = ground arith
  Step-not_closed (Step.observe s p q e) = ground arith
  Step-not_closed (Step.interrupt s p q e) = ground arith
  Step-not_closed (Step.end source s p q e) = ground arith
  Step-not_closed (Step.refine source s p q r e) = ground arith
  Step-not_closed (Step.claim call p a e) = ground arith
  Step-not_closed (Step.bind target p a e) = ground arith
  Step-not_closed (Step.give_up result p e) = ground arith
  Step-not_closed (Step.set_aside code p e) = ground arith
  Step-not_closed (Step.close reason p a e) = ground arith
