-- ===== src/Steps/Retained.antt =====
-- What the lifecycle of governance_lifecycle.py and governance_dispatch.py never takes back: the
-- order of the phases, the identity of a task, its target and its first receipts.
use mathlib.Core.Path.{subst, sym}
use subagent_governance.Base.{ℕ, ◌≤◌, ◌≡◌, ◌≢◌, ◌∙◌, refl, arith, some}
use subagent_governance.Semantics.{Phase, Status, UnknownCode}
use subagent_governance.Ledger.{Task, terminal_status}
use subagent_governance.Lifecycle.{reconciled, facts_of, fact_at}
use subagent_governance.Lifecycle.Receipts.{closed_task}
use subagent_governance.Dispatch.{bound_task, dispatched}
use subagent_governance.Steps.{Step, Walk}
use subagent_governance.Steps.History.{
  Keeps, Keeps-refl, Keeps-trans, rank, Step-Keeps, Step-rank, Step-not_closed,
}

module _ {now : ℕ} {t u : Task} where
  Step-target : Step now t u → 2 ≤ rank t.phase → u.target ≡ t.target
  unfolding reconciled closed_task bound_task dispatched
  Step-target (Step.note code p q e) h = ground arith
  Step-target (Step.observe s p q e) h = ground arith
  Step-target (Step.interrupt s p q e) h = ground arith
  Step-target (Step.end source s p q e) h = ground arith
  Step-target (Step.refine source s p q r e) h = ground arith
  Step-target (Step.claim call p a e) h = ground arith
  Step-target (Step.bind target p a e) h = ground arith
  Step-target (Step.give_up result p e) h = ground arith
  Step-target (Step.set_aside code p e) h = ground arith
  Step-target (Step.close reason p a e) h = ground arith

  Step-terminal :
      Step now t u
      → 3 ≤ rank t.phase
      → terminal_status t ≢ some Status.inactive
      → u.terminal_fact ≡ t.terminal_fact
  unfolding reconciled closed_task bound_task dispatched
  Step-terminal (Step.note code p q e) h c = ground arith
  Step-terminal (Step.observe s p q e) h c = ground arith
  Step-terminal (Step.interrupt s p q e) h c = ground arith
  Step-terminal (Step.end source s p q e) h c = ground arith
  Step-terminal (Step.refine source s p q r e) h c = absurd (c q)
  Step-terminal (Step.claim call p a e) h c = ground arith
  Step-terminal (Step.bind target p a e) h c = ground arith
  Step-terminal (Step.give_up result p e) h c = ground arith
  Step-terminal (Step.set_aside code p e) h c = ground arith
  Step-terminal (Step.close reason p a e) h c = ground arith

  Step-unknown :
      (code : UnknownCode) (n : ℕ)
      → Step now t u
      → 2 ≤ rank t.phase
      → fact_at code (facts_of t.unknown_facts) ≡ some n
      → fact_at code (facts_of u.unknown_facts) ≡ some n
  unfolding reconciled closed_task bound_task dispatched
  Step-unknown code n (Step.note other p q e) h c = ground arith
  Step-unknown code n (Step.observe s p q e) h c = ground arith
  Step-unknown code n (Step.interrupt s p q e) h c = ground arith
  Step-unknown code n (Step.end source s p q e) h c = ground arith
  Step-unknown code n (Step.refine source s p q r e) h c = ground arith
  Step-unknown code n (Step.claim call p a e) h c = ground arith
  Step-unknown code n (Step.bind target p a e) h c = ground arith
  Step-unknown code n (Step.give_up result p e) h c = ground arith
  Step-unknown code n (Step.set_aside other p e) h c = ground arith
  Step-unknown code n (Step.close reason p a e) h c = ground arith

module _ {now : ℕ} where
  -- Along a walk the phase of a task never goes back in the order prepared, claimed, bound,
  -- terminal, reconcile, closed.
  pub Walk-rank : {t u : Task} → Walk now t u → rank t.phase ≤ rank u.phase
  Walk-rank (Walk.stay e) = rw e (omega arith)
  Walk-rank (Walk.next s w) = let a = Step-rank s in let b = Walk-rank w in omega arith

  -- A walk keeps the reference, the native interface, the contract's digest and summary and the
  -- time of creation of its task.
  pub Walk-Keeps : {t u : Task} → Walk now t u → Keeps t u
  Walk-Keeps {t} (Walk.stay e) = subst (Keeps t) (sym e) Keeps-refl
  Walk-Keeps (Walk.next s w) = Keeps-trans (Step-Keeps s) (Walk-Keeps w)

  -- A closed task is never changed: a walk from it ends at the same task.
  pub Walk-closed : {t u : Task} → Walk now t u → t.phase ≡ Phase.closed → u ≡ t
  Walk-closed (Walk.stay e) h = e
  Walk-closed (Walk.next s w) h = absurd (Step-not_closed s h)

  -- A task that has been bound, or set aside or closed, keeps its target along a walk.
  pub Walk-target : {t u : Task} → Walk now t u → 2 ≤ rank t.phase → u.target ≡ t.target
  Walk-target (Walk.stay e) h = rw e refl
  Walk-target (Walk.next s w) h =
      let a = Step-rank s in Walk-target w (omega arith) ∙ Step-target s h

  -- A terminal fact with a concrete status, one other than inactive, is kept whole by every walk
  -- from a task that is terminal, set aside or closed.
  pub Walk-terminal_fact :
      {t u : Task}
      → Walk now t u
      → 3 ≤ rank t.phase
      → terminal_status t ≢ some Status.inactive
      → u.terminal_fact ≡ t.terminal_fact
  Walk-terminal_fact (Walk.stay e) h c = rw e refl
  Walk-terminal_fact {t} (Walk.next {u = v} s w) h c =
      let a = Step-rank s in
      let same = Step-terminal s h c in
      let d : terminal_status v ≢ some Status.inactive = λ e. c (rw (sym same) e) in
      Walk-terminal_fact w (omega arith) d ∙ same

  -- The first time of each category of unknown receipt stays along every walk from a task that has
  -- been bound, or set aside or closed.
  pub Walk-first_unknown :
      {t u : Task} (code : UnknownCode) (n : ℕ)
      → Walk now t u
      → 2 ≤ rank t.phase
      → fact_at code (facts_of t.unknown_facts) ≡ some n
      → fact_at code (facts_of u.unknown_facts) ≡ some n
  Walk-first_unknown code n (Walk.stay e) h c = rw e c
  Walk-first_unknown code n (Walk.next s w) h c =
      let a = Step-rank s in Walk-first_unknown code n w (omega arith) (Step-unknown code n s h c)
