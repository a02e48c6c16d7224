-- ===== src/State/Valid.antt =====
-- The validity of one task, part by part, and as the validator states it.
use subagent_governance.Base.{
  ℕ, Text, is_text, ◌≤◌, ◌≡◌, refl, true, false, [], arith, is_some, ◌&&◌, ltb, not, append-eq-nil,
  Bool,
}
use subagent_governance.Contract.Canon.{Canon}
use subagent_governance.Ledger.{Task}
use subagent_governance.State.{summary_issues, prepared_issues, task_issues}
use subagent_governance.State.Fields.{
  field_issues, all_fields, claim_issues_at, identity_issues, fact_issues, terminal_issues,
  platform_issues, interrupt_issues, close_issues, unknown_issues, is_reconcile_phase, fail_if,
  StateIssue,
}

pub record IsValidFacts (t : Task) : Type 0 where
  pub terminal : terminal_issues t.phase t.terminal_fact ≡ []
  pub platform : platform_issues t.platform_observation ≡ []
  pub interrupt : interrupt_issues t.interrupt_fact ≡ []
  pub close : close_issues t.phase t ≡ []
  pub unknown : unknown_issues t.unknown_facts ≡ []
  pub reconcile : (is_reconcile_phase t.phase && not (is_some t.reconcile)) ≡ false

reconcile_of : (b : Bool) → fail_if b StateIssue.bad_reconcile ≡ [] → b ≡ false
reconcile_of b h = ground arith

pub fact_issues-IsValidFacts : (t : Task) → fact_issues t ≡ [] → IsValidFacts t
unfolding fact_issues
fact_issues-IsValidFacts t h =
    let (terminal, h₁) = append-eq-nil _ _ h in
    let (platform, h₂) = append-eq-nil _ _ h₁ in
    let (interrupt, h₃) = append-eq-nil _ _ h₂ in
    let (close, h₄) = append-eq-nil _ _ h₃ in
    let (unknown, last) = append-eq-nil _ _ h₄ in
    record {
      terminal = terminal;
      platform = platform;
      interrupt = interrupt;
      close = close;
      unknown = unknown;
      reconcile = reconcile_of _ last;
    }

pub IsValidFacts-fact_issues : (t : Task) → IsValidFacts t → fact_issues t ≡ []
unfolding fact_issues
IsValidFacts-fact_issues t v =
    rw (v.terminal, v.platform, v.interrupt, v.close, v.unknown, v.reconcile) refl

pub record IsValidTask (canon : Canon) (task_id : Text) (t : Task) : Type 0 where
  pub key : is_text 256 task_id ≡ true
  pub shape : field_issues t all_fields ≡ []
  pub summary : summary_issues canon t.task_ref t.contract_digest t.contract_summary ≡ []
  pub times : t.created_at ≤ t.updated_at
  pub capability : prepared_issues canon t.phase t ≡ []
  pub claim : claim_issues_at t.phase t ≡ []
  pub identity : identity_issues t ≡ []
  pub facts : IsValidFacts t

key_of : (b : Bool) → fail_if (not b) StateIssue.bad_key ≡ [] → b ≡ true
key_of b h = ground arith

times_of : (c u : ℕ) → fail_if (ltb u c) StateIssue.bad_times ≡ [] → c ≤ u
times_of c u h = ground arith

module _ (canon : Canon) (task_id : Text) (t : Task) where
  pub task_issues-IsValidTask : task_issues canon task_id t ≡ [] → IsValidTask canon task_id t
  unfolding task_issues
  task_issues-IsValidTask h =
      let (key, h₁) = append-eq-nil _ _ h in
      let (shape, h₂) = append-eq-nil _ _ h₁ in
      let (summary, h₃) = append-eq-nil _ _ h₂ in
      let (times, h₄) = append-eq-nil _ _ h₃ in
      let (capability, h₅) = append-eq-nil _ _ h₄ in
      let (claim, h₆) = append-eq-nil _ _ h₅ in
      let (identity, facts) = append-eq-nil _ _ h₆ in
      record {
        key = key_of _ key;
        shape = shape;
        summary = summary;
        times = times_of t.created_at t.updated_at times;
        capability = capability;
        claim = claim;
        identity = identity;
        facts = fact_issues-IsValidFacts t facts;
      }

  pub IsValidTask-task_issues : IsValidTask canon task_id t → task_issues canon task_id t ≡ []
  unfolding task_issues
  IsValidTask-task_issues v = ground (arith, IsValidFacts-fact_issues t v.facts)
