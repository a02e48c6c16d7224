-- ===== src/State/Sound.antt =====
-- When a task of the ledger is sound, as the format of scripts/governance_state.py means it: the keys
-- that its phase needs, permits or bars, and what the values must be. It does not use the validator.
use subagent_governance.Base.{
  ℕ, Text, is_text, ◌≤◌, ◌≡◌, ◌≢◌, Option, none, some, Bool, true, [], ◌⊎◌, ok,
}
use subagent_governance.Semantics.{
  Phase, is_terminal_fact_status, is_persisted_platform, is_persisted_interrupt,
}
use subagent_governance.Contract.{Manifest, Verification, TaskContract}
use subagent_governance.Contract.Canon.{Canon}
use subagent_governance.Contract.Paths.{is_digest}
use subagent_governance.Contract.Records.{to_record}
use subagent_governance.Contract.Verified.{validate_verification}
use subagent_governance.Contract.Input.{
  contract_from_input, contract_digest, contract_summary_digest, spawn_digest,
  validate_contract_summary,
}
use subagent_governance.Identity.{is_task_ref}
use subagent_governance.Native.{validate_native_spawn}
use subagent_governance.Ledger.{Task, Prepared, UnknownFacts}
use subagent_governance.State.Fields.{Field}

-- What a phase asks of a key.
pub data Rule : Type 0 where
  needed permitted barred : Rule

unfoldable pub rule : Phase → Field → Rule
rule Phase.prepared Field.prepared = Rule.needed
rule Phase.claimed Field.prepared = Rule.needed
rule Phase.claimed Field.claimed_tool_use_id = Rule.needed
rule Phase.claimed Field.claimed_at = Rule.needed
rule Phase.bound Field.target = Rule.needed
rule Phase.bound Field.bound_at = Rule.needed
rule Phase.bound Field.platform_observation = Rule.permitted
rule Phase.bound Field.interrupt_fact = Rule.permitted
rule Phase.bound Field.unknown_facts = Rule.permitted
rule Phase.terminal Field.target = Rule.needed
rule Phase.terminal Field.bound_at = Rule.needed
rule Phase.terminal Field.terminal_fact = Rule.needed
rule Phase.terminal Field.platform_observation = Rule.permitted
rule Phase.terminal Field.interrupt_fact = Rule.permitted
rule Phase.terminal Field.unknown_facts = Rule.permitted
rule Phase.reconcile Field.reconcile = Rule.needed
rule Phase.reconcile Field.target = Rule.permitted
rule Phase.reconcile Field.bound_at = Rule.permitted
rule Phase.reconcile Field.terminal_fact = Rule.permitted
rule Phase.reconcile Field.platform_observation = Rule.permitted
rule Phase.reconcile Field.interrupt_fact = Rule.permitted
rule Phase.reconcile Field.unknown_facts = Rule.permitted
rule Phase.closed Field.close_reason = Rule.needed
rule Phase.closed Field.closed_at = Rule.needed
rule Phase.closed Field.target = Rule.permitted
rule Phase.closed Field.bound_at = Rule.permitted
rule Phase.closed Field.terminal_fact = Rule.permitted
rule Phase.closed Field.platform_observation = Rule.permitted
rule Phase.closed Field.interrupt_fact = Rule.permitted
rule Phase.closed Field.unknown_facts = Rule.permitted
rule Phase.closed Field.reconcile = Rule.permitted
rule _ _ = Rule.barred

abbrev pub Has : {A : Type 0} → Option A → Type 0
Has none = ⊥
Has (some a) = Unit

abbrev pub Follows : {A : Type 0} → Rule → Option A → Type 0
Follows Rule.needed o = Has o
Follows Rule.permitted o = Unit
Follows Rule.barred o = o ≡ none

-- The value, if there is one, is one that the test admits.
abbrev pub Within : {A : Type 0} → (A → Bool) → Option A → Type 0
Within test none = Unit
Within test (some a) = test a ≡ true

pub record HasKeys (t : Task) : Type 0 where
  pub prepared : Follows (rule t.phase Field.prepared) t.prepared
  pub claimed_tool_use_id : Follows (rule t.phase Field.claimed_tool_use_id) t.claimed_tool_use_id
  pub claimed_at : Follows (rule t.phase Field.claimed_at) t.claimed_at
  pub target : Follows (rule t.phase Field.target) t.target
  pub bound_at : Follows (rule t.phase Field.bound_at) t.bound_at
  pub platform_observation :
      Follows (rule t.phase Field.platform_observation) t.platform_observation
  pub terminal_fact : Follows (rule t.phase Field.terminal_fact) t.terminal_fact
  pub interrupt_fact : Follows (rule t.phase Field.interrupt_fact) t.interrupt_fact
  pub unknown_facts : Follows (rule t.phase Field.unknown_facts) t.unknown_facts
  pub reconcile : Follows (rule t.phase Field.reconcile) t.reconcile
  pub close_reason : Follows (rule t.phase Field.close_reason) t.close_reason
  pub closed_at : Follows (rule t.phase Field.closed_at) t.closed_at

-- A target is a text and has its time; without one the task is neither bound nor terminal and has no
-- unknown facts.
pub data IsIdentified (p : Phase) : Option Text → Option ℕ → Option UnknownFacts → Type 0 where
  known :
      (goal : Text) (time : ℕ) (facts : Option UnknownFacts)
      → is_text 1024 goal ≡ true
      → IsIdentified p (some goal) (some time) facts
  open_target :
      (time : Option ℕ) → p ≢ Phase.bound → p ≢ Phase.terminal → IsIdentified p none time none

-- At least one of the three times is there.
abbrev pub HasTime : UnknownFacts → Type 0
HasTime f = Has f.delivery ⊎ (Has f.platform_observation ⊎ Has f.interrupt)

abbrev pub HasTimes : Option UnknownFacts → Type 0
HasTimes none = Unit
HasTimes (some f) = HasTime f

abbrev pub HasClaim : Phase → Option Text → Type 0
HasClaim Phase.claimed o = Within (is_text 1024) o
HasClaim _ o = Unit

abbrev pub HasReason : Phase → Option Text → Type 0
HasReason Phase.closed o = Within (is_text 1024) o
HasReason _ o = Unit

module _ (canon : Canon) where
  -- The record of a verification belongs to the manifest of the contract.
  pub data IsRecordOf : Option Manifest → Option Verification → Type 0 where
    nothing : IsRecordOf none none
    record_of :
        (m : Manifest) (v : Verification)
        → validate_verification canon.is_absolute m v ≡ []
        → IsRecordOf (some m) (some v)

  -- The capability of a task: its contract reads as one whose digests, summary, verification and
  -- native parameters are those that the task holds.
  pub record IsCapability (t : Task) (p : Prepared) : Type 0 where
    pub contract : TaskContract
    pub reading : contract_from_input canon (to_record p.contract) ≡ ok contract
    pub spawn : p.spawn_digest ≡ spawn_digest canon contract
    pub verification : IsRecordOf contract.business_record.context.verified p.context_verification
    pub name : Within (is_text 64) p.expected_native_parameters.task_name
    pub named : Has p.expected_native_parameters.task_name
    pub message : is_text 65536 p.expected_native_parameters.message ≡ true
    pub fork_turns : p.expected_native_parameters.fork_turns ≡ contract.spawn.fork_turns
    pub model : p.expected_native_parameters.model ≡ contract.spawn.model
    pub effort : p.expected_native_parameters.reasoning_effort ≡ contract.spawn.reasoning_effort
    pub digest : t.contract_digest ≡ contract_digest canon contract
    pub summary : t.contract_summary ≡ contract.business_record
    pub native :
        validate_native_spawn t.native_interface contract.spawn.fork_turns contract.spawn.model
          contract.spawn.reasoning_effort
        ≡ ok tt

  abbrev pub IsCapable : Task → Option Prepared → Type 0
  IsCapable t none = ⊥
  IsCapable t (some p) = IsCapability t p

  -- A prepared and a claimed task have a capability.
  abbrev pub HasCapability : Phase → Task → Type 0
  HasCapability Phase.prepared t = IsCapable t t.prepared
  HasCapability Phase.claimed t = IsCapable t t.prepared
  HasCapability _ t = Unit

  pub record IsSound (task_id : Text) (t : Task) : Type 0 where
    pub key : is_text 256 task_id ≡ true
    pub ref : is_task_ref t.task_ref ≡ true
    pub digest : is_digest t.contract_digest ≡ true
    pub summary : validate_contract_summary canon t.contract_summary ≡ ok []
    pub same_digest : t.contract_digest ≡ contract_summary_digest canon t.contract_summary
    pub times : t.created_at ≤ t.updated_at
    pub keys : HasKeys t
    pub capability : HasCapability t.phase t
    pub claim : HasClaim t.phase t.claimed_tool_use_id
    pub identity : IsIdentified t.phase t.target t.bound_at t.unknown_facts
    pub terminal : Within (λ f. is_terminal_fact_status f.status) t.terminal_fact
    pub platform : Within (λ f. is_persisted_platform f.status) t.platform_observation
    pub interrupt : Within (λ f. is_persisted_interrupt f.status) t.interrupt_fact
    pub unknown : HasTimes t.unknown_facts
    pub reason : HasReason t.phase t.close_reason
