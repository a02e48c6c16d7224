-- ===== src/State/Fields.antt =====
-- scripts/governance_state.py: the keys of a task in each phase, and the checks of its facts.
use subagent_governance.Base.{
  ℕ, Text, is_text, Option, none, some, Bool, true, false, List, [], ◌∷◌, ◌++◌, ◌&&◌, ◌||◌, not,
  is_some,
}
use subagent_governance.Semantics.{
  Phase, is_terminal_fact_status, is_persisted_platform, is_persisted_interrupt,
}
use subagent_governance.Ledger.{
  Task, UnknownFacts, TerminalFact, PlatformObservation, InterruptFact,
}

-- The keys that not every phase has.
pub data Field : Type 0 where
  prepared claimed_tool_use_id claimed_at target bound_at platform_observation : Field
  terminal_fact interrupt_fact unknown_facts reconcile close_reason closed_at : Field

-- What a message of the validator is about.
pub data StateIssue : Type 0 where
  missing unexpected : Field → StateIssue
  bad_key bad_ref bad_digest bad_summary other_digest bad_times : StateIssue
  bad_contract other_spawn_digest bad_verification bad_parameters other_summary : StateIssue
  bad_native bad_claim bad_identity bad_terminal bad_platform bad_interrupt : StateIssue
  bad_close bad_unknown bad_reconcile : StateIssue
  bad_session too_many_tasks repeated_ref repeated_target : StateIssue

-- PHASE_FIELDS
unfoldable pub requires : Phase → Field → Bool
requires Phase.prepared Field.prepared = true
requires Phase.claimed Field.prepared = true
requires Phase.claimed Field.claimed_tool_use_id = true
requires Phase.claimed Field.claimed_at = true
requires Phase.bound Field.target = true
requires Phase.bound Field.bound_at = true
requires Phase.terminal Field.target = true
requires Phase.terminal Field.bound_at = true
requires Phase.terminal Field.terminal_fact = true
requires Phase.closed Field.close_reason = true
requires Phase.closed Field.closed_at = true
requires Phase.reconcile Field.reconcile = true
requires _ _ = false

-- OPTIONAL_PHASE_FIELDS
unfoldable pub permits : Phase → Field → Bool
permits Phase.prepared _ = false
permits Phase.claimed _ = false
permits _ Field.platform_observation = true
permits _ Field.interrupt_fact = true
permits _ Field.unknown_facts = true
permits Phase.closed Field.target = true
permits Phase.closed Field.bound_at = true
permits Phase.closed Field.terminal_fact = true
permits Phase.closed Field.reconcile = true
permits Phase.reconcile Field.target = true
permits Phase.reconcile Field.bound_at = true
permits Phase.reconcile Field.terminal_fact = true
permits _ _ = false

-- `field in task`
unfoldable pub has : Task → Field → Bool
has t Field.prepared = is_some t.prepared
has t Field.claimed_tool_use_id = is_some t.claimed_tool_use_id
has t Field.claimed_at = is_some t.claimed_at
has t Field.target = is_some t.target
has t Field.bound_at = is_some t.bound_at
has t Field.platform_observation = is_some t.platform_observation
has t Field.terminal_fact = is_some t.terminal_fact
has t Field.interrupt_fact = is_some t.interrupt_fact
has t Field.unknown_facts = is_some t.unknown_facts
has t Field.reconcile = is_some t.reconcile
has t Field.close_reason = is_some t.close_reason
has t Field.closed_at = is_some t.closed_at

abbrev pub all_fields : List Field
all_fields =
    Field.prepared ∷ Field.claimed_tool_use_id ∷ Field.claimed_at ∷ Field.target ∷ Field.bound_at
    ∷ Field.platform_observation ∷ Field.terminal_fact ∷ Field.interrupt_fact ∷ Field.unknown_facts
    ∷ Field.reconcile ∷ Field.close_reason ∷ Field.closed_at ∷ []

abbrev pub fail_if : Bool → StateIssue → List StateIssue
fail_if true i = i ∷ []
fail_if false i = []

-- A required key that is not there, or a key that is neither required nor optional.
unfoldable pub field_issue : Bool → Bool → Bool → Field → List StateIssue
field_issue true allowed false f = StateIssue.missing f ∷ []
field_issue false false true f = StateIssue.unexpected f ∷ []
field_issue required allowed present f = []

unfoldable pub field_issues : Task → List Field → List StateIssue
unfolding requires permits has field_issue
field_issues t [] = []
field_issues t (f ∷ fs) =
    field_issue (requires t.phase f) (permits t.phase f) (has t f) f ++ field_issues t fs

abbrev pub text_within : ℕ → Option Text → Bool
text_within n none = false
text_within n (some s) = is_text n s

-- The part on claimed_tool_use_id and claimed_at.
unfoldable pub claim_issues : Task → List StateIssue
claim_issues t =
    fail_if (not (text_within 1024 t.claimed_tool_use_id && is_some t.claimed_at))
      StateIssue.bad_claim

abbrev pub claim_issues_at : Phase → Task → List StateIssue
claim_issues_at Phase.claimed t = claim_issues t
claim_issues_at _ t = []

abbrev pub is_identified : Phase → Bool
is_identified Phase.bound = true
is_identified Phase.terminal = true
is_identified _ = false

unfoldable pub identity_issues : Task → List StateIssue
identity_issues t =
    fail_if
      ((is_identified t.phase || (is_some t.target || is_some t.unknown_facts))
        && not (text_within 1024 t.target && is_some t.bound_at))
      StateIssue.bad_identity

abbrev pub is_terminal_phase : Phase → Bool
is_terminal_phase Phase.terminal = true
is_terminal_phase _ = false

abbrev pub is_reconcile_phase : Phase → Bool
is_reconcile_phase Phase.reconcile = true
is_reconcile_phase _ = false

-- `_validate_terminal_fact`, `_validate_platform_observation` and `_validate_interrupt_fact`
abbrev pub terminal_issues : Phase → Option TerminalFact → List StateIssue
terminal_issues p none = fail_if (is_terminal_phase p) StateIssue.bad_terminal
terminal_issues p (some f) =
    fail_if (not (is_terminal_fact_status f.status)) StateIssue.bad_terminal

abbrev pub platform_issues : Option PlatformObservation → List StateIssue
platform_issues none = []
platform_issues (some f) = fail_if (not (is_persisted_platform f.status)) StateIssue.bad_platform

abbrev pub interrupt_issues : Option InterruptFact → List StateIssue
interrupt_issues none = []
interrupt_issues (some f) = fail_if (not (is_persisted_interrupt f.status)) StateIssue.bad_interrupt

abbrev pub unknown_issues : Option UnknownFacts → List StateIssue
unknown_issues none = []
unknown_issues (some f) =
    fail_if (not (is_some f.delivery || (is_some f.platform_observation || is_some f.interrupt)))
      StateIssue.bad_unknown

abbrev pub close_issues : Phase → Task → List StateIssue
close_issues Phase.closed t =
    fail_if (not (text_within 1024 t.close_reason && is_some t.closed_at)) StateIssue.bad_close
close_issues _ t = []

unfoldable pub fact_issues : Task → List StateIssue
fact_issues t =
    terminal_issues t.phase t.terminal_fact
    ++ (platform_issues t.platform_observation
        ++ (interrupt_issues t.interrupt_fact
            ++ (close_issues t.phase t
                ++ (unknown_issues t.unknown_facts
                    ++ fail_if (is_reconcile_phase t.phase && not (is_some t.reconcile))
                        StateIssue.bad_reconcile))))
