-- ===== src/State.antt =====
-- scripts/governance_state.py: the validation of a Session ledger, on its typed form. The types of
-- the values are those of the model, so the checks of a key's type are checks that it is there.
pub mod Facts
pub mod Fields
pub mod Sound
pub mod Agreeing
pub mod Meaning
pub mod Capable
pub mod Valid
pub mod Ledgers
pub mod Replacing
use subagent_governance.State.Fields.{
  Field, StateIssue, all_fields, claim_issues, claim_issues_at, close_issues, fact_issues, fail_if,
  field_issue, field_issues, has, identity_issues, interrupt_issues, is_identified,
  is_reconcile_phase, is_terminal_phase, permits, platform_issues, requires, terminal_issues,
  text_within, unknown_issues,
}
use subagent_governance.Base.{
  ℕ, Text, is_text, text_eq, Option, none, some, Bool, true, false, List, [], ◌∷◌, ◌++◌, ◌&&◌, ◌||◌,
  not, decide, is_some, if◌then◌else◌, leb, ltb, length, Result, ok, err, Error, Dict,
}
use subagent_governance.Json.{mem_text}
use subagent_governance.Semantics.{
  Phase, is_target_owning, is_terminal_fact_status, is_persisted_platform, is_persisted_interrupt,
  max_tasks_per_session,
}
use subagent_governance.Contract.{
  Manifest, Verification, Business, TaskContract, NativeParameters, Business-discrete,
}
use subagent_governance.Contract.Canon.{Canon}
use subagent_governance.Contract.Issues.{Issue}
use subagent_governance.Contract.Paths.{is_digest}
use subagent_governance.Contract.Records.{to_record}
use subagent_governance.Contract.Verified.{validate_verification}
use subagent_governance.Contract.Input.{
  contract_from_input, contract_digest, contract_summary_digest, spawn_digest,
  validate_contract_summary,
}
use subagent_governance.Identity.{is_task_ref}
use subagent_governance.Native.{validate_native_spawn}
use subagent_governance.Ledger.{
  Task, Ledger, Prepared, UnknownFacts, TerminalFact, PlatformObservation, InterruptFact,
}

abbrev pub option_eq : Option Text → Option Text → Bool
option_eq none none = true
option_eq (some a) (some b) = text_eq a b
option_eq _ _ = false

abbrev pub is_clean : Result (List Issue) → Bool
is_clean (ok found) = leb (length found) 0
is_clean (err e) = false

abbrev pub is_done : Result (Unit {0}) → Bool
is_done (ok _) = true
is_done (err e) = false

-- The target that a task owns, if any.
abbrev pub owned_at : Bool → Option Text → Option Text
owned_at true goal = goal
owned_at false goal = none

abbrev pub owned : Task → Option Text
owned t = owned_at (is_target_owning t.phase) t.target

abbrev pub clash : Option Text → List Text → List StateIssue
clash none targets = []
clash (some goal) targets = fail_if (mem_text goal targets) StateIssue.repeated_target

-- A target that is there already is not added.
abbrev pub add_target : Option Text → List Text → List Text
add_target none targets = targets
add_target (some goal) targets = if mem_text goal targets then targets else goal ∷ targets

module _ (canon : Canon) where
  unfoldable pub verification_issues : Option Manifest → Option Verification → List StateIssue
  unfolding validate_verification
  verification_issues none none = []
  verification_issues none (some v) = StateIssue.bad_verification ∷ []
  verification_issues (some m) none = StateIssue.bad_verification ∷ []
  verification_issues (some m) (some v) =
      fail_if (ltb 0 (length (validate_verification canon.is_absolute m v)))
        StateIssue.bad_verification

  unfoldable pub parameters_issues : TaskContract → NativeParameters → List StateIssue
  parameters_issues c e =
      fail_if (not (text_within 64 e.task_name && is_text 65536 e.message))
        StateIssue.bad_parameters
      ++ fail_if
          (not (
            text_eq e.fork_turns c.spawn.fork_turns
            && (option_eq e.model c.spawn.model
                && option_eq e.reasoning_effort c.spawn.reasoning_effort)))
          StateIssue.bad_parameters

  -- `_validate_prepared`, and the checks of `_validate_task` that read the same contract.
  unfoldable pub contract_issues : Task → Prepared → Result TaskContract → List StateIssue
  unfolding verification_issues parameters_issues validate_native_spawn
  contract_issues t p (err e) = StateIssue.bad_contract ∷ []
  contract_issues t p (ok c) =
      fail_if (not (text_eq p.spawn_digest (spawn_digest canon c))) StateIssue.other_spawn_digest
      ++ (verification_issues c.business_record.context.verified p.context_verification
          ++ (parameters_issues c p.expected_native_parameters
              ++ (fail_if (not (text_eq t.contract_digest (contract_digest canon c)))
                    StateIssue.other_digest
                  ++ (fail_if
                        (not (decide (Business-discrete t.contract_summary c.business_record)))
                        StateIssue.other_summary
                      ++ fail_if
                          (not (
                            is_done (
                              validate_native_spawn t.native_interface c.spawn.fork_turns
                                c.spawn.model c.spawn.reasoning_effort)))
                          StateIssue.bad_native))))

  unfoldable pub capability_issues : Task → Option Prepared → List StateIssue
  unfolding contract_issues
  capability_issues t none = StateIssue.bad_contract ∷ []
  capability_issues t (some p) =
      contract_issues t p (contract_from_input canon (to_record p.contract))

  unfoldable pub prepared_issues : Phase → Task → List StateIssue
  unfolding capability_issues
  prepared_issues Phase.prepared t = capability_issues t t.prepared
  prepared_issues Phase.claimed t = capability_issues t t.prepared
  prepared_issues _ t = []

  -- The part that no operation changes: the reference, the digest and the summary.
  unfoldable pub summary_issues : Text → Text → Business → List StateIssue
  unfolding is_digest
  summary_issues ref digest summary =
      fail_if (not (is_task_ref ref)) StateIssue.bad_ref
      ++ (fail_if (not (is_digest digest)) StateIssue.bad_digest
          ++ (if is_clean (validate_contract_summary canon summary)
              then fail_if (not (text_eq digest (contract_summary_digest canon summary)))
                  StateIssue.other_digest
              else StateIssue.bad_summary ∷ []))

  -- `_validate_task`
  unfoldable pub task_issues : Text → Task → List StateIssue
  unfolding field_issues summary_issues prepared_issues claim_issues identity_issues fact_issues
  task_issues task_id t =
      fail_if (not (is_text 256 task_id)) StateIssue.bad_key
      ++ (field_issues t all_fields
          ++ (summary_issues t.task_ref t.contract_digest t.contract_summary
              ++ (fail_if (ltb t.updated_at t.created_at) StateIssue.bad_times
                  ++ (prepared_issues t.phase t
                      ++ (claim_issues_at t.phase t ++ (identity_issues t ++ fact_issues t))))))

  -- The loop over the tasks, with the references and the targets seen so far.
  unfoldable pub tasks_issues : List Text → List Text → Dict Task → List StateIssue
  unfolding task_issues
  tasks_issues refs targets [] = []
  tasks_issues refs targets ((task_id, t) ∷ d) =
      task_issues task_id t
      ++ (fail_if (mem_text t.task_ref refs) StateIssue.repeated_ref
          ++ (clash (owned t) targets
              ++ tasks_issues (t.task_ref ∷ refs) (add_target (owned t) targets) d))

  -- validate_current_state_format
  unfoldable pub validate_current_state_format : Ledger → List StateIssue
  unfolding tasks_issues
  validate_current_state_format l =
      fail_if (not (is_text 1024 l.session_id)) StateIssue.bad_session
      ++ (fail_if (ltb max_tasks_per_session (length l.tasks)) StateIssue.too_many_tasks
          ++ tasks_issues [] [] l.tasks)

  -- require_current_state_format
  unfoldable pub require_current_state_format : Ledger → Result Ledger
  require_current_state_format l =
      if leb (length (validate_current_state_format l)) 0 then ok l else err Error.state_validation
