-- ===== src/Tests/Hooks.antt =====
-- Native calls before the Hook, and what is left in the session's file.
use mathlib.Core.Bool.{decide}
use subagent_governance.Base.{
  ◌⊎◌, ℕ, codes, refl, ◌≡◌, none, ok, err, Error, Result, [], ◌∷◌, Text, Text-discrete, ℕ_discrete,
  is_text, strip, lookup, insert, Option, Stage, ◌↔◌,
}
use subagent_governance.Json.{Value, Fields, fields, is_member}
use subagent_governance.Contract.{Manifest, Verification, Business-discrete}
use subagent_governance.Lifecycle.{Verdict, outcome}
use subagent_governance.Store.{Contents, WriteFault, read_path, write_path}
use subagent_governance.State.{require_current_state_format, validate_current_state_format}
use subagent_governance.Identity.{
  is_task_ref, task_name_from_message, parse_task_name, match_task_name,
}
use subagent_governance.Native.{fork_turns_valid, validate_native_spawn, normalize_native_spawn}
use subagent_governance.Retention.{prune_closed_tasks}
use subagent_governance.Contract.Records.{to_record}
use subagent_governance.Contract.Read.{contract}
use subagent_governance.Contract.Checks.{validate_task_contract}
use subagent_governance.Contract.Input.{
  contract_from_input, contract_digest, spawn_digest, validate_contract_summary,
  contract_summary_digest,
}
use subagent_governance.Dispatch.Claim.{
  claim_spawn, find_by_ref, claim_in_ledger, committed_claim, claim_task, claimed_task,
  claim_parameters_match, same_parameters, check_material,
}
use subagent_governance.Dispatch.Committed.{HoldsClaim, claim_spawn-HoldsClaim}
use subagent_governance.Hook.{Decision, pre_tool_use}
use subagent_governance.Hook.Messages.{Code, Site, Evidence, Action, Diagnosis}
use subagent_governance.Hook.Classify.{classify_failure}
use subagent_governance.Hook.Conflicts.{IsDenied, classify_failure-deny}
use subagent_governance.Hook.Outcomes.{pre_tool_use-denied, pre_tool_use-confirmed, IsGoverned}
use subagent_governance.Hook.Events.{Surroundings, handle_hook}
use subagent_governance.Hook.Returning.{handle_hook-returns}
use subagent_governance.Tests.Data.{
  prepared_example, claimed_example, with_task, encoding, session, id, ref, call,
}

unread : Manifest → Result Verification
unread m = err Error.context_verification

spawn_input : Fields
unfolding fields
spawn_input = fields (
    (codes "task_name", Value.str (codes "sg_standard_a_t_0123456789ab"))
    ∷ (codes "message", Value.str (codes "m"))
    ∷ (codes "fork_turns", Value.str (codes "none"))
    ∷ [])

-- The payload of a spawn call at a time.
spawn_payload : ℕ → Fields
unfolding fields
spawn_payload now = fields (
    (codes "hook_event_name", Value.str (codes "PreToolUse"))
    ∷ (codes "tool_name", Value.str (codes "spawn_agent"))
    ∷ (codes "tool_input", Value.obj spawn_input)
    ∷ (codes "session_id", Value.str session)
    ∷ (codes "tool_use_id", Value.str call)
    ∷ (codes "now", Value.num now)
    ∷ [])

prepared_file : Contents
prepared_file = Contents.stored (with_task prepared_example)

claimed_file : Contents
claimed_file = Contents.stored (with_task claimed_example)

expired_call : Diagnosis
expired_call = record {
  code = Code.preparation_expired;
  stage = Site.whole_claim;
  claim = Evidence.unconfirmed;
  action = Action.deny;
}

claimed_call : Diagnosis
claimed_call = record {
  code = Code.claimed;
  stage = Site.whole_claim;
  claim = Evidence.confirmed;
  action = Action.claimed;
}

spawn_claims :
    claim_spawn encoding unread WriteFault.no_fault 15 session ref call
      (Value.obj spawn_input)
      prepared_file
    ≡ (ok (outcome Verdict.claimed id ref none), claimed_file)
unfolding claim_spawn read_path require_current_state_format validate_current_state_format is_text
    is_task_ref validate_contract_summary validate_task_contract to_record is_member
    contract_summary_digest contract_from_input contract contract_digest spawn_digest decide
    Business-discrete fork_turns_valid validate_native_spawn strip claim_in_ledger find_by_ref
    prune_closed_tasks insert lookup claim_task claimed_task claim_parameters_match same_parameters
    normalize_native_spawn task_name_from_message check_material write_path spawn_input unread
    prepared_file claimed_file Text-discrete ℕ_discrete
spawn_claims = refl

claim_spawn-HoldsClaim_example :
    HoldsClaim encoding unread WriteFault.no_fault 15 session ref call
      (Value.obj spawn_input)
      claimed_file
unfolding prepared_file lookup
claim_spawn-HoldsClaim_example =
    claim_spawn-HoldsClaim encoding unread WriteFault.no_fault 15 session ref call
      (Value.obj spawn_input) _ prepared_file claimed_file (refl, tt) spawn_claims

pre_tool_use-denied_example : prepared_file ≡ prepared_file
unfolding pre_tool_use expired_call spawn_payload parse_task_name match_task_name claim_spawn
    read_path require_current_state_format validate_current_state_format is_text is_task_ref
    validate_contract_summary validate_task_contract to_record is_member contract_summary_digest
    contract_from_input contract contract_digest spawn_digest decide Business-discrete
    fork_turns_valid validate_native_spawn strip claim_in_ledger find_by_ref prune_closed_tasks
    insert lookup claim_task claimed_task claim_parameters_match same_parameters
    normalize_native_spawn task_name_from_message check_material write_path spawn_input unread
    prepared_file claimed_file Text-discrete ℕ_discrete committed_claim
pre_tool_use-denied_example =
    pre_tool_use-denied encoding unread WriteFault.no_fault (ok tt) 0 (spawn_payload 700)
      expired_call prepared_file prepared_file refl

pre_tool_use-confirmed_example :
    (now : ℕ) × (session_id : Text) × (task_ref : Text) × (tool_use_id : Text)
    × (tool_input : Fields) × IsGoverned encoding unread WriteFault.no_fault
        (ok tt)
        0
        (spawn_payload 15)
        session_id
        task_ref
        tool_use_id
        tool_input
    × HoldsClaim encoding unread WriteFault.no_fault now session_id task_ref tool_use_id
        (Value.obj tool_input)
        claimed_file
unfolding pre_tool_use claimed_call spawn_payload parse_task_name match_task_name claim_spawn
    read_path require_current_state_format validate_current_state_format is_text is_task_ref
    validate_contract_summary validate_task_contract to_record is_member contract_summary_digest
    contract_from_input contract contract_digest spawn_digest decide Business-discrete
    fork_turns_valid validate_native_spawn strip claim_in_ledger find_by_ref prune_closed_tasks
    insert lookup claim_task claimed_task claim_parameters_match same_parameters
    normalize_native_spawn task_name_from_message check_material write_path spawn_input unread
    prepared_file claimed_file Text-discrete ℕ_discrete
pre_tool_use-confirmed_example =
    pre_tool_use-confirmed encoding unread WriteFault.no_fault (ok tt) 0 (spawn_payload 15)
      (Decision.allow claimed_call) prepared_file claimed_file (refl, tt) refl refl

classify_failure-deny_example :
    ((classify_failure (Error.claim_failure Stage.state Error.state_conflict)).action ≡ Action.deny)
    ↔ IsDenied (Error.claim_failure Stage.state Error.state_conflict)
classify_failure-deny_example =
    classify_failure-deny (Error.claim_failure Stage.state Error.state_conflict)

surroundings : Surroundings
surroundings = record { quote = λ text. text; cli_entrypoint = codes "cli"; data_root = ok tt }

handle_hook-returns_example :
    ((reply : Option Value) × ((handle_hook surroundings encoding unread WriteFault.no_fault
          (ok tt)
          0
          (spawn_payload 15)
          prepared_file).0
        ≡ ok reply))
    ⊎ ((e : Error) × ((handle_hook surroundings encoding unread WriteFault.no_fault
            (ok tt)
            0
            (spawn_payload 15)
            prepared_file).0
          ≡ err e)
        × (surroundings.data_root ≡ err e))
handle_hook-returns_example =
    handle_hook-returns surroundings encoding unread WriteFault.no_fault (ok tt) 0
      (spawn_payload 15) prepared_file
